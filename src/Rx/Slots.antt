-- ===== src/Rx/Slots.antt =====
-- The slots that serve the queues of an interface.
use ne.Base.{ℕ, ◌%◌, ◌<◌, ◌≡◌, ◌↔◌, true, arith, ltb, if◌then◌else◌}
use native.Mathlib.Nat.{mod-lt}
use ne.Rx.{queue_for_rx_slot, queue_for_tx_slot}

-- How many slots an interface with `nq` queues uses, of `slots`.
abbrev pub slots_used : ℕ → ℕ → ℕ
slots_used nq slots = if ltb nq slots then (if ltb 0 nq then nq else 1) else slots

rx_slot_iff :
    (q s nq slots : ℕ)
    → 0 < slots
    → (queue_for_rx_slot q s nq slots ≡ true) ↔ (s ≡ q % slots_used nq slots)
unfolding queue_for_rx_slot
rx_slot_iff q s nq slots h =
    let pos : 0 < slots_used nq slots = ground arith in
    let small = mod-lt q {m = slots_used nq slots} pos in ground (arith, small)

pub tx_slot_iff : (q s nq : ℕ) → (queue_for_tx_slot q s nq ≡ true) ↔ (s ≡ q % slots_used nq 4)
unfolding queue_for_tx_slot
tx_slot_iff q s nq =
    let pos : 0 < slots_used nq 4 = ground arith in
    let small = mod-lt q {m = slots_used nq 4} pos in ground (arith, small)

-- For receiving and for sending, a queue is served by exactly one slot: its number modulo the
-- number of slots in use, which is that of the queues, at least one, and at most that of the threads.
pub queue_slots_lem :
    (q s nq slots : ℕ)
    → 0 < slots
    → ((queue_for_rx_slot q s nq slots ≡ true) ↔ (s ≡ q % slots_used nq slots))
      × ((queue_for_tx_slot q s nq ≡ true) ↔ (s ≡ q % slots_used nq 4))
queue_slots_lem q s nq slots h = (rx_slot_iff q s nq slots h, tx_slot_iff q s nq)
