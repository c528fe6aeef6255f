-- ===== src/Forwarder.antt =====
-- src/core/forwarder/forwarder.c: which transmit slots are in use, the bursts of a transmit thread,
-- what a receive thread does with a packet, a round of a crypto worker, the creation and the end of
-- the threads, and set-up and clean-up. Pinning and the messages on stderr are left out.
pub mod Slots
pub mod Burst
pub mod Hub
pub mod Dispatch
pub mod Threads
pub mod Created
pub mod StartAll
pub mod Joins
pub mod Setup
pub mod Undo
pub mod Made
pub mod Opened
use ne.Dataplane.{Forwarder, free_packet}
use ne.Packet.{Packet, Pool}
use ne.Ring.{Ring, ring_count, ring_push, ring_pop, store}
use ne.Rx.{Desc}
use ne.Tx.{Port, Producer, tx_slots, tx_drain_all, pair_live}
use ne.Base.{
  ℕ, zero, suc, ◌+◌, ◌-◌, ◌*◌, ◌/◌, ◌%◌, ◌^◌, ◌≤◌, ◌<◌, min, bit_and, bit_or, bit_xor, ◌≡◌, refl,
  sym, ap, ap₂, ◌∙◌, ◌≢◌, ◌↔◌, ◌⊎◌, inl, inr, Bool, true, false, not, ◌&&◌, ◌||◌, Option, none,
  some, List, [], ◌∷◌, ◌++◌, arith, ltb, leb, ◌==◌, if◌then◌else◌, ==_iff, Bool-cases, Option-cases,
  length, u8, u16, u32, u64, sub32, sub64, shr, low_bits, be16, be32, Mem, IsBytes, inside, poke,
  copy, put, slice, Agree,
}

-- NE_CRYPTO_WORKERS, DP_TX_BURST_MAX
abbrev pub crypto_workers : ℕ
crypto_workers = 6

abbrev pub tx_burst_max : ℕ
tx_burst_max = 8

-- One loop of forwarder_active_tx_slots: the fewest queues so far, and whether an interface is live.
unfoldable pub slots_loop : {Q : Type 0} → ℕ → ℕ → Port Q → ℕ × Bool → ℕ × Bool
slots_loop zero i port s = s
slots_loop (suc left) i port (slots, found) =
    let nq = (port.ifaces i).queue_count in
    let fewer : ℕ × Bool = (if ltb nq slots then nq else slots, true) in
    slots_loop left (i + 1) port (if port.live i then fewer else (slots, found))

unfoldable pub active_tx_slots : {Q : Type 0} → Port Q → Port Q → ℕ
active_tx_slots lan wan =
    let start : ℕ × Bool = (tx_slots, false) in
    let (slots, found) = slots_loop wan.count 0 wan (slots_loop lan.count 0 lan start) in
    if found && ltb 0 slots then slots else 1

-- tx_collect_worker_rings: the one ring of the slot, or none
unfoldable pub collect_worker_rings : (ℕ → Ring Packet) → ℕ → ℕ → Option (Ring Packet)
collect_worker_rings per_worker tx_slot nslots =
    let n = if ltb nslots 1 then 1 else nslots in
    if leb n tx_slot then none else some (per_worker tx_slot)

-- tx_slot_has_pending, a side at a time
unfoldable pub pending_loop : ℕ → ℕ → (ℕ → ℕ → Ring Packet) → ℕ → Bool
pending_loop zero i rings tx_slot = false
pending_loop (suc left) i rings tx_slot =
    let rest = pending_loop left (i + 1) rings tx_slot in
    if ring_count (rings i tx_slot) == 0 then rest else true

unfoldable pub tx_slot_has_pending : Forwarder → ℕ → Bool
tx_slot_has_pending fwd tx_slot =
    let lan = pending_loop fwd.local_count 0 fwd.mid_to_local tx_slot in
    let wan = pending_loop fwd.wan_count 0 fwd.mid_to_wan tx_slot in
    if leb tx_slots tx_slot then false else lan || wan

-- What a burst changes: the side, the ring, the pool and the thread's counter of rounds; and how many
-- packets it has sent.
pub record Bursting (Q : Type 0) : Type 0 where
  pub port : Port Q
  pub ring : Ring Packet
  pub pool : Pool
  pub rr : ℕ
  pub total : ℕ

-- The only ring of `srcs`, as the drain leaves it.
abbrev pub ring_of : Ring Packet → Option (Ring Packet) → Ring Packet
ring_of r none = r
ring_of r (some r') = r'

module _ {Q : Type 0} (p : Producer Q Desc) (frame_size idx tx_slot : ℕ) where
  -- One call of ne_tx_drain_local_all or ne_tx_drain_wan_all, and the loop of the bursts.
  unfoldable pub burst_once : Bursting Q → Bursting Q × ℕ
  burst_once b =
      let (port', srcs', pool', sent, rr') =
        tx_drain_all p b.port (λ i. some b.ring) 1 b.pool frame_size b.rr idx tx_slot in
      (
        record {
          port = port';
          ring = ring_of b.ring (srcs' 0);
          pool = pool';
          rr = rr';
          total = b.total + sent;
        },
        sent,
      )

  unfoldable pub burst_loop : ℕ → Bursting Q → Bursting Q
  burst_loop zero b = b
  burst_loop (suc left) b =
      let (b', sent) = burst_once b in
      let rest = burst_loop left b' in if sent == 0 then b' else rest

  -- dp_burst_tx_local and dp_burst_tx_wan, for the ring of the slot
  unfoldable pub dp_burst_tx : Port Q → (ℕ → Ring Packet) → Pool → ℕ → Bursting Q
  dp_burst_tx port per_worker pool rr =
      let start : Bursting Q = record {
        port = port;
        ring = per_worker tx_slot;
        pool = pool;
        rr = rr;
        total = 0;
      } in
      let sent = burst_loop tx_burst_max start in
      if not (pair_live port idx)
      then start
      else elim (collect_worker_rings per_worker tx_slot tx_slots) [
        | none ↦ start
        | some ring ↦ sent
      ]
