-- ===== src/Tx/Slot.antt =====
-- The queue on which a transmit slot of an interface sends.
use ne.Tx.Whole.{AllSendable}
use ne.Base.{
  ℕ, zero, suc, ◌+◌, ◌%◌, ◌≤◌, ◌<◌, min, ◌≡◌, refl, sym, ap, ◌∙◌, ◌≢◌, ◌⊎◌, inl, inr, true, false,
  none, some, List, arith, ltb, if◌then◌else◌, Bool-cases, Option-cases,
}
use mathlib.Core.Path.{subst}
use ne.Ring.Fifo.{IsRing, contents}
use ne.Ring.{Ring, store}
use ne.Packet.{Packet, Pool}
use ne.Tx.Send.{Sent, tx_drain_queue_lem}
use ne.Tx.{
  primary_loop, tx_slots, Producer, IsProducer, Iface, tx_drain_iface_ring, tx_batch, Sending,
  tx_drain_queue, drain_on,
}
use ne.Rx.Slots.{slots_used, tx_slot_iff}
use ne.Rx.{queue_for_tx_slot, Desc}
use native.Mathlib.Decide.{dec_lt}
use native.Mathlib.Nat.{mod-eq_of_lt, mod-lt}

-- How many slots an interface with `nq` queues uses.
slots_in_use : (nq : ℕ) → 0 < nq → slots_used nq tx_slots ≡ min nq tx_slots
slots_in_use nq h = ground arith

not_slot : (q s nq : ℕ) → s ≢ q % slots_used nq 4 → queue_for_tx_slot q s nq ≡ false
not_slot q s nq h = elim (Bool-cases (queue_for_tx_slot q s nq)) [
  | inl e ↦ absurd (h ((tx_slot_iff q s nq).0 e))
  | inr e ↦ e
]

found :
    (left q s nq : ℕ)
    → s < slots_used nq 4
    → q ≤ s
    → s < q + left
    → primary_loop left q s nq ≡ some s
unfolding primary_loop
found zero q s nq h le lt = absurd (omega arith)
found (suc left) q s nq h le lt = elim (dec_lt q s) [
  | yes before ↦
      let e = mod-eq_of_lt {n = q} {m = slots_used nq 4} (omega arith) in
      rw (not_slot q s nq (λ x. omega (arith, x, e)))
        (found left (q + 1) s nq h (omega arith) (omega arith))
  | no here ↦
      let same : s ≡ q = omega arith in
      let e = mod-eq_of_lt {n = q} {m = slots_used nq 4} (omega arith) in
      rw ((tx_slot_iff q s nq).1 (omega (arith, e))) (ap some (omega arith))
]

none_found : (left q s nq : ℕ) → slots_used nq 4 ≤ s → primary_loop left q s nq ≡ none
unfolding primary_loop
none_found zero q s nq h = refl
none_found (suc left) q s nq h =
    let pos : 0 < slots_used nq 4 = ground arith in
    let small = mod-lt q {m = slots_used nq 4} pos in
    rw (not_slot q s nq (λ x. omega (arith, x, small, h))) (none_found left (q + 1) s nq h)

pub primary_eq :
    (s nq : ℕ) → primary_loop nq 0 s nq ≡ (if ltb s (min nq tx_slots) then some s else none)
unfolding primary_loop
primary_eq s zero = ground arith
primary_eq s (suc m) =
    let e = slots_in_use (suc m) (omega arith) in
    elim (dec_lt s (min (suc m) tx_slots)) [
      | yes lt ↦
          let t : ltb s (min (suc m) tx_slots) ≡ true = ground (arith, lt) in
          let f =
            found (suc m) 0 s (suc m) (omega (arith, e, lt)) (omega arith) (omega (arith, lt)) in
          f ∙ ap (λ b. if b then some s else none) (sym t)
      | no ge ↦
          let t : ltb s (min (suc m) tx_slots) ≡ false = ground (arith, ge) in
          let f = none_found (suc m) 0 s (suc m) (omega (arith, e, ge)) in
          f ∙ ap (λ b. if b then some s else none) (sym t)
    ]

pub queue_count-drain :
    {Q : Type 0} (p : Producer Q Desc) (iface : Iface Q) (src : Ring Packet) (pool : Pool)
    (max_frame tx_slot : ℕ)
    → (tx_drain_iface_ring p iface src pool max_frame tx_slot).0.queue_count ≡ iface.queue_count
unfolding tx_drain_iface_ring drain_on
queue_count-drain p iface src pool max_frame tx_slot =
    elim (Option-cases (primary_loop iface.queue_count 0 tx_slot iface.queue_count)) [
      | inl e ↦ ap (λ o. (drain_on p iface src pool max_frame o).0.queue_count) e
      | inr (q, e) ↦ ap (λ o. (drain_on p iface src pool max_frame o).0.queue_count) e
    ]

module _ {Q : Type 0} (p : Producer Q Desc) (handed : Q → List Desc)
    (lib : IsProducer p handed) where
  -- What a slot's round does: it sends the first packets of the ring on the queue with its number,
  -- or there is no such queue and nothing changes.
  abbrev pub Sends :
      ℕ → ℕ → ℕ → Iface Q → Ring Packet → Pool → Iface Q × Ring Packet × Pool × ℕ → Type 0
  Sends k max_frame tx_slot iface src pool (iface', src', pool', n) =
      ((tx_slot < min iface.queue_count tx_slots)
        × Sent p handed lib k tx_batch max_frame
            (record { ring = src; tx = iface.queues tx_slot; pool = pool })
            (record { ring = src'; tx = iface'.queues tx_slot; pool = pool' }) n
        × ((q : ℕ) → q ≢ tx_slot → iface'.queues q ≡ iface.queues q))
      ⊎ ((min iface.queue_count tx_slots ≤ tx_slot)
          × (iface' ≡ iface)
          × (src' ≡ src)
          × (pool' ≡ pool)
          × (n ≡ 0))

  -- With libxdp's ring as documented, a valid ring, and packets of at most four segments and 9216
  -- bytes, of which no segment is longer than a frame: the slots that send are those below the number
  -- of queues and below four; of its interface's queues a slot uses the one with its number and leaves
  -- the others, and it hands the first packets of the ring over there, at most 32, in their order and
  -- so that the card sees each packet as one frame with the addresses and lengths of all its segments,
  -- until there are no more or less room than four places. The other slots change nothing.
  pub tx_drain_iface_ring_lem :
      (k max_frame tx_slot : ℕ) (iface : Iface Q) (src : Ring Packet) (pool : Pool)
      → IsRing k src
      → AllSendable max_frame (contents k src)
      → Sends k max_frame tx_slot iface src pool
          (tx_drain_iface_ring p iface src pool max_frame tx_slot)
  unfolding tx_drain_iface_ring drain_on
  tx_drain_iface_ring_lem k max_frame tx_slot iface src pool h ok =
      let e = primary_eq tx_slot iface.queue_count in
      let s : Sending Q = record { ring = src; tx = iface.queues tx_slot; pool = pool } in
      elim (dec_lt tx_slot (min iface.queue_count tx_slots)) [
        | yes lt ↦
            let t : ltb tx_slot (min iface.queue_count tx_slots) ≡ true = ground (arith, lt) in
            let e' = e ∙ ap (λ b. if b then some tx_slot else none) t in
            let r = tx_drain_queue p max_frame s iface.tx_no_free in
            let here : store iface.queues tx_slot r.0.tx tx_slot ≡ r.0.tx = ground arith in
            let sent = tx_drain_queue_lem p handed lib k max_frame iface.tx_no_free s h ok in
            let sent' : Sent p handed lib k tx_batch max_frame s
                (record {
                  ring = r.0.ring;
                  tx = store iface.queues tx_slot r.0.tx tx_slot;
                  pool = r.0.pool;
                })
                r.1 =
              rw here sent in
            let other : (q : ℕ)
                → q ≢ tx_slot
                → store iface.queues tx_slot r.0.tx q ≡ iface.queues q =
              λ q ne. ground (arith, ne) in
            subst (Sends k max_frame tx_slot iface src pool)
              (sym (ap (drain_on p iface src pool max_frame) e')) (inl (lt, sent', other))
        | no ge ↦
            let t : ltb tx_slot (min iface.queue_count tx_slots) ≡ false = ground (arith, ge) in
            let e' = e ∙ ap (λ b. if b then some tx_slot else none) t in
            subst (Sends k max_frame tx_slot iface src pool)
              (sym (ap (drain_on p iface src pool max_frame) e'))
              (inr (omega (arith, ge), refl, refl, refl, refl))
      ]
