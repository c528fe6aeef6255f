-- ===== src/Tx/Send.antt =====
-- The packets of a ring that a transmit thread sends.
use ne.Tx.Whole.{IsSendable, AllSendable, all_descs, frames_of, frames_of-job, whole, wholes}
use ne.Base.{
  ℕ, zero, suc, ◌+◌, ◌≤◌, ◌<◌, ◌≡◌, refl, sym, ap, ◌∙◌, ◌⊎◌, inl, inr, Bool, true, false, some,
  List, [], ◌∷◌, ◌++◌, arith, ltb, ◌==◌, length, nil_of_length,
}
use ne.Tx.{
  tx_drain_queue, tx_batch, send_job, drain_loop, Producer, IsProducer, tx_descs, seg_count,
  Sending,
}
use mathlib.Core.Path.{subst}
use ne.Ring.Next.{ring_count-length, ring_pop-next}
use ne.Ring.{Ring, ring_pop, ring_count}
use ne.Packet.{Packet, max_segs}
use native.Mathlib.Decide.{dec_lt}
use mathlib.Core.List.{append_assoc, append-nil}
use ne.Ring.Fifo.{IsRing, contents}
use ne.Rx.{Desc}

module _ {Q : Type 0} (p : Producer Q Desc) (handed : Q → List Desc)
    (lib : IsProducer p handed) where
  -- The first packets of the ring, `sent`, went out in their order, and the frames that the card sees
  -- are the packets with all their segments; the loop ended because of its bound, an empty ring, or
  -- no room.
  pub record Sent (k left max_frame : ℕ) (s s' : Sending Q) (n : ℕ) : Type 0 where
    pub sent : List Packet
    pub split : contents k s.ring ≡ sent ++ contents k s'.ring
    pub many : length sent ≡ n
    pub few : n ≤ left
    pub out : handed s'.tx ≡ handed s.tx ++ all_descs max_frame sent
    pub framed : frames_of (all_descs max_frame sent) ≡ wholes sent
    pub pool : s'.pool ≡ s.pool
    pub ring : IsRing k s'.ring
    pub ended :
        (n ≡ left)
        ⊎ (contents k s'.ring ≡ [])
        ⊎ ((q : Q) × (s'.tx ≡ (p.nb_free q max_segs).0) × ((p.nb_free q max_segs).1 < max_segs))

  send_job-sendable :
      (max_frame : ℕ) (s : Sending Q) (job : Packet)
      → IsSendable max_frame job
      → (p.reserve s.tx (seg_count job)).1 ≡ seg_count job
      → send_job p max_frame s job ≡ (
        record s {
          tx =
              p.submit
                (p.reserve s.tx (seg_count job)).0
                (tx_descs max_frame job (seg_count job) 0);
        },
        true,
      )
  unfolding send_job
  send_job-sendable max_frame s job ok granted = ground (arith, ok.few, ok.short, granted)

  none-Sent :
      (k left max_frame : ℕ) (s s' : Sending Q)
      → IsRing k s.ring
      → s'.ring ≡ s.ring
      → s'.pool ≡ s.pool
      → handed s'.tx ≡ handed s.tx
      → (0 ≡ left)
        ⊎ (contents k s'.ring ≡ [])
        ⊎ ((q : Q) × (s'.tx ≡ (p.nb_free q max_segs).0) × ((p.nb_free q max_segs).1 < max_segs))
      → Sent k left max_frame s s' 0
  none-Sent k left max_frame s s' h ring pool out ended = record {
    sent = [];
    split = ap (λ r. contents k r) (sym ring);
    many = refl;
    few = omega arith;
    out = out ∙ sym (append-nil (handed s.tx));
    framed = refl;
    pool = pool;
    ring = rw ring h;
    ended = ended;
  }

  one-Sent :
      (k left max_frame : ℕ) (s s1 s' : Sending Q) (job : Packet) (n : ℕ)
      → contents k s.ring ≡ job ∷ contents k s1.ring
      → s1.pool ≡ s.pool
      → handed s1.tx ≡ handed s.tx ++ tx_descs max_frame job (seg_count job) 0
      → IsSendable max_frame job
      → Sent k left max_frame s1 s' n
      → Sent k (suc left) max_frame s s' (n + 1)
  one-Sent k left max_frame s s1 s' job n next pool out ok rest = record {
    sent = job ∷ rest.sent;
    split = next ∙ ap (λ l. job ∷ l) rest.split;
    many = omega (arith, rest.many);
    few = omega (arith, rest.few);
    out =
        rest.out
        ∙ ap (λ l. l ++ all_descs max_frame rest.sent) out
        ∙ append_assoc (handed s.tx) (tx_descs max_frame job (seg_count job) 0)
            (all_descs max_frame rest.sent);
    framed =
        frames_of-job max_frame job (all_descs max_frame rest.sent) ok
        ∙ ap (λ fs. whole job ∷ fs) rest.framed;
    pool = rest.pool ∙ pool;
    ring = rest.ring;
    ended = elim rest.ended [ inl e ↦ inl (omega (arith, e)) | inr e ↦ inr e ];
  }

  drain-empty :
      (left max_frame : ℕ) (s : Sending Q)
      → ring_count s.ring ≡ 0
      → drain_loop p (suc left) max_frame s ≡ (s, 0)
  unfolding drain_loop
  drain-empty left max_frame s e = rw e refl

  drain-full :
      (left max_frame : ℕ) (s : Sending Q)
      → (ring_count s.ring == 0) ≡ false
      → ltb (p.nb_free s.tx max_segs).1 max_segs ≡ true
      → drain_loop p (suc left) max_frame s ≡ (record s { tx = (p.nb_free s.tx max_segs).0 }, 0)
  unfolding drain_loop
  drain-full left max_frame s e f = rw (e, f) refl

  drain-sent :
      (left max_frame : ℕ) (s : Sending Q) (r' : Ring Packet) (job : Packet)
      → (ring_count s.ring == 0) ≡ false
      → ltb (p.nb_free s.tx max_segs).1 max_segs ≡ false
      → ring_pop s.ring ≡ some (r', job)
      → let t =
          send_job p max_frame (record s { ring = r'; tx = (p.nb_free s.tx max_segs).0 }) job in
        t.1 ≡ true
        → drain_loop p (suc left) max_frame s
          ≡ ((drain_loop p left max_frame t.0).0, (drain_loop p left max_frame t.0).1 + 1)
  unfolding drain_loop
  drain-sent left max_frame s r' job e f g j = rw (e, f, g, j) refl

  drain_loop-Sent :
      (k left max_frame : ℕ) (s : Sending Q)
      → IsRing k s.ring
      → AllSendable max_frame (contents k s.ring)
      → Sent k left max_frame s (drain_loop p left max_frame s).0 (drain_loop p left max_frame s).1
  unfolding drain_loop
  drain_loop-Sent k zero max_frame s h ok = none-Sent k 0 max_frame s s h refl refl refl (inl refl)
  drain_loop-Sent k (suc left) max_frame s h ok =
      let counted = ring_count-length k s.ring h in
      let (tx', room) = p.nb_free s.tx max_segs in
      elim (dec_lt 0 (length (contents k s.ring))) [
        | no empty ↦
            let gone : contents k s.ring ≡ [] = nil_of_length (contents k s.ring) (omega arith) in
            rw (drain-empty left max_frame s (omega (arith, counted)))
              (none-Sent k (suc left) max_frame s s h refl refl refl (inr (inl gone)))
        | yes some_left ↦
            let e : (ring_count s.ring == 0) ≡ false = ground (arith, counted) in
            elim (dec_lt room max_segs) [
              | yes full ↦
                  let asked : Sending Q = record s { tx = tx' } in
                  let f : ltb room max_segs ≡ true = ground (arith, full) in
                  rw (drain-full left max_frame s e f) (
                    none-Sent k (suc left) max_frame s asked h refl refl
                      (lib.nb_free_keeps s.tx max_segs) (inr (inr (s.tx, refl, full))))
              | no free ↦
                  let (r', job, popped, next, h') = ring_pop-next k s.ring h some_left in
                  let ok' = subst (AllSendable max_frame) next ok in
                  let f : ltb room max_segs ≡ false = ground (arith, free) in
                  let s0 : Sending Q = record s { ring = r'; tx = tx' } in
                  let t = send_job-sendable max_frame s0 job ok'.0 (
                    lib.reserve_grants s.tx max_segs (seg_count job)
                      (omega (arith, ok'.0.few, free))) in
                  let s1 = (send_job p max_frame s0 job).0 in
                  let pool : s1.pool ≡ s.pool = ap (λ (x : Sending Q × Bool). x.0.pool) t in
                  let ring : s1.ring ≡ r' = ap (λ (x : Sending Q × Bool). x.0.ring) t in
                  let out = ap (λ (x : Sending Q × Bool). handed x.0.tx) t in
                  let descs = tx_descs max_frame job (seg_count job) 0 in
                  let kept =
                    lib.reserve_keeps tx' (seg_count job) ∙ lib.nb_free_keeps s.tx max_segs in
                  let out' =
                    out
                    ∙ lib.submit_appends (p.reserve tx' (seg_count job)).0 descs
                    ∙ ap (λ l. l ++ descs) kept in
                  let next' = next ∙ ap (λ r. job ∷ contents k r) (sym ring) in
                  let rest =
                    drain_loop-Sent k left max_frame s1 (subst (λ r. IsRing k r) (sym ring) h')
                      (subst (λ r. AllSendable max_frame (contents k r)) (sym ring) ok'.1) in
                  rw
                    (drain-sent left max_frame s r' job e f popped
                      (ap (λ (x : Sending Q × Bool). x.1) t))
                    (one-Sent k left max_frame s s1 (drain_loop p left max_frame s1).0 job
                      (drain_loop p left max_frame s1).1 next' pool out' ok'.0 rest)
            ]
      ]

  -- With libxdp's ring of descriptors as documented and a valid ring of packets of at most four
  -- segments and 9216 bytes, no segment longer than a frame, a round of sending takes the first packets
  -- of the ring, at most 32, hands them over in that order as whole frames, says how many, leaves the
  -- other packets and the pool as they were, and ends early only for an empty ring or for less room
  -- than four places.
  pub tx_drain_queue_lem :
      (k max_frame tx_no_free : ℕ) (s : Sending Q)
      → IsRing k s.ring
      → AllSendable max_frame (contents k s.ring)
      → Sent k tx_batch max_frame s
          (tx_drain_queue p max_frame s tx_no_free).0
          (tx_drain_queue p max_frame s tx_no_free).1
  unfolding tx_drain_queue
  tx_drain_queue_lem k max_frame tx_no_free s h ok = drain_loop-Sent k tx_batch max_frame s h ok
