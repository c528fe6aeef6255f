-- ===== src/Forwarder/Burst.antt =====
-- The bursts of a transmit thread on one interface, and the ring that they empty.
use ne.Tx.Whole.{
  AllSendable, AllSendable-left, AllSendable-right, all_descs, frames_of, frames_of-all_descs,
  wholes,
}
use ne.Base.{
  ℕ, zero, suc, ◌+◌, ◌%◌, ◌<◌, min, ◌≡◌, refl, sym, ap, ◌∙◌, inl, inr, Bool, true, false, not, ◌||◌,
  List, [], ◌∷◌, ◌++◌, arith, ltb, leb, ◌==◌, Bool-cases, length, length-append,
}
use mathlib.Core.Path.{subst}
use mathlib.Core.List.{append_assoc, append-nil}
use ne.Ring.Fifo.{IsRing, contents}
use ne.Tx.Slot.{tx_drain_iface_ring_lem, queue_count-drain}
use ne.Rx.{Desc}
use ne.Ring.{Ring, store}
use ne.Packet.{Packet, Pool}
use ne.Forwarder.{Bursting, burst_once, burst_loop, dp_burst_tx, collect_worker_rings, tx_burst_max}
use ne.Tx.{
  Port, Producer, IsProducer, Iface, tx_slots, tx_drain_iface_ring, tx_drain_all,
  tx_drain_iface_all_rings, all_rings_loop, pair_live, tx_descs, seg_count,
}

one_ring : (rr : ℕ) → (rr % 1 + 0) % 1 ≡ 0
one_ring rr = omega arith

module _ {Q : Type 0} (p : Producer Q Desc) (handed : Q → List Desc) (lib : IsProducer p handed)
    (frame_size idx tx_slot : ℕ) where
  -- What the drain of the interface's ring answers.
  abbrev drained : Bursting Q → Iface Q × Ring Packet × Pool × ℕ
  drained b = tx_drain_iface_ring p (b.port.ifaces idx) b.ring b.pool frame_size tx_slot

  abbrev passed : Port Q → Bool
  passed port = not (ltb idx port.count) || not (port.live idx) || leb tx_slots tx_slot

  record Round (b : Bursting Q) : Type 0 where
    port :
        (burst_once p frame_size idx tx_slot b).0.port
        ≡ record b.port { ifaces = store b.port.ifaces idx (drained b).0 }
    ring : (burst_once p frame_size idx tx_slot b).0.ring ≡ (drained b).1
    pool : (burst_once p frame_size idx tx_slot b).0.pool ≡ (drained b).2
    total : (burst_once p frame_size idx tx_slot b).0.total ≡ b.total + (drained b).3
    sent : (burst_once p frame_size idx tx_slot b).1 ≡ (drained b).3

  burst_once-Round : (b : Bursting Q) → passed b.port ≡ false → Round b
  unfolding burst_once tx_drain_all tx_drain_iface_all_rings all_rings_loop
  burst_once-Round b e = record {
    port = rw e refl;
    ring = rw (e, one_ring b.rr) refl;
    pool = rw e refl;
    total = rw e (omega arith);
    sent = rw e (omega arith);
  }

  -- What some bursts have done: the first packets of the ring went out on the slot's queue in their
  -- order, and the frames that the card sees are the packets with all their segments.
  pub record Bursted (k : ℕ) (b b' : Bursting Q) : Type 0 where
    pub sent : List Packet
    pub split : contents k b.ring ≡ sent ++ contents k b'.ring
    pub many : b'.total ≡ b.total + length sent
    pub out :
        handed ((b'.port.ifaces idx).queues tx_slot)
        ≡ handed ((b.port.ifaces idx).queues tx_slot) ++ all_descs frame_size sent
    pub framed : frames_of (all_descs frame_size sent) ≡ wholes sent
    pub sendable : AllSendable frame_size sent
    pub pool : b'.pool ≡ b.pool
    pub ring : IsRing k b'.ring
    pub kept : passed b'.port ≡ passed b.port
    pub queue_count : (b'.port.ifaces idx).queue_count ≡ (b.port.ifaces idx).queue_count

  all_descs-append :
      (xs ys : List Packet)
      → all_descs frame_size (xs ++ ys) ≡ all_descs frame_size xs ++ all_descs frame_size ys
  all_descs-append [] ys = refl
  all_descs-append (x ∷ xs) ys =
      ap (λ l. tx_descs frame_size x (seg_count x) 0 ++ l) (all_descs-append xs ys)
      ∙ sym (
          append_assoc (tx_descs frame_size x (seg_count x) 0) (all_descs frame_size xs)
            (all_descs frame_size ys))

  AllSendable-both :
      (xs ys : List Packet)
      → AllSendable frame_size xs
      → AllSendable frame_size ys
      → AllSendable frame_size (xs ++ ys)
  AllSendable-both [] ys h k = k
  AllSendable-both (x ∷ xs) ys h k = (h.0, AllSendable-both xs ys h.1 k)

  Bursted-trans : (k : ℕ) (a b c : Bursting Q) → Bursted k a b → Bursted k b c → Bursted k a c
  Bursted-trans k a b c x y = record {
    sent = x.sent ++ y.sent;
    split =
        x.split
        ∙ ap (λ l. x.sent ++ l) y.split
        ∙ sym (append_assoc x.sent y.sent (contents k c.ring));
    many = omega (arith, x.many, y.many, length-append x.sent y.sent);
    out =
        y.out
        ∙ ap (λ l. l ++ all_descs frame_size y.sent) x.out
        ∙ append_assoc (handed ((a.port.ifaces idx).queues tx_slot)) (all_descs frame_size x.sent)
            (all_descs frame_size y.sent)
        ∙ ap (λ l. handed ((a.port.ifaces idx).queues tx_slot) ++ l)
            (sym (all_descs-append x.sent y.sent));
    framed =
        frames_of-all_descs frame_size (x.sent ++ y.sent)
          (AllSendable-both x.sent y.sent x.sendable y.sendable);
    sendable = AllSendable-both x.sent y.sent x.sendable y.sendable;
    pool = y.pool ∙ x.pool;
    ring = y.ring;
    kept = y.kept ∙ x.kept;
    queue_count = y.queue_count ∙ x.queue_count;
  }

  burst_once-Bursted :
      (k : ℕ) (b : Bursting Q)
      → IsRing k b.ring
      → AllSendable frame_size (contents k b.ring)
      → passed b.port ≡ false
      → tx_slot < min (b.port.ifaces idx).queue_count tx_slots
      → Bursted k b (burst_once p frame_size idx tx_slot b).0
  burst_once-Bursted k b h ok e lt =
      let o = burst_once-Round b e in
      elim (tx_drain_iface_ring_lem p handed lib k frame_size tx_slot (b.port.ifaces idx) b.ring
        b.pool h ok) [
          | inl (below, s, others) ↦
              let t = drained b in
              let here : store b.port.ifaces idx t.0 idx ≡ t.0 = ground arith in
              record {
                sent = s.sent;
                split = s.split ∙ ap (λ r. s.sent ++ contents k r) (sym o.ring);
                many = omega (arith, o.total, s.many);
                out =
                    ap (λ q. handed ((q.ifaces idx).queues tx_slot)) o.port
                    ∙ ap (λ i. handed (i.queues tx_slot)) here
                    ∙ s.out;
                framed = s.framed;
                sendable =
                    AllSendable-left frame_size s.sent _
                      (subst (AllSendable frame_size) s.split ok);
                pool = o.pool ∙ s.pool;
                ring = subst (λ r. IsRing k r) (sym o.ring) s.ring;
                kept = ap passed o.port;
                queue_count =
                    ap (λ q. (q.ifaces idx).queue_count) o.port
                    ∙ ap (λ i. i.queue_count) here
                    ∙ queue_count-drain p (b.port.ifaces idx) b.ring b.pool frame_size tx_slot;
              }
          | inr (above, _, _, _, _) ↦ absurd (omega arith)
        ]

  burst_loop-Bursted :
      (k left : ℕ) (b : Bursting Q)
      → IsRing k b.ring
      → AllSendable frame_size (contents k b.ring)
      → passed b.port ≡ false
      → tx_slot < min (b.port.ifaces idx).queue_count tx_slots
      → Bursted k b (burst_loop p frame_size idx tx_slot left b)
  unfolding burst_loop
  burst_loop-Bursted k zero b h ok e lt = record {
    sent = [];
    split = refl;
    many = omega arith;
    out = sym (append-nil (handed ((b.port.ifaces idx).queues tx_slot)));
    framed = refl;
    sendable = ground arith;
    pool = refl;
    ring = h;
    kept = refl;
    queue_count = refl;
  }
  burst_loop-Bursted k (suc left) b h ok e lt =
      let b' = (burst_once p frame_size idx tx_slot b).0 in
      let once = burst_once-Bursted k b h ok e lt in
      elim (Bool-cases ((burst_once p frame_size idx tx_slot b).1 == 0)) [
        | inl none_sent ↦ rw none_sent once
        | inr some_sent ↦
            let rest =
              burst_loop-Bursted k left b' once.ring
                (AllSendable-right frame_size once.sent (contents k b'.ring)
                  (subst (AllSendable frame_size) once.split ok))
                (once.kept ∙ e) (omega (arith, once.queue_count, lt)) in
            rw some_sent
              (Bursted-trans k b b' (burst_loop p frame_size idx tx_slot left b') once rest)
      ]

  -- The bursts of a transmit slot on a live interface that has a queue for it: the first packets of
  -- the slot's ring, as many as the answer says, are handed to that queue in their order and so that
  -- the card sees each packet as one frame with the addresses and lengths of all its segments, and the
  -- other packets and the pool stay as they were. (With libxdp's ring as documented, a valid ring, and
  -- packets of at most four segments and 9216 bytes, of which no segment is longer than a frame.)
  pub dp_burst_tx_lem :
      (k rr : ℕ) (port : Port Q) (per_worker : ℕ → Ring Packet) (pool : Pool)
      → IsRing k (per_worker tx_slot)
      → AllSendable frame_size (contents k (per_worker tx_slot))
      → pair_live port idx ≡ true
      → tx_slot < min (port.ifaces idx).queue_count tx_slots
      → Bursted k
          (record { port = port; ring = per_worker tx_slot; pool = pool; rr = rr; total = 0 })
          (dp_burst_tx p frame_size idx tx_slot port per_worker pool rr)
  unfolding dp_burst_tx pair_live collect_worker_rings
  dp_burst_tx_lem k rr port per_worker pool h ok live lt =
      let start : Bursting Q = record {
        port = port;
        ring = per_worker tx_slot;
        pool = pool;
        rr = rr;
        total = 0;
      } in
      let e : passed port ≡ false = ground (arith, live, lt) in
      let f : leb tx_slots tx_slot ≡ false = ground (arith, lt) in
      rw (live, f) (burst_loop-Bursted k tx_burst_max start h ok e lt)
