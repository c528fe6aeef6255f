-- ===== src/Tests/Frames.antt =====
-- Instances for the transmit path and the way of the frames: libxdp's rings as lists with a room.
use ne.Base.{
  ℕ, ◌+◌, ◌-◌, ◌*◌, ◌^◌, ◌≡◌, refl, inr, false, List, [], ◌∷◌, ◌++◌, arith, leb, ◌==◌,
  if◌then◌else◌,
}
use ne.Ring.{ring_count, ring_pop, Ring}
use ne.Tx.{
  send_job, drain_loop, tx_descs, Producer, IsProducer, Iface, Sending, tx_drain_queue,
  tx_drain_iface_ring,
}
use ne.Tx.Slot.{Sends, tx_drain_iface_ring_lem}
use ne.Tx.Whole.{IsSendable, AllSendable}
use ne.Rx.{Desc}
use ne.Ring.Fifo.{IsRing, contents}
use mathlib.Core.List.{Perm}
use ne.Umem.Refilled.{held, refill_fq_queue_lem, prefill_queue_lem}
use ne.Umem.Completed.{Drained, drain_cq_queue_lem}
use ne.Umem.{Filling, refill_fq_queue, prefill_queue, Completions, drain_cq_queue}
use ne.Packet.Frames.{IsPool}
use ne.Packet.{Packet, Pool, no_packet}

pub record Given (E : Type 0) : Type 0 where
  pub room : ℕ
  pub given : List E

abbrev pub producer : (E : Type 0) → Producer (Given E) E
producer E = record {
  nb_free = λ q n. (q, q.room);
  reserve = λ q n. if leb n q.room then (record q { room = q.room - n }, n) else (q, 0);
  submit = λ q es. record q { given = q.given ++ es };
}

pub producer-IsProducer : (E : Type 0) → IsProducer (producer E) (λ q. q.given)
producer-IsProducer E = record {
  nb_free_keeps = λ q n. refl;
  reserve_keeps = λ q n. ground arith;
  submit_appends = λ q es. refl;
  reserve_grants = λ q m n h. ground (arith, h);
}

-- A packet of two segments, and one of one.
abbrev two_segs : Packet
two_segs = record no_packet { seg_addr = λ i. i + 100; seg_len = λ i. 4000; len = 8000; nsegs = 2 }

abbrev one_seg : Packet
one_seg = record no_packet { seg_addr = λ i. i + 200; seg_len = λ i. 60; len = 60; nsegs = 1 }

abbrev pub jobs : Ring Packet
jobs = record {
  buf = λ i. if i == 0 then two_segs else one_seg;
  cap = 2 ^ 2;
  mask = 2 ^ 2 - 1;
  head = 3;
  tail = 0;
  mpsc_pop = false;
}

pub jobs-IsRing : IsRing 2 jobs
jobs-IsRing = record {
  width = omega arith;
  cap = refl;
  mask = refl;
  head = omega arith;
  tail = omega arith;
  count = omega arith;
}

two_segs-IsSendable : IsSendable 4096 two_segs
two_segs-IsSendable = record {
  few = omega arith;
  short = omega arith;
  fits = λ i h. omega arith;
  single = λ h. absurd (omega (arith, h));
}

one_seg-IsSendable : IsSendable 4096 one_seg
one_seg-IsSendable = record {
  few = omega arith;
  short = omega arith;
  fits = λ i h. omega arith;
  single = λ h. inr refl;
}

pub jobs-AllSendable : AllSendable 4096 (contents 2 jobs)
jobs-AllSendable = (two_segs-IsSendable, (one_seg-IsSendable, (one_seg-IsSendable, tt)))

abbrev pub pool : Pool
pool = record { buf = λ i. i * 4096; cap = 2 ^ 3; mask = 2 ^ 3 - 1; head = 5; tail = 0 }

pool-IsPool : IsPool 3 pool
pool-IsPool = record {
  width = omega arith;
  cap = refl;
  mask = refl;
  head = omega arith;
  tail = omega arith;
  count = omega arith;
}

abbrev pub iface : Iface (Given Desc)
iface = record { queue_count = 2; queues = λ q. record { room = 10; given = [] }; tx_no_free = 0 }

tx_drain_iface_ring_lem_example :
    Sends
      (producer Desc)
      (λ q. q.given)
      (producer-IsProducer Desc)
      2
      4096
      1
      iface
      jobs
      pool
      (tx_drain_iface_ring (producer Desc) iface jobs pool 4096 1)
tx_drain_iface_ring_lem_example =
    tx_drain_iface_ring_lem (producer Desc) (λ q. q.given) (producer-IsProducer Desc) 2 4096 1 iface
      jobs pool jobs-IsRing jobs-AllSendable

abbrev sending : Sending (Given Desc)
sending = record { ring = jobs; tx = record { room = 6; given = [] }; pool = pool }

-- With room for six descriptors the first packet goes out, and then there is room for four more.
two_sent : (tx_drain_queue (producer Desc) 4096 sending 0).1 ≡ 2
unfolding tx_drain_queue drain_loop send_job ring_count ring_pop tx_descs
two_sent = refl

abbrev completions : Completions
completions = record { waiting = 100 ∷ 200 ∷ []; released = 7 }

drain_cq_queue_lem_example : Drained 3 completions pool (drain_cq_queue 3 completions pool)
drain_cq_queue_lem_example =
    drain_cq_queue_lem 3 3 completions pool pool-IsPool (omega arith) (omega arith) (omega arith)

abbrev filling : Filling (Given ℕ)
filling = record { fq = record { room = 3; given = [] }; pool = pool }

refill_fq_queue_lem_example :
    Perm
      (held
        (producer ℕ)
        (λ q. q.given)
        (producer-IsProducer ℕ)
        3
        (refill_fq_queue (producer ℕ) filling))
      (held (producer ℕ) (λ q. q.given) (producer-IsProducer ℕ) 3 filling)
    × IsPool 3 (refill_fq_queue (producer ℕ) filling).pool
refill_fq_queue_lem_example =
    refill_fq_queue_lem (producer ℕ) (λ q. q.given) (producer-IsProducer ℕ) 3 filling pool-IsPool

prefill_queue_lem_example :
    Perm
      (held
        (producer ℕ)
        (λ q. q.given)
        (producer-IsProducer ℕ)
        3
        (prefill_queue (producer ℕ) 9 filling 4))
      (held (producer ℕ) (λ q. q.given) (producer-IsProducer ℕ) 3 filling)
    × IsPool 3 (prefill_queue (producer ℕ) 9 filling 4).pool
    × (prefill_queue (producer ℕ) 9 filling 4 ≡ prefill_queue (producer ℕ) 5 filling 4)
prefill_queue_lem_example =
    prefill_queue_lem (producer ℕ) (λ q. q.given) (producer-IsProducer ℕ) 3 9 4 filling pool-IsPool
      (omega arith)
