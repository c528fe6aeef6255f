-- ===== src/Tx.antt =====
-- The transmit path of xdp_interface.c: tx_drain_queue, tx_drain_iface_ring,
-- tx_drain_iface_all_rings, ne_tx_drain_local_all and ne_tx_drain_wan_all. The producer side of
-- libxdp's rings is a parameter, the record `Producer` of the calls that the code makes; `IsProducer`
-- says what they are for.
pub mod Whole
pub mod Send
pub mod Slot
use ne.Rx.{Desc, queue_for_tx_slot}
use ne.Ring.{Ring, ring_pop, ring_count, store}
use ne.Packet.{Packet, Pool, pool_push, max_segs, jumbo_frame_max}
use ne.Base.{
  ℕ, zero, suc, ◌+◌, ◌-◌, ◌*◌, ◌/◌, ◌%◌, ◌^◌, ◌≤◌, ◌<◌, min, bit_and, bit_or, bit_xor, ◌≡◌, refl,
  sym, ap, ap₂, ◌∙◌, ◌≢◌, ◌↔◌, ◌⊎◌, inl, inr, Bool, true, false, not, ◌&&◌, ◌||◌, Option, none,
  some, List, [], ◌∷◌, ◌++◌, arith, ltb, leb, ◌==◌, if◌then◌else◌, ==_iff, Bool-cases, Option-cases,
  length, u8, u16, u32, u64, sub32, sub64, shr, low_bits, be16, be32, Mem, IsBytes, inside, poke,
  copy, put, slice, Agree,
}

-- xsk_prod_nb_free, with the number of places; xsk_ring_prod__reserve, with the number reserved;
-- the stores to the reserved places and xsk_ring_prod__submit. `Q` is the ring, `E` an element.
pub record Producer (Q E : Type 0) : Type 0 where
  pub nb_free : Q → ℕ → Q × ℕ
  pub reserve : Q → ℕ → Q × ℕ
  pub submit : Q → List E → Q

-- `handed` is what the ring has been given; a reservation of no more than the places that were
-- free is granted.
pub record IsProducer {Q E : Type 0} (p : Producer Q E) (handed : Q → List E) : Type 0 where
  pub nb_free_keeps : (q : Q) (n : ℕ) → handed (p.nb_free q n).0 ≡ handed q
  pub reserve_keeps : (q : Q) (n : ℕ) → handed (p.reserve q n).0 ≡ handed q
  pub submit_appends : (q : Q) (es : List E) → handed (p.submit q es) ≡ handed q ++ es
  pub reserve_grants :
      (q : Q) (m n : ℕ) → n ≤ (p.nb_free q m).1 → (p.reserve (p.nb_free q m).0 n).1 ≡ n

-- NE_XSK_COPY_TX_BATCH, NE_TX_SLOTS
abbrev pub tx_batch : ℕ
tx_batch = 32

abbrev pub tx_slots : ℕ
tx_slots = 4

-- A count of no segments is one.
abbrev pub seg_count : Packet → ℕ
seg_count job = if job.nsegs == 0 then 1 else job.nsegs

-- The descriptors of the segments from `i` on.
unfoldable pub tx_descs : ℕ → Packet → ℕ → ℕ → List Desc
tx_descs max_frame job zero i = []
tx_descs max_frame job (suc left) i =
    let whole = if seg_count job == 1 && job.seg_len i == 0 then job.len else job.seg_len i in
    (record {
      addr = job.seg_addr i;
      len = if ltb max_frame whole then max_frame else whole;
      continued = ltb (i + 1) (seg_count job);
    })
    ∷ tx_descs max_frame job left (i + 1)

-- The addresses of the segments from `i` on.
unfoldable pub seg_addrs : Packet → ℕ → ℕ → List ℕ
seg_addrs job zero i = []
seg_addrs job (suc left) i = job.seg_addr i ∷ seg_addrs job left (i + 1)

-- What the loop changes: the ring of packets, libxdp's ring, the pool.
pub record Sending (Q : Type 0) : Type 0 where
  pub ring : Ring Packet
  pub tx : Q
  pub pool : Pool

module _ {Q : Type 0} (p : Producer Q Desc) where
  -- A packet that was popped goes out, or back to the pool.
  unfoldable pub send_job : ℕ → Sending Q → Packet → Sending Q × Bool
  send_job max_frame s job =
      let nsegs = seg_count job in
      let (tx', granted) = p.reserve s.tx nsegs in
      let kept = if ltb nsegs max_segs then nsegs else max_segs in
      let back : Sending Q = record s { pool = (pool_push s.pool (seg_addrs job kept 0)).0 } in
      let refused : Sending Q = record back { tx = tx' } in
      let out : Sending Q = record s { tx = p.submit tx' (tx_descs max_frame job nsegs 0) } in
      if ltb max_segs nsegs || ltb jumbo_frame_max job.len
      then (back, false)
      else if granted == nsegs
      then (out, true)
      else (refused, false)

  -- The loop with `left` of its packets to go, and how many it sends.
  unfoldable pub drain_loop : ℕ → ℕ → Sending Q → Sending Q × ℕ
  drain_loop zero max_frame s = (s, 0)
  drain_loop (suc left) max_frame s =
      let (tx', room) = p.nb_free s.tx max_segs in
      let asked : Sending Q = record s { tx = tx' } in
      if ring_count s.ring == 0
      then (s, 0)
      else if ltb room max_segs
      then (asked, 0)
      else elim (ring_pop s.ring) [
        | none ↦ (asked, 0)
        | some (ring', job) ↦
            let (s', went) = send_job max_frame (record asked { ring = ring' }) job in
            elim went [
              | true ↦ let (s'', n) = drain_loop left max_frame s' in (s'', n + 1)
              | false ↦ (s', 0)
            ]
      ]

  -- tx_drain_queue, with the counter of rounds that found packets and no room
  unfoldable pub tx_drain_queue : ℕ → Sending Q → ℕ → Sending Q × ℕ × ℕ
  tx_drain_queue max_frame s tx_no_free =
      let (s', sent) = drain_loop tx_batch max_frame s in
      (
        s',
        sent,
        if sent == 0 && not (ring_count s'.ring == 0) then u64 (tx_no_free + 1) else tx_no_free,
      )

-- The part of struct ne_iface that sending uses.
pub record Iface (Q : Type 0) : Type 0 where
  pub queue_count : ℕ
  pub queues : ℕ → Q
  pub tx_no_free : ℕ

-- The first queue of the slot, from `q` on.
unfoldable pub primary_loop : ℕ → ℕ → ℕ → ℕ → Option ℕ
primary_loop zero q tx_slot nq = none
primary_loop (suc left) q tx_slot nq =
    let rest = primary_loop left (q + 1) tx_slot nq in
    if queue_for_tx_slot q tx_slot nq then some q else rest

-- What the loop over the rings changes, and how many packets it has sent. A null pointer is none.
pub record Draining (Q : Type 0) : Type 0 where
  pub iface : Iface Q
  pub srcs : ℕ → Option (Ring Packet)
  pub pool : Pool
  pub sent : ℕ

module _ {Q : Type 0} (p : Producer Q Desc) where
  -- tx_drain_iface_ring, with the queue that it has found
  unfoldable pub drain_on :
      Iface Q → Ring Packet → Pool → ℕ → Option ℕ → Iface Q × Ring Packet × Pool × ℕ
  drain_on iface src pool max_frame none = (iface, src, pool, 0)
  drain_on iface src pool max_frame (some primary) =
      let s : Sending Q = record { ring = src; tx = iface.queues primary; pool = pool } in
      let (s', sent, no_free) = tx_drain_queue p max_frame s iface.tx_no_free in
      (
        record iface { queues = store iface.queues primary s'.tx; tx_no_free = no_free },
        s'.ring,
        s'.pool,
        sent,
      )

  unfoldable pub tx_drain_iface_ring :
      Iface Q → Ring Packet → Pool → ℕ → ℕ → Iface Q × Ring Packet × Pool × ℕ
  tx_drain_iface_ring iface src pool max_frame tx_slot =
      drain_on iface src pool max_frame (primary_loop iface.queue_count 0 tx_slot iface.queue_count)

  -- The loop of tx_drain_iface_all_rings from round `i` on.
  unfoldable pub all_rings_loop : ℕ → ℕ → ℕ → ℕ → ℕ → ℕ → Draining Q → Draining Q
  all_rings_loop zero i start src_count max_frame tx_slot d = d
  all_rings_loop (suc left) i start src_count max_frame tx_slot d =
      let s = (start + i) % src_count in
      elim (d.srcs s) [
        | none ↦ all_rings_loop left (i + 1) start src_count max_frame tx_slot d
        | some src ↦
            let (iface', src', pool', n) =
              tx_drain_iface_ring d.iface src d.pool max_frame tx_slot in
            all_rings_loop left (i + 1) start src_count max_frame tx_slot (record {
              iface = iface';
              srcs = store d.srcs s (some src');
              pool = pool';
              sent = d.sent + n;
            })
      ]

  -- tx_drain_iface_all_rings, with the thread's counter of rounds
  unfoldable pub tx_drain_iface_all_rings : ℕ → ℕ → ℕ → ℕ → Draining Q → Draining Q × ℕ
  tx_drain_iface_all_rings rr src_count max_frame tx_slot d =
      let start = rr % src_count in
      let d' =
        all_rings_loop src_count 0 start src_count max_frame tx_slot (record d { sent = 0 }) in
      if src_count == 0
      then (record d { sent = 0 }, rr)
      else (d', if ltb 0 d'.sent then u32 (rr + 1) else rr)

-- The interfaces of one side, LAN or WAN, of struct ne_pair.
pub record Port (Q : Type 0) : Type 0 where
  pub count : ℕ
  pub live : ℕ → Bool
  pub ifaces : ℕ → Iface Q

-- ne_pair_local_live and ne_pair_wan_live
unfoldable pub pair_live : {Q : Type 0} → Port Q → ℕ → Bool
pair_live port idx = ltb idx port.count && port.live idx

-- ne_tx_drain_local_all and ne_tx_drain_wan_all: the interface is written back.
unfoldable pub tx_drain_all :
    {Q : Type 0}
    → Producer Q Desc
    → Port Q
    → (ℕ → Option (Ring Packet))
    → ℕ
    → Pool
    → ℕ
    → ℕ
    → ℕ
    → ℕ
    → Port Q × (ℕ → Option (Ring Packet)) × Pool × ℕ × ℕ
tx_drain_all p port srcs src_count pool frame_size rr idx tx_slot =
    let (d, rr') =
      tx_drain_iface_all_rings p rr src_count frame_size tx_slot
        (record { iface = port.ifaces idx; srcs = srcs; pool = pool; sent = 0 }) in
    if not (ltb idx port.count) || not (port.live idx) || leb tx_slots tx_slot
    then (port, srcs, pool, 0, rr)
    else (record port { ifaces = store port.ifaces idx d.iface }, d.srcs, d.pool, d.sent, rr')
