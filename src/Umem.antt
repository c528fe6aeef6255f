-- ===== src/Umem.antt =====
-- The way of the frames between the pool and the kernel in xdp_interface.c: pool_init,
-- ne_frame_alloc_batch, ne_pool_free_count, drain_cq_queue, refill_fq_queue, prefill_queue and
-- prefill_per_queue. The fill ring is a `Producer` of addresses; the completion ring is the list of
-- the addresses that a call can see.
pub mod Completed
pub mod Refilled
pub mod Received
use ne.Tx.{Producer}
use ne.Base.{
  drop, ℕ, zero, suc, ◌+◌, ◌-◌, ◌*◌, ◌/◌, ◌%◌, ◌^◌, ◌≤◌, ◌<◌, min, bit_and, bit_or, bit_xor, ◌≡◌,
  refl, sym, ap, ap₂, ◌∙◌, ◌≢◌, ◌↔◌, ◌⊎◌, inl, inr, Bool, true, false, not, ◌&&◌, ◌||◌, Option,
  none, some, List, [], ◌∷◌, ◌++◌, arith, ltb, leb, ◌==◌, if◌then◌else◌, ==_iff, Bool-cases,
  Option-cases, length, u8, u16, u32, u64, sub32, sub64, shr, low_bits, be16, be32, Mem, IsBytes,
  inside, poke, copy, put, slice, Agree,
}
use ne.Packet.{Pool, pool_push, pool_pop, first_of}

-- pool_init: `memory` is whether the allocation and the lock succeed.
unfoldable pub pool_init : Bool → ℕ → Option Pool
pool_init memory cap =
    if cap == 0 || not (bit_and cap (cap - 1) == 0)
    then none
    else if memory
    then some (record { buf = λ i. 0; cap = cap; mask = cap - 1; head = 0; tail = 0 })
    else none

-- ne_frame_alloc_batch
unfoldable pub frame_alloc_batch : Pool → ℕ → Pool × List ℕ
frame_alloc_batch pool max_n = if max_n == 0 then (pool, []) else pool_pop pool max_n

-- ne_pool_free_count
unfoldable pub pool_free_count : Pool → ℕ
pool_free_count pool = sub32 pool.head pool.tail

-- NE_BATCH_SIZE, NE_FQ_PREFILL
abbrev pub batch_size : ℕ
batch_size = 64

abbrev pub fq_prefill : ℕ
fq_prefill = 16384

-- A completion ring: the addresses that were not peeked yet, and how many were released.
pub record Completions : Type 0 where
  pub waiting : List ℕ
  pub released : ℕ

-- drain_cq_queue, with fuel for the rounds of its loop. A peek takes its batch off what later peeks
-- see, whether it is released or not.
unfoldable pub drain_cq_queue : ℕ → Completions → Pool → Completions × Pool
drain_cq_queue zero cq pool = (cq, pool)
drain_cq_queue (suc fuel) cq pool =
    let addrs = first_of batch_size cq.waiting in
    let (pool', pushed) = pool_push pool addrs in
    let cq' : Completions = record {
      waiting = drop (length addrs) cq.waiting;
      released = u32 (cq.released + pushed);
    } in
    let rest = drain_cq_queue fuel cq' pool' in
    if length addrs == 0
    then (cq, pool)
    else if ltb pushed (length addrs) || ltb (length addrs) batch_size
    then (cq', pool')
    else rest

-- What a refill changes: the fill ring and the pool.
pub record Filling (F : Type 0) : Type 0 where
  pub fq : F
  pub pool : Pool

module _ {F : Type 0} (p : Producer F ℕ) where
  -- The addresses from the pool go to the fill ring, or back when it does not grant the places.
  unfoldable pub hand_over : Filling F → List ℕ → Filling F × Bool
  hand_over f addrs =
      let (fq', granted) = p.reserve f.fq (length addrs) in
      let back : Filling F = record { fq = fq'; pool = (pool_push f.pool addrs).0 } in
      let out : Filling F = record f { fq = p.submit fq' addrs } in
      if granted == length addrs then (out, true) else (back, false)

  -- refill_fq_queue
  unfoldable pub refill_fq_queue : Filling F → Filling F
  refill_fq_queue f =
      let (fq', free_slots) = p.nb_free f.fq batch_size in
      let asked : Filling F = record f { fq = fq' } in
      let want = if ltb batch_size free_slots then batch_size else free_slots in
      let (pool', addrs) = pool_pop f.pool want in
      let taken : Filling F = record asked { pool = pool' } in
      if free_slots == 0 || length addrs == 0 then asked else (hand_over taken addrs).0

  -- prefill_queue, with fuel for the rounds of its loop
  unfoldable pub prefill_queue : ℕ → Filling F → ℕ → Filling F
  prefill_queue zero f want = f
  prefill_queue (suc fuel) f want =
      let n = if ltb batch_size want then batch_size else want in
      let (pool', addrs) = pool_pop f.pool n in
      let (f', out) = hand_over (record f { pool = pool' }) addrs in
      let rest = prefill_queue fuel f' (want - length addrs) in
      if want == 0 || length addrs == 0 then f else if out then rest else f'

-- prefill_per_queue; a negative total is 0.
unfoldable pub prefill_per_queue : ℕ → ℕ → ℕ
prefill_per_queue n_frames queue_total =
    let budget = n_frames * 3 / 4 in
    let share = budget / queue_total in
    let most = if ltb fq_prefill share then fq_prefill else share in
    let least = if ltb most batch_size then batch_size else most in
    if queue_total == 0 then batch_size else least
