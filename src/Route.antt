-- ===== src/Route.antt =====
-- The flow table of crypto_route.c: dp_active_tx_slots, dp_route_set_active_tx_slots,
-- dp_out_ring_bind, dp_crypto_worker_bind, dp_crypto_worker_idx_for_cpu, dp_route_least_loaded and
-- the searches of a set. An insertion holds the lock, and an entry does not change once it is valid,
-- so that a call is one step; the thread-locals are those of the worker that calls.
pub mod Assign
pub mod Number
pub mod Sticky
pub mod Balance
pub mod Seq
use ne.Base.{
  ℕ, zero, suc, ◌+◌, ◌-◌, ◌*◌, ◌%◌, ◌^◌, Bool, true, false, not, ◌&&◌, ◌||◌, Option, none, some,
  ltb, leb, ◌==◌, if◌then◌else◌, u8, u32, u64, bit_and, Mem,
}
use ne.Flow.{
  RouteKey, key_hash, key_equal, hash_to_n, key_parse, key_parse_direction, pkt_flow_hash,
  ipproto_udp, ipproto_icmp,
}
use ne.Eth

-- The sizes of the arrays of cpu_map.h.
abbrev pub crypto_workers : ℕ
crypto_workers = 6

abbrev pub tx_slots : ℕ
tx_slots = 4

abbrev pub route_set_count : ℕ
route_set_count = 8192

abbrev pub route_ways : ℕ
route_ways = 8

abbrev pub fallback_sets : ℕ
fallback_sets = 256

-- struct dp_route_entry
pub record Entry : Type 0 where
  pub key : RouteKey
  pub udp_tx_seq : ℕ → ℕ
  pub worker_idx : ℕ
  pub tx_slot : ℕ
  pub valid : Bool

-- struct dp_udp_seq_fallback
pub record Fallback : Type 0 where
  pub key : RouteKey
  pub next_seq : ℕ → ℕ
  pub stamp : ℕ
  pub valid : Bool

-- The globals, and the thread-locals of the calling worker.
pub record State : Type 0 where
  pub table : ℕ → ℕ → Entry
  pub worker_count : ℕ → ℕ
  pub tx_count : ℕ → ℕ
  pub worker_rr : ℕ
  pub tx_rr : ℕ
  pub active_tx : ℕ
  pub fallback : ℕ → ℕ → Fallback
  pub seq_stamp : ℕ
  pub worker : Option ℕ
  pub out_ring : ℕ

-- struct dp_flow_route
pub record FlowRoute : Type 0 where
  pub worker_idx : ℕ
  pub tx_slot : ℕ

unfoldable pub active_tx_slots : State → ℕ
active_tx_slots st = if ltb 0 st.active_tx && leb st.active_tx tx_slots then st.active_tx else 1

unfoldable pub set_active_tx_slots : State → ℕ → State
set_active_tx_slots st slots = record st {
  active_tx = if slots == 0 then 1 else if ltb tx_slots slots then tx_slots else slots;
}

-- A negative index is `none`.
unfoldable pub out_ring_bind : State → Option ℕ → State
unfolding active_tx_slots
out_ring_bind st none = record st { out_ring = 0 }
out_ring_bind st (some i) = record st { out_ring = if leb (active_tx_slots st) i then 0 else i }

unfoldable pub worker_bind : State → ℕ → State
unfolding active_tx_slots
worker_bind st w =
    let idx = if leb crypto_workers w then 0 else w in
    record st { worker = some idx; out_ring = idx % active_tx_slots st }

-- NE_CPU_CRYPTO holds the CPUs 3 to 8.
unfoldable pub cpu_crypto : ℕ → ℕ
cpu_crypto i = 3 + i

unfoldable pub cpu_loop : ℕ → ℕ → ℕ → Option ℕ
unfolding cpu_crypto
cpu_loop zero i cpu = none
cpu_loop (suc left) i cpu =
    let rest = cpu_loop left (i + 1) cpu in if cpu_crypto i == cpu then some i else rest

unfoldable pub worker_idx_for_cpu : ℕ → Option ℕ
unfolding cpu_loop
worker_idx_for_cpu cpu = cpu_loop crypto_workers 0 cpu

-- The search for the least count, at offset `off` with `left` to go.
unfoldable pub least_loop : ℕ → ℕ → (ℕ → ℕ) → ℕ → ℕ → ℕ → ℕ → ℕ
least_loop zero off counts count start best_count best = best
least_loop (suc left) off counts count start best_count best =
    let idx = u32 (start + off) % count in
    let better = least_loop left (off + 1) counts count start (counts idx) idx in
    let same = least_loop left (off + 1) counts count start best_count best in
    if ltb (counts idx) best_count then better else same

-- The fetched cursor is `start`; the caller adds one to it.
unfoldable pub least_loaded : (ℕ → ℕ) → ℕ → ℕ → ℕ
unfolding least_loop
least_loaded counts count start = least_loop count 0 counts count start (2 ^ 64 - 1) 0

-- The ways of a set: the valid one with the key, and the first that is not valid.
unfoldable pub find_way : ℕ → ℕ → (ℕ → Entry) → RouteKey → Option ℕ
unfolding key_equal
find_way zero way set key = none
find_way (suc left) way set key =
    let rest = find_way left (way + 1) set key in
    if (set way).valid && key_equal (set way).key key then some way else rest

unfoldable pub find_empty : ℕ → ℕ → (ℕ → Entry) → Option ℕ
find_empty zero way set = none
find_empty (suc left) way set =
    let rest = find_empty left (way + 1) set in if (set way).valid then rest else some way

abbrev pub set_of : RouteKey → ℕ
set_of key = bit_and (key_hash key) (route_set_count - 1)

abbrev pub put_entry : State → ℕ → ℕ → Entry → State
put_entry st i way e = record st { table = λ j w. if j == i && w == way then e else st.table j w }

abbrev pub route_of : Entry → FlowRoute
route_of e = record { worker_idx = e.worker_idx; tx_slot = e.tx_slot }

abbrev pub bump : (ℕ → ℕ) → ℕ → (ℕ → ℕ)
bump counts i j = if j == i then u64 (counts j + 1) else counts j
