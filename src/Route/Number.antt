-- ===== src/Route/Number.antt =====
-- The sequence numbers of UDP flows: dp_next_udp_tx_seq (dp_udp_next_tx_seq) of crypto_route.c.
use ne.Base.{
  ℕ, zero, suc, ◌+◌, ◌-◌, bit_and, Bool, true, false, not, ◌&&◌, ◌||◌, Option, none, some, ltb,
  ◌==◌, if◌then◌else◌, u32, Mem,
}
use ne.Flow.{RouteKey, key_hash, key_equal, key_parse_direction, ipproto_udp, ipproto_icmp}
use ne.Route.{route_ways, fallback_sets, Entry, Fallback, State, find_way, set_of, put_entry}
use ne.Route.Assign.{flow_route_get}

-- The number of a direction is fetched, and one is added to it.
abbrev pub bump_seq : Entry → ℕ → Entry
bump_seq e d = record e {
  udp_tx_seq = λ j. if j == d then u32 (e.udp_tx_seq j + 1) else e.udp_tx_seq j;
}

abbrev pub fetch_seq : State → RouteKey → ℕ → ℕ → State × ℕ
fetch_seq st key d way =
    let e = st.table (set_of key) way in
    (put_entry st (set_of key) way (bump_seq e d), u32 (e.udp_tx_seq d))

-- The scan of the fallback set: the way with the key, or else the victim.
unfoldable pub fallback_scan : ℕ → ℕ → (ℕ → Fallback) → RouteKey → ℕ → Bool × ℕ
unfolding key_equal
fallback_scan zero way set key victim = (false, victim)
fallback_scan (suc left) way set key victim =
    let free = fallback_scan left (way + 1) set key way in
    let kept = fallback_scan left (way + 1) set key victim in
    if (set way).valid && key_equal (set way).key key
    then (true, way)
    else if not (set way).valid || ltb (set way).stamp (set victim).stamp
    then free
    else kept

abbrev pub put_fallback : State → ℕ → ℕ → Fallback → State
put_fallback st i way f = record st {
  fallback = λ j w. if j == i && w == way then f else st.fallback j w;
  seq_stamp = u32 (st.seq_stamp + 1);
}

-- The worker's own counter for a flow whose set is full.
unfoldable pub fallback_seq : State → RouteKey → ℕ → State × ℕ
unfolding key_hash fallback_scan
fallback_seq st key d =
    let i = bit_and (key_hash key) (fallback_sets - 1) in
    let (found, way) = fallback_scan 4 0 (st.fallback i) key 0 in
    let f = st.fallback i way in
    let again : Fallback = record f {
      next_seq = λ j. if j == d then u32 (f.next_seq j + 1) else f.next_seq j;
      stamp = u32 (st.seq_stamp + 1);
    } in
    let fresh : Fallback = record {
      key = key;
      next_seq = λ j. if j == d then 1 else 0;
      stamp = u32 (st.seq_stamp + 1);
      valid = true;
    } in
    if found then (put_fallback st i way again, f.next_seq d) else (put_fallback st i way fresh, 0)

-- dp_next_udp_tx_seq
unfoldable pub next_udp_tx_seq : State → Mem → ℕ → State × Option ℕ
unfolding key_parse_direction find_way flow_route_get fallback_seq key_hash
next_udp_tx_seq st pkt len = elim (key_parse_direction pkt len) [
  | none ↦ (st, none)
  | some (key, d) ↦
      if not (key.protocol == ipproto_udp) && not (key.protocol == ipproto_icmp)
      then (st, none)
      else elim (find_way route_ways 0 (st.table (set_of key)) key) [
        | some way ↦ let (st', n) = fetch_seq st key d way in (st', some n)
        | none ↦
            let (routed, route) = flow_route_get st pkt len st.worker in
            elim (find_way route_ways 0 (routed.table (set_of key)) key) [
              | some way ↦ let (st', n) = fetch_seq routed key d way in (st', some n)
              | none ↦ let (st', n) = fallback_seq routed key d in (st', some n)
            ]
      ]
]
