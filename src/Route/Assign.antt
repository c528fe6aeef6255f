-- ===== src/Route/Assign.antt =====
-- The route of a flow, as crypto_route.c gives it out: dp_flow_route_get_key, dp_flow_route_get,
-- dp_pick_tx_slot, dp_crypto_pick_local_worker, dp_flow_pick_tx_slot and dp_crypto_pick_wan_worker.
use ne.Base.{ℕ, ◌+◌, true, not, Option, none, some, ltb, if◌then◌else◌, u8, u32, Mem}
use ne.Flow.{RouteKey, key_hash, hash_to_n, key_parse, pkt_flow_hash}
use ne.Route.{
  crypto_workers, route_ways, Entry, State, FlowRoute, active_tx_slots, worker_idx_for_cpu,
  least_loaded, find_way, find_empty, set_of, put_entry, route_of, bump,
}
use ne.Eth

-- The worker of a new flow: the hint, or the one with the fewest flows.
unfoldable pub choose_worker : State → Option ℕ → State × ℕ
unfolding least_loaded
choose_worker st hint =
    let stepped : State = record st { worker_rr = u32 (st.worker_rr + 1) } in
    let least = least_loaded st.worker_count crypto_workers st.worker_rr in
    elim hint [
      | none ↦ (stepped, least)
      | some w ↦ if ltb w crypto_workers then (st, w) else (stepped, least)
    ]

-- The insertion of a new flow in a free way.
unfoldable pub insert : State → RouteKey → Option ℕ → ℕ → State × FlowRoute
unfolding choose_worker least_loaded active_tx_slots key_hash
insert st key hint way =
    let (chosen, w) = choose_worker st hint in
    let slot = least_loaded st.tx_count (active_tx_slots st) st.tx_rr in
    let e : Entry = record {
      key = key;
      udp_tx_seq = λ d. 0;
      worker_idx = u8 w;
      tx_slot = u8 slot;
      valid = true;
    } in
    let counted = record chosen {
      tx_rr = u32 (st.tx_rr + 1);
      worker_count = bump st.worker_count w;
      tx_count = bump st.tx_count slot;
    } in
    (put_entry counted (set_of key) way e, record { worker_idx = w; tx_slot = slot })

-- dp_flow_route_get_key. Under the lock the ways are scanned again; with nothing between, the second
-- scan finds what the first found.
unfoldable pub get_key : State → RouteKey → Option ℕ → State × FlowRoute
unfolding key_hash hash_to_n active_tx_slots find_way find_empty insert
get_key st key hint =
    let set = st.table (set_of key) in
    let hashed : FlowRoute = record {
      worker_idx = hash_to_n (key_hash key) crypto_workers;
      tx_slot = hash_to_n (key_hash key) (active_tx_slots st);
    } in
    elim (find_way route_ways 0 set key) [
      | some way ↦ (st, route_of (set way))
      | none ↦ elim (find_empty route_ways 0 set) [
        | none ↦ (st, hashed)
        | some way ↦ insert st key hint way
      ]
    ]

-- dp_flow_route_get
unfoldable pub flow_route_get : State → Mem → ℕ → Option ℕ → State × FlowRoute
unfolding key_parse pkt_flow_hash hash_to_n active_tx_slots get_key
flow_route_get st pkt len hint =
    let hashed : FlowRoute = record {
      worker_idx = hash_to_n (pkt_flow_hash pkt len) crypto_workers;
      tx_slot = hash_to_n (pkt_flow_hash pkt len) (active_tx_slots st);
    } in
    elim (key_parse pkt len) [ none ↦ (st, hashed) | some key ↦ get_key st key hint ]

-- dp_pick_tx_slot
unfoldable pub pick_tx_slot : State → Mem → ℕ → ℕ
unfolding key_parse key_hash pkt_flow_hash hash_to_n active_tx_slots
pick_tx_slot st pkt len = elim (key_parse pkt len) [
  | none ↦ hash_to_n (pkt_flow_hash pkt len) (active_tx_slots st)
  | some key ↦ hash_to_n (key_hash key) (active_tx_slots st)
]

-- dp_crypto_pick_local_worker, with the TX slot beside the worker
unfoldable pub pick_local_worker : State → Mem → ℕ → State × FlowRoute
unfolding flow_route_get
pick_local_worker st pkt len = flow_route_get st pkt len none

-- dp_flow_pick_tx_slot
unfoldable pub flow_pick_tx_slot : State → Mem → ℕ → Option ℕ → State × ℕ
unfolding flow_route_get
flow_pick_tx_slot st pkt len hint =
    let (st', route) = flow_route_get st pkt len hint in (st', route.tx_slot)

-- dp_crypto_pick_wan_worker, with a configuration
unfoldable pub pick_wan_worker : Mem → ℕ → Option ℕ
unfolding Eth.has_marker Eth.read_worker_idx worker_idx_for_cpu
pick_wan_worker pkt len =
    if not (Eth.has_marker pkt len) then none else elim (Eth.read_worker_idx pkt len) [
      | none ↦ none
      | some wire_id ↦
          if ltb wire_id crypto_workers then some wire_id else worker_idx_for_cpu wire_id
    ]
