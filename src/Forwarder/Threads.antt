-- ===== src/Forwarder/Threads.antt =====
-- forwarder_run, forwarder_join_started and forwarder_stop of src/core/forwarder/forwarder.c: which
-- threads are created, and which are waited for. Whether pthread_create succeeds for a thread is a
-- parameter. What the threads do meanwhile is left out, as is the flag threads_started, which nothing
-- reads.
use ne.Forwarder.{active_tx_slots, crypto_workers}
use ne.Tx.{Port, tx_slots}
use ne.Rx.{rx_slots_for_queues}
use ne.Cpu.{cpu_map_validate, cpu_rx_lan_list, cpu_rx_wan_list}
use ne.Idle.{State, idle_wake_all}
use ne.Base.{
  ℕ, zero, suc, ◌+◌, Bool, true, false, not, Option, none, some, List, [], ◌∷◌, ◌++◌, if◌then◌else◌,
  length,
}
use ne.Route

-- The threads by their group and number.
pub data Thread : Type 0 where
  local_rx : ℕ → Thread
  tx : ℕ → Thread
  crypto : ℕ → Thread
  wan_rx : ℕ → Thread

-- `running`, and the state of idle.c
pub record Control : Type 0 where
  pub running : Bool
  pub idle : State

unfoldable pub forwarder_stop : Control → Control
forwarder_stop c = record c { running = false; idle = idle_wake_all c.idle }

-- How many threads of each group have been created.
pub record Started : Type 0 where
  pub local_rx_started : ℕ
  pub tx_started : ℕ
  pub crypto_started : ℕ
  pub wan_rx_started : ℕ

-- A loop that creates the threads of a group: how many there are, and whether it came to the end.
unfoldable pub start_loop : (ℕ → Bool) → ℕ → ℕ → ℕ × Bool
start_loop create zero w = (w, true)
start_loop create (suc left) w =
    let rest = start_loop create left (w + 1) in if create w then rest else (w, false)

-- A loop that joins the threads of a group.
unfoldable pub join_loop : (ℕ → Thread) → ℕ → ℕ → List Thread
join_loop thread zero w = []
join_loop thread (suc left) w = thread w ∷ join_loop thread left (w + 1)

-- The four loops of joins, for these numbers.
unfoldable pub joins : Started → List Thread
joins s =
    join_loop local_rx s.local_rx_started 0
    ++ join_loop tx s.tx_started 0
    ++ join_loop crypto s.crypto_started 0
    ++ join_loop wan_rx s.wan_rx_started 0

-- What forwarder_run has created and waited for when it returns.
pub record Run : Type 0 where
  pub started : Started
  pub joined : List Thread
  pub control : Control

unfoldable pub join_started : Control → Started → Run
join_started c s = record { started = s; joined = joins s; control = forwarder_stop c }

-- The end of forwarder_run, where all threads have been created.
unfoldable pub join_all : Control → Started → Run
join_all c s = record {
  started = s;
  joined = joins (record s { tx_started = tx_slots; crypto_started = crypto_workers });
  control = c;
}

-- The four loops that create threads, with the numbers of threads wanted.
unfoldable pub start_all : (Thread → Bool) → Control → ℕ → ℕ → ℕ → Run
start_all create c lan_rx_active active_tx_slots wan_rx_active =
    let none_started : Started = record {
      local_rx_started = 0;
      tx_started = 0;
      crypto_started = 0;
      wan_rx_started = 0;
    } in
    let (a, a_all) = start_loop (λ w. create (local_rx w)) lan_rx_active 0 in
    let (b, b_all) = start_loop (λ w. create (tx w)) active_tx_slots 0 in
    let (d, d_all) = start_loop (λ w. create (crypto w)) crypto_workers 0 in
    let (e, e_all) = start_loop (λ w. create (wan_rx w)) wan_rx_active 0 in
    let s1 : Started = record none_started { local_rx_started = a } in
    let s2 : Started = record s1 { tx_started = b } in
    let s3 : Started = record s2 { crypto_started = d } in
    let s4 : Started = record s3 { wan_rx_started = e } in
    if not a_all
    then join_started c s1
    else if not b_all
    then join_started c s2
    else if not d_all
    then join_started c s3
    else if not e_all
    then join_started c s4
    else join_all c s4

-- NE_RX_LAN_SLOTS, NE_RX_WAN_SLOTS
abbrev pub rx_lan_slots : ℕ
rx_lan_slots = length cpu_rx_lan_list

abbrev pub rx_wan_slots : ℕ
rx_wan_slots = length cpu_rx_wan_list

unfoldable pub forwarder_run :
    {Q : Type 0}
    → (Thread → Bool)
    → Option (ℕ → Bool)
    → Port Q
    → Port Q
    → ℕ
    → ℕ
    → Control
    → Route.State
    → Route.State × Option Run
forwarder_run create affinity lan wan local_queue_total wan_queue_total c route =
    let active = active_tx_slots lan wan in
    let run =
      start_all create c (rx_slots_for_queues local_queue_total rx_lan_slots) active
        (rx_slots_for_queues wan_queue_total rx_wan_slots) in
    if not c.running then (route, none) else elim (cpu_map_validate affinity) [
      | none ↦ (route, none)
      | some seen ↦ (Route.set_active_tx_slots route active, some run)
    ]
