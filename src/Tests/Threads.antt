-- ===== src/Tests/Threads.antt =====
-- Instances for the threads: slots in use, bursts, the packets of a flow, the check of the CPUs, and
-- the receive calls.
use ne.Base.{
  ℕ, ◌+◌, ◌-◌, ◌^◌, ◌≤◌, ◌<◌, min, ◌≡◌, refl, ◌≢◌, ◌↔◌, ◌⊎◌, inl, Bool, true, false, not, Option,
  none, some, [], ◌∷◌, ◌++◌, arith, ltb, ◌==◌,
}
use ne.Forwarder.Threads.{Thread, local_rx, tx, crypto, wan_rx, Control}
use ne.Forwarder.Opened.{IsClosed, IsOpen, forwarder_init_lem}
use ne.Forwarder.Setup.{Held, Answers, forwarder_init}
use ne.Cpu.{cpu_map_validate}
use ne.Rx.{Desc, Queue, recv_queue}
use ne.Tests.Wakeups.{quiet}
use ne.Forwarder.{active_tx_slots, dp_burst_tx}
use ne.Flow.{key_parse}
use ne.Ring.Fifo.{IsRing, contents}
use ne.Ring.{Ring}
use ne.Packet.{Packet, no_packet}
use ne.Forwarder.Dispatch.{way_of, routed, dispatch_local-in_order}
use ne.Forwarder.Hub.{Hub, packet_data, dispatch_all}
use ne.Forwarder.Burst.{Bursted, dp_burst_tx_lem}
use ne.Forwarder.Slots.{HasFew, active_tx_slots_lem}
use ne.Cpu.Roles.{IsGroup, all_cpus, cpu_map_validate_iff}
use ne.Umem.Received.{held_by, occurs, addrs_of, recv_queue_frames}
use ne.Rx.Recv.Bounded.{IsBatch, KeepsChains, recv_slot-IsBatch}
use ne.Rx.Recv.{recv_slot, local_origin}
use ne.Tx.{Port, tx_slots, primary_loop, pair_live}
use ne.Tests.Flows.{forwarder, frame_key}
use ne.Tests.Frames.{
  Given, producer, producer-IsProducer, jobs, jobs-IsRing, jobs-AllSendable, pool,
}
use ne.Route
use ne.Rx.Recv

abbrev lan_port : Port (Given Desc)
lan_port = record {
  count = 1;
  live = λ i. i == 0;
  ifaces = λ i. record {
    queue_count = 3;
    queues = λ q. record { room = 10; given = [] };
    tx_no_free = 0;
  };
}

active_tx_slots_lem_example :
    (0 < active_tx_slots lan_port lan_port)
    × (active_tx_slots lan_port lan_port ≤ min 3 tx_slots)
    × ((active_tx_slots lan_port lan_port ≡ tx_slots)
        ⊎ HasFew lan_port (active_tx_slots lan_port lan_port)
        ⊎ HasFew lan_port (active_tx_slots lan_port lan_port))
    × (primary_loop 3 0 2 3 ≡ some 2)
active_tx_slots_lem_example =
    active_tx_slots_lem lan_port lan_port lan_port 0 2 (inl refl) (omega arith) refl (omega arith)

dp_burst_tx_lem_example :
    Bursted
      (producer Desc)
      (λ q. q.given)
      (producer-IsProducer Desc)
      4096
      0
      2
      2
      (record { port = lan_port; ring = jobs; pool = pool; rr = 5; total = 0 })
      (dp_burst_tx (producer Desc) 4096 0 2 lan_port (λ i. jobs) pool 5)
unfolding pair_live
dp_burst_tx_lem_example =
    dp_burst_tx_lem (producer Desc) (λ q. q.given) (producer-IsProducer Desc) 4096 0 2 2 5 lan_port
      (λ i. jobs) pool jobs-IsRing jobs-AllSendable refl (omega arith)

abbrev empty : Ring Packet
empty = record {
  buf = λ i. no_packet;
  cap = 2 ^ 2;
  mask = 2 ^ 2 - 1;
  head = 0;
  tail = 0;
  mpsc_pop = false;
}

empty-IsRing : IsRing 2 empty
empty-IsRing = record {
  width = omega arith;
  cap = refl;
  mask = refl;
  head = omega arith;
  tail = omega arith;
  count = omega arith;
}

abbrev hub : Hub
hub = record {
  fwd = forwarder;
  local_to_mid = λ i. empty;
  wan_to_mid = λ i. empty;
  idle = record { ready = true; busy_poll = false; efd = λ i. some 0; sleeping = λ i. true };
}

-- The packet of the frame in the forwarder's memory.
abbrev pkt : Packet
pkt = record no_packet { len = 46; nsegs = 1; seg_len = λ i. 46 }

pkt-parsed : key_parse (packet_data hub.fwd pkt) 46 ≡ some frame_key
unfolding key_parse
pkt-parsed = refl

dispatch_local-in_order_example :
    let way = way_of hub pkt in
    contents 2 ((dispatch_all hub (pkt ∷ pkt ∷ [])).local_to_mid way.worker_idx)
    ≡ [] ++ (routed way pkt ∷ routed way pkt ∷ [])
dispatch_local-in_order_example =
    dispatch_local-in_order 2 hub frame_key pkt pkt pkt-parsed pkt-parsed empty-IsRing (omega arith)

cpu_map_validate_iff_example :
    (cpu_map_validate (some (λ c. ltb c 12)) ≢ none) ↔ IsGroup all_cpus (λ c. ltb c 12) (λ c. false)
cpu_map_validate_iff_example = cpu_map_validate_iff (λ c. ltb c 12)

abbrev queue : Queue
queue = record {
  rx_pending = 0;
  rejected = [];
  chain = no_packet;
  chain_invalid = false;
  chain_dropped = 0;
}

abbrev rx_port : Recv.Port
rx_port = record {
  count = 1;
  live = λ i. true;
  queue_count = λ i. 1;
  queues = λ i q. queue;
  shown = λ i q. record { addr = 4096; len = 60; continued = false } ∷ [];
}

rx_port-KeepsChains : KeepsChains rx_port
rx_port-KeepsChains i q = record { few = omega arith; short = omega arith; adds_up = refl }

recv_slot-IsBatch_example : IsBatch 64 (recv_slot local_origin 64 0 1 rx_port)
recv_slot-IsBatch_example = recv_slot-IsBatch local_origin 64 0 1 rx_port rx_port-KeepsChains

recv_queue_frames_example :
    held_by 4096
      (recv_queue (local_origin 0) 64 queue (rx_port.shown 0 0)).0
      (recv_queue (local_origin 0) 64 queue (rx_port.shown 0 0)).1
    ≡ held_by 4096 queue [] + occurs 4096 (addrs_of (rx_port.shown 0 0))
recv_queue_frames_example =
    recv_queue_frames 4096 (local_origin 0) 64 queue (rx_port.shown 0 0) (omega arith)

-- All CPUs are allowed, and the fourth crypto worker cannot be created.
abbrev every_cpu : Option (ℕ → Bool)
every_cpu = some (λ c. true)

abbrev seen_cpus : ℕ → Bool
unfolding cpu_map_validate
seen_cpus = elim (cpu_map_validate every_cpu) [ none ↦ λ c. false | some seen ↦ seen ]

abbrev creates : Thread → Bool
creates (local_rx w) = true
creates (tx w) = true
creates (crypto w) = not (w == 3)
creates (wan_rx w) = true

abbrev control : Control
control = record { running = true; idle = quiet }

-- Everything succeeds but the attachment of the programs.
abbrev answers : Answers
answers = record {
  stop_first = false;
  stop_second = false;
  stop_third = false;
  busy = false;
  made = λ i. true;
  crypto_ok = true;
  pair_ok = true;
  attach_ok = false;
  memory = λ id. true;
}

abbrev unopened : Held
unopened = record { idle = quiet; pair_open = false; rings = λ id. false; running = true }

forwarder_init_lem_example :
    let (r, ok) = forwarder_init answers 1 1 unopened in
    ((ok ≡ false) × IsClosed r) ⊎ ((ok ≡ true) × IsOpen 1 1 r)
forwarder_init_lem_example =
    forwarder_init_lem answers 1 1 unopened (record { pair = refl; rings = λ x. refl })
