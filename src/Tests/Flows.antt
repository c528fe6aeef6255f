-- ===== src/Tests/Flows.antt =====
-- Instances for flows, routes, the MSS clamp and the verdicts.
use ne.Route.Assign.{get_key}
use ne.Route.Number.{next_udp_tx_seq}
use ne.Base.{
  ℕ, ◌+◌, ◌-◌, ◌*◌, ◌%◌, ◌^◌, ◌≤◌, ◌<◌, ◌≡◌, refl, ◌⊎◌, inl, inr, true, false, none, some, [], ◌∷◌,
  arith, leb, ◌==◌, if◌then◌else◌, u32, be16, Mem,
}
use ne.Flow.{key_equal, Tuple, RouteKey, key_from_tuple, key_parse_direction}
use ne.Tests.Toy.{of_list, of_list-IsBytes, frame, frame_bytes, toy, ctx, worker}
use ne.Eth.{ipv4_offset, has_marker}
use ne.Flow.Key.{reply, other_way, key_from_tuple-reply}
use ne.Route.Seq.{next_udp_tx_seq_lem}
use ne.Route.{set_of, Entry, State, FlowRoute, least_loaded}
use ne.Route.Sticky.{lookup, get_key-again, lookup-get_key}
use ne.Route.Balance.{least_loaded-least}
use ne.Tcp.{replace_word, walk, clamp_mss, lower_mss}
use ne.Tcp.Sum.{replace_word-sum}
use ne.Tcp.Walk.{walk_fuel, clamp_mss-inside}
use ne.L2.{icmp}
use ne.Packet.{Packet, Pool, no_packet}
use ne.Ring.{Ring}
use ne.Dataplane.{Forwarder, Env}
use ne.Dataplane.Egress.{dropped, encrypt_to_wan, seen_proto}
use ne.Dataplane.Drops.{oversized_icmp-dropped}
use ne.Xdp.{redirect, drop, pass, lan_redirect, wan_redirect}
use ne.Xdp.Verdicts.{lan_redirect-ipv4, wan_redirect_iff}
use ne.Route

abbrev there : Tuple
there = record { src_ip = 20; dst_ip = 10; src_port = 256; dst_port = 512; proto = 17 }

key_from_tuple-reply_example : key_from_tuple (reply there) ≡ other_way (key_from_tuple there)
key_from_tuple-reply_example = key_from_tuple-reply there (inl (omega arith))

abbrev key : RouteKey
key = record { ip_a = 10; ip_b = 20; port_a = 512; port_b = 256; protocol = 17 }

abbrev key2 : RouteKey
key2 = record { ip_a = 11; ip_b = 20; port_a = 512; port_b = 256; protocol = 6 }

abbrev no_entry : Entry
no_entry = record { key = key; udp_tx_seq = λ d. 0; worker_idx = 0; tx_slot = 0; valid = false }

abbrev route : State
route = record {
  table = λ i w. no_entry;
  worker_count = λ i. i;
  tx_count = λ i. 3 - i;
  worker_rr = 2;
  tx_rr = 0;
  active_tx = 4;
  fallback = λ i w. record { key = key; next_seq = λ d. 0; stamp = 0; valid = false };
  seq_stamp = 0;
  worker = some 3;
  out_ring = 3;
}

get_key-again_example : get_key (get_key route key none).0 key (some 2) ≡ get_key route key none
get_key-again_example = get_key-again route key none (some 2)

least_loaded-least_example :
    (least_loaded route.worker_count 6 2 < 6)
    × (route.worker_count (least_loaded route.worker_count 6 2) ≤ route.worker_count 4)
least_loaded-least_example =
    least_loaded-least route.worker_count 6 2 4 (omega arith) (omega arith) (omega arith)

replace_word-sum_example :
    (be16 (replace_word frame 34 1460 536 (34 + 16)) (replace_word frame 34 1460 536 (34 + 17))
        + 536)
      % 65535
    ≡ (be16 (frame (34 + 16)) (frame (34 + 17)) + 1460) % 65535
replace_word-sum_example =
    replace_word-sum frame 34 1460 536 (of_list-IsBytes frame_bytes refl) (omega arith)
      (omega arith) (omega arith)

-- The same table with the flow `key2` in the first way of every set.
abbrev settled : State
settled = record route {
  table = λ i w.
      if w == 0
      then record no_entry { key = key2; worker_idx = 4; tx_slot = 1; valid = true }
      else no_entry;
}

abbrev route2 : FlowRoute
route2 = record { worker_idx = 4; tx_slot = 1 }

lookup-settled : lookup settled key2 ≡ some route2
unfolding Route.find_way key_equal
lookup-settled = refl

lookup-get_key_example : lookup (get_key settled key none).0 key2 ≡ some route2
lookup-get_key_example = lookup-get_key settled key key2 none route2 lookup-settled

-- A SYN with a segment size of 65535 behind the addresses.
abbrev syn : Mem
syn = of_list (
    0 ∷ 0 ∷ 0 ∷ 0 ∷ 0 ∷ 0 ∷ 0 ∷ 0 ∷ 0 ∷ 0 ∷ 0 ∷ 0 ∷ 8 ∷ 0 ∷ 0x45 ∷ 0 ∷ 0 ∷ 44 ∷ 0 ∷ 0 ∷ 0 ∷ 0 ∷ 64
    ∷ 6 ∷ 0 ∷ 0 ∷ 10 ∷ 0 ∷ 0 ∷ 1 ∷ 10 ∷ 0 ∷ 0 ∷ 2 ∷ 1 ∷ 0 ∷ 2 ∷ 0 ∷ 0 ∷ 0 ∷ 0 ∷ 0 ∷ 0 ∷ 0 ∷ 0 ∷ 0
    ∷ 0x60 ∷ 2 ∷ 0 ∷ 0 ∷ 0x12 ∷ 0x34 ∷ 0 ∷ 0 ∷ 2 ∷ 4 ∷ 0xFF ∷ 0xFF ∷ [])

walk_fuel_example :
    (r : Mem × ℕ) × (walk 40 syn 34 20 24 8929 ≡ some r) × (walk 60 syn 34 20 24 8929 ≡ some r)
walk_fuel_example =
    walk_fuel 40 60 syn 34 20 24 8929 (omega arith) (omega arith) (omega arith) (omega arith)

abbrev clamped : Mem
clamped = (lower_mss syn 34 20 8929).0

clamp-syn : clamp_mss syn 58 9000 31 ≡ some (clamped, 1)
unfolding clamp_mss walk
clamp-syn = refl

clamp_mss-inside_example : clamped 58 ≡ syn 58
clamp_mss-inside_example =
    clamp_mss-inside syn clamped 58 9000 31 1 58 clamp-syn (inr (omega arith))

-- A forwarder with empty rings, and a job of a large ICMP frame.
abbrev ring : Ring Packet
ring = record {
  buf = λ i. no_packet;
  cap = 16384;
  mask = 16383;
  head = 0;
  tail = 0;
  mpsc_pop = true;
}

abbrev pool : Pool
pool = record { buf = λ i. i; cap = 4; mask = 3; head = 2; tail = 0 }

abbrev pub forwarder : Forwarder
forwarder = record {
  worker = worker;
  route = route;
  tables = λ i. none;
  mem = frame;
  pool = pool;
  frame_size = 4096;
  mid_to_wan = λ i j. ring;
  mid_to_local = λ i j. ring;
  wan_count = 1;
  local_count = 1;
  crypto = ctx;
  woken = [];
}

abbrev env : Env
env = record {
  src = record { random = some 1; tv_nsec = 0; tv_sec = 0; pid = 1; stored_meanwhile = 0 };
  memory = true;
  now = 0;
}

abbrev large_job : Packet
large_job = record no_packet { len = 9014; nsegs = 3 }

abbrev ping : Mem
ping = of_list (
    0 ∷ 0 ∷ 0 ∷ 0 ∷ 0 ∷ 0 ∷ 0 ∷ 0 ∷ 0 ∷ 0 ∷ 0 ∷ 0 ∷ 8 ∷ 0 ∷ 0x45 ∷ 0 ∷ 0 ∷ 0 ∷ 0 ∷ 0 ∷ 0 ∷ 0 ∷ 64
    ∷ 1 ∷ [])

ping-proto : seen_proto ping 9014 ≡ 1
unfolding seen_proto
ping-proto = refl

oversized_icmp-dropped_example :
    encrypt_to_wan toy env forwarder large_job ping frame 0 icmp true
    ≡ (dropped, large_job, forwarder)
oversized_icmp-dropped_example =
    oversized_icmp-dropped toy env forwarder large_job ping frame 0 true ping-proto (omega arith)

lan-frame : lan_redirect frame 46 46 ≡ redirect
unfolding lan_redirect
lan-frame = refl

lan_redirect-ipv4_example :
    (ipv4_offset frame 46 ≡ some 14)
    × (34 ≤ 46)
    × (46 ≤ 9014)
    × ((frame 23 ≡ 1) ⊎ (frame 23 ≡ 6) ⊎ (frame 23 ≡ 17) ⊎ (frame 23 ≡ 89))
lan_redirect-ipv4_example = lan_redirect-ipv4 frame 46 46 lan-frame

wan_redirect_iff_example :
    wan_redirect (some 0x104A) frame 46 46
    ≡ (if has_marker frame 46 then (if leb 46 9014 then redirect else drop) else pass)
wan_redirect_iff_example =
    wan_redirect_iff frame 46 46 (of_list-IsBytes frame_bytes refl) (omega arith) (omega arith)

abbrev pub frame_key : RouteKey
frame_key = record {
  ip_a = 10 * 2 ^ 24 + 1;
  ip_b = 10 * 2 ^ 24 + 2;
  port_a = 256;
  port_b = 512;
  protocol = 17;
}

pub frame-parsed : key_parse_direction frame 46 ≡ some (frame_key, 0)
unfolding key_parse_direction
frame-parsed = refl

abbrev numbered : State
numbered = record route {
  table = λ i w.
      if w == 0
      then record no_entry { key = frame_key; udp_tx_seq = λ d. 2 ^ 32 - 1; valid = true }
      else no_entry;
}

frame-found : Route.find_way 8 0 (numbered.table (set_of frame_key)) frame_key ≡ some 0
unfolding Route.find_way
frame-found = refl

next_udp_tx_seq_lem_example :
    (n m : ℕ) × ((next_udp_tx_seq numbered frame 46).1 ≡ some n)
    × ((next_udp_tx_seq numbered frame 46).1 ≡ some m)
    × ((next_udp_tx_seq (next_udp_tx_seq numbered frame 46).0 frame 46).1
        ≡ some (if 0 == 0 then u32 (n + 1) else m))
next_udp_tx_seq_lem_example =
    next_udp_tx_seq_lem numbered frame 46 frame 46 frame_key 0 0 0 frame-parsed frame-parsed refl
      frame-found
