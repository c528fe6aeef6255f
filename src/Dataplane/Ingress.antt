-- ===== src/Dataplane/Ingress.antt =====
-- wan_ingress.c: from the WAN to the LAN.
use ne.Route.Assign.{flow_pick_tx_slot}
use ne.Base.{ℕ, Bool, true, false, not, ◌||◌, none, some, leb, ◌==◌, if◌then◌else◌, Mem}
use ne.Crypto.{Scrypt}
use ne.L2.{data_proto}
use ne.L2.Shim.{marker_match}
use ne.L2.Table.{failed, waiting, joined}
use ne.L2.Reassembly.{reassemble_udp}
use ne.Packet.{Packet, no_packet, linearize, packet_write, jumbo_frame_max}
use ne.Dataplane.{Forwarder, Env, dir_local, put_ring, free_packet, ring_or_free}
use ne.Eth
use ne.Route
use ne.L2.Decrypt

unfoldable pub is_udp_wire : Mem → ℕ → Bool
unfolding Eth.has_marker Eth.frag_magic_off marker_match
is_udp_wire pkt len =
    if Eth.has_marker pkt len
    then elim (Eth.frag_magic_off pkt len 12) [ none ↦ false | some off ↦ marker_match pkt len off ]
    else false

-- A packet that the ring has no room for is freed, and cleared.
unfoldable pub forward_local : Forwarder → Packet → Bool × Packet × Forwarder
unfolding ring_or_free
forward_local fwd job =
    let ri = fwd.route.out_ring in
    let marked : Packet = record job { dir = dir_local; local_idx = 0 } in
    let (ring, fwd') = ring_or_free fwd (fwd.mid_to_local 0 ri) marked in
    if not (fwd.local_count == 1) then (false, job, fwd) else elim ring [
      | none ↦ (false, no_packet, fwd')
      | some r ↦ (true, marked, record fwd' { mid_to_local = put_ring fwd'.mid_to_local 0 ri r })
    ]

-- The end of dataplane_process_wan: the plain frame is written to the packet and handed on.
unfoldable pub deliver : Forwarder → Packet → Mem → ℕ → ℕ → Forwarder
unfolding packet_write flow_pick_tx_slot Route.out_ring_bind forward_local free_packet
deliver fwd job plain len w =
    let a = packet_write fwd.frame_size fwd.mem fwd.pool job plain len in
    let written : Forwarder = record fwd { mem = a.mem; pool = a.pool } in
    let (route', slot) = flow_pick_tx_slot fwd.route plain a.packet.len (some w) in
    let bound : Forwarder = record written { route = Route.out_ring_bind route' (some slot) } in
    let (sent, job', fwd') = forward_local bound a.packet in
    if not a.done
    then free_packet written a.packet
    else if sent
    then fwd'
    else free_packet fwd' job'

module _ {Ctx : Type 0} (S : Scrypt Ctx) (env : Env) where
  -- The branch for a UDP frame: a fragment that waits for the other is kept in the table, and its
  -- frames are freed.
  unfoldable pub receive_udp : Forwarder → Packet → Mem → Mem → ℕ → Forwarder
  unfolding reassemble_udp deliver free_packet
  receive_udp fwd job pkt aux w =
      let (tables', r) =
        reassemble_udp S fwd.worker.initialized env.memory fwd.tables w fwd.crypto pkt job.len
          env.now aux in
      let kept : Forwarder = record fwd { tables = tables' } in
      elim r [
        | waiting ↦ free_packet kept job
        | failed ↦ free_packet kept job
        | joined whole len ↦ deliver kept job whole len w
      ]

  unfoldable pub receive_data : Forwarder → Packet → Mem → ℕ → Forwarder
  unfolding deliver free_packet
  receive_data fwd job pkt w =
      elim (Decrypt.decrypt S fwd.worker.initialized data_proto fwd.crypto pkt job.len) [
        | none ↦ free_packet fwd job
        | some (plain, len) ↦ deliver fwd job plain len w
      ]

  -- dataplane_process_wan
  unfoldable pub process_wan : Forwarder → Packet → Mem → Mem → Forwarder
  unfolding linearize Eth.has_marker is_udp_wire receive_udp receive_data free_packet
  process_wan fwd job buf aux = elim fwd.route.worker [
    | none ↦ free_packet fwd job
    | some w ↦ elim (linearize fwd.mem job buf jumbo_frame_max) [
      | none ↦ free_packet fwd job
      | some pkt ↦
          if leb Route.crypto_workers w || not (Eth.has_marker pkt job.len)
          then free_packet fwd job
          else if is_udp_wire pkt job.len
          then receive_udp fwd job pkt aux w
          else receive_data fwd job pkt w
    ]
  ]
