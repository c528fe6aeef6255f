-- ===== src/Dataplane.antt =====
-- The work of a crypto worker on one packet: dp_ring_push of packet_util.c, push_to_wan,
-- push_split_to_wan, encrypt_to_wan and dataplane_process_local of local_egress.c, and is_udp_wire,
-- forward_local, dataplane_wan_needs_mid and dataplane_process_wan of wan_ingress.c.
pub mod Egress
pub mod Ingress
pub mod Drops
use ne.Base.{
  ◌*◌, low_bits, List, [], ◌∷◌, ℕ, ◌+◌, ◌-◌, Bool, true, false, not, ◌&&◌, ◌||◌, Option, none, some,
  ltb, leb, ◌==◌, if◌then◌else◌, u8, u32, Mem,
}
use ne.Crypto.{Scrypt, CryptoCtx}
use ne.Flow.{parse_flow, Tuple}
use ne.L2.{
  Proto, EpochSource, classify, need_split, udp_set_tx_seq, mtu, data_overhead, data_proto, udp,
  icmp,
}
use ne.L2.Shim.{marker_match}
use ne.L2.Split.{Fragments, split}
use ne.L2.Table.{Joined, failed, waiting, joined}
use ne.L2.Reassembly.{Tables, reassemble_udp}
use ne.Ring.{Ring, ring_push, ring_push_pair, ring_count}
use ne.Tcp.{clamp_mss}
use ne.Packet.{
  Packet, Pool, Written, no_packet, linearize, packet_write, packet_free, jumbo_frame_max,
}
use ne.Eth
use ne.Worker
use ne.Route
use ne.L2.Encrypt
use ne.L2.Decrypt

-- struct forwarder with what the worker that runs can reach: its thread-locals, the flow table, the
-- reassembly tables, the frames and the rings. `woken` lists the TX threads that were woken.
pub record Forwarder : Type 0 where
  pub worker : Worker.State
  pub route : Route.State
  pub tables : Tables
  pub mem : Mem
  pub pool : Pool
  pub frame_size : ℕ
  pub mid_to_wan : ℕ → ℕ → Ring Packet
  pub mid_to_local : ℕ → ℕ → Ring Packet
  pub wan_count : ℕ
  pub local_count : ℕ
  pub crypto : CryptoCtx
  pub woken : List ℕ

-- What the surroundings answer: the sources of the epoch, whether `calloc` succeeds, the clock.
pub record Env : Type 0 where
  pub src : EpochSource
  pub memory : Bool
  pub now : ℕ

-- NE_DIR_LOCAL, NE_DIR_WAN
abbrev pub dir_local : ℕ
dir_local = 0

abbrev pub dir_wan : ℕ
dir_wan = 1

abbrev pub put_ring : (ℕ → ℕ → Ring Packet) → ℕ → ℕ → Ring Packet → (ℕ → ℕ → Ring Packet)
put_ring rings i j r a b = if a == i && b == j then r else rings a b

unfoldable pub free_packet : Forwarder → Packet → Forwarder
unfolding packet_free
free_packet fwd pkt = record fwd { pool = (packet_free fwd.pool pkt).0 }

abbrev pub wake : Forwarder → Forwarder
wake fwd = record fwd { woken = fwd.route.out_ring ∷ fwd.woken }

-- dp_ring_push: the ring with the packet, or none with the packet's frames freed.
unfoldable pub ring_or_free : Forwarder → Ring Packet → Packet → Option (Ring Packet) × Forwarder
unfolding free_packet ring_push
ring_or_free fwd ring pkt =
    if ltb jumbo_frame_max pkt.len then (none, free_packet fwd pkt) else elim (ring_push ring pkt) [
      | none ↦ (none, free_packet fwd pkt)
      | some ring' ↦ (some ring', wake fwd)
    ]
