-- ===== src/Flow.antt =====
-- The flow of a packet: dp_parse_flow of packet_util.c, and of crypto_route.c dp_flow_hash_mix,
-- dp_hash_to_n, dp_pkt_flow_hash, struct dp_route_key, dp_route_key_from_tuple,
-- dp_route_key_parse_direction, dp_route_key_parse, dp_route_key_hash and dp_route_key_equal.
-- An address stands here as `ntohl` reads it, a port as `ntohs` does.
pub mod Key
use ne.Base.{◌^◌}
use ne.Base.{◌%◌}
use ne.Base.{
  ℕ, zero, suc, ◌+◌, ◌-◌, ◌*◌, Bool, true, false, not, ◌&&◌, ◌||◌, Option, none, some, ltb, leb,
  ◌==◌, if◌then◌else◌, u16, u32, low_bits, shr, be16, be32, bit_and, bit_xor, Mem,
}
use ne.Eth

pub record Tuple : Type 0 where
  pub src_ip : ℕ
  pub dst_ip : ℕ
  pub src_port : ℕ
  pub dst_port : ℕ
  pub proto : ℕ

abbrev pub ipproto_icmp : ℕ
ipproto_icmp = 1

abbrev pub ipproto_tcp : ℕ
ipproto_tcp = 6

abbrev pub ipproto_udp : ℕ
ipproto_udp = 17

-- The address at an offset, and the port.
abbrev pub ip_at : Mem → ℕ → ℕ
ip_at pkt o = be32 (pkt o) (pkt (o + 1)) (pkt (o + 2)) (pkt (o + 3))

abbrev pub port_at : Mem → ℕ → ℕ
port_at pkt o = be16 (pkt o) (pkt (o + 1))

unfoldable pub parse_flow : Mem → ℕ → Option Tuple
unfolding Eth.ipv4_offset
parse_flow pkt len = elim (Eth.ipv4_offset pkt len) [
  | none ↦ none
  | some l3 ↦
      let ihl = low_bits (pkt l3) 4 * 4 in
      let proto = pkt (l3 + 9) in
      let bare : Tuple = record {
        src_ip = ip_at pkt (l3 + 12);
        dst_ip = ip_at pkt (l3 + 16);
        src_port = 0;
        dst_port = 0;
        proto = proto;
      } in
      if ltb ihl 20 || ltb len (l3 + ihl)
      then none
      else if not (proto == ipproto_tcp || proto == ipproto_udp)
      then some bare
      else if ltb len (l3 + ihl + 4)
      then none
      else some
          (record bare { src_port = port_at pkt (l3 + ihl); dst_port = port_at pkt (l3 + ihl + 2) })
]

unfoldable pub flow_hash_mix : ℕ → ℕ → ℕ → ℕ → ℕ → ℕ
flow_hash_mix src_ip dst_ip src_port dst_port protocol =
    let h1 = bit_xor src_ip dst_ip in
    let h2 = bit_xor h1 (src_port * 2 ^ 16 + dst_port) in
    let h3 = bit_xor h2 protocol in
    let h4 = bit_xor h3 (shr h3 16) in
    let h5 = u32 (h4 * 0x85ebca6b) in
    let h6 = bit_xor h5 (shr h5 13) in let h7 = u32 (h6 * 0xc2b2ae35) in bit_xor h7 (shr h7 16)

unfoldable pub hash_to_n : ℕ → ℕ → ℕ
hash_to_n hash n =
    if n == 0 then 0 else if bit_and n (n - 1) == 0 then bit_and hash (n - 1) else hash % n

-- The loop over the Ethernet header, at byte `i` with `left` to go.
unfoldable pub header_hash : ℕ → ℕ → Mem → ℕ → ℕ
header_hash zero i pkt hash = hash
header_hash (suc left) i pkt hash = header_hash left (i + 1) pkt (u32 (hash * 31 + pkt i))

unfoldable pub pkt_flow_hash : Mem → ℕ → ℕ
unfolding parse_flow header_hash flow_hash_mix
pkt_flow_hash pkt len = if ltb len 14 then 0 else elim (parse_flow pkt len) [
  | none ↦ let hash = header_hash 14 0 pkt len in flow_hash_mix hash (shr hash 16) (u16 len) 0 0
  | some t ↦ flow_hash_mix t.src_ip t.dst_ip t.src_port t.dst_port t.proto
]

pub record RouteKey : Type 0 where
  pub ip_a : ℕ
  pub ip_b : ℕ
  pub port_a : ℕ
  pub port_b : ℕ
  pub protocol : ℕ

-- Which of the two ends comes first.
abbrev pub swapped : Tuple → Bool
swapped t = ltb t.dst_ip t.src_ip || (t.src_ip == t.dst_ip && ltb t.dst_port t.src_port)

-- The key, and the direction of the packet.
unfoldable pub key_from_tuple : Tuple → Option (RouteKey × ℕ)
key_from_tuple t =
    let there : RouteKey = record {
      ip_a = t.src_ip;
      ip_b = t.dst_ip;
      port_a = t.src_port;
      port_b = t.dst_port;
      protocol = t.proto;
    } in
    let back : RouteKey = record {
      ip_a = t.dst_ip;
      ip_b = t.src_ip;
      port_a = t.dst_port;
      port_b = t.src_port;
      protocol = t.proto;
    } in
    if not (t.proto == ipproto_tcp) && not (t.proto == ipproto_udp)
    then none
    else if swapped t
    then some (back, 1)
    else some (there, 0)

unfoldable pub key_parse_direction : Mem → ℕ → Option (RouteKey × ℕ)
unfolding parse_flow key_from_tuple
key_parse_direction pkt len = elim (parse_flow pkt len) [ none ↦ none | some t ↦ key_from_tuple t ]

unfoldable pub key_parse : Mem → ℕ → Option RouteKey
unfolding key_parse_direction
key_parse pkt len = elim (key_parse_direction pkt len) [ none ↦ none | some p ↦ some p.0 ]

unfoldable pub key_hash : RouteKey → ℕ
unfolding flow_hash_mix
key_hash k = flow_hash_mix k.ip_a k.ip_b k.port_a k.port_b k.protocol

unfoldable pub key_equal : RouteKey → RouteKey → Bool
key_equal a b =
    a.ip_a == b.ip_a
    && a.ip_b == b.ip_b
    && a.port_a == b.port_a
    && a.port_b == b.port_b
    && a.protocol == b.protocol
