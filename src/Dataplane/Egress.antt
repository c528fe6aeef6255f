-- ===== src/Dataplane/Egress.antt =====
-- local_egress.c: from the LAN to the WAN.
use ne.Route.Number.{next_udp_tx_seq}
use ne.Base.{
  ◌*◌, low_bits, ℕ, ◌+◌, Bool, true, false, not, ◌||◌, Option, none, some, ltb, leb, ◌==◌,
  if◌then◌else◌, u8, u32, Mem,
}
use ne.Crypto.{Scrypt}
use ne.Flow.{parse_flow}
use ne.L2.{Proto, classify, need_split, udp_set_tx_seq, mtu, data_overhead, data_proto, udp, icmp}
use ne.L2.Split.{split}
use ne.Ring.{ring_push_pair, ring_count}
use ne.Tcp.{clamp_mss}
use ne.Packet.{Packet, no_packet, linearize, packet_write, jumbo_frame_max}
use ne.Dataplane.{Forwarder, Env, dir_wan, put_ring, free_packet, wake, ring_or_free}
use ne.Eth
use ne.L2.Encrypt

-- Whether the call succeeded, and what it left.
unfoldable pub push_to_wan : Forwarder → Packet → ℕ → Bool × Forwarder
unfolding ring_or_free
push_to_wan fwd job wan_dp =
    let ri = fwd.route.out_ring in
    let marked : Packet = record job { dir = dir_wan; wan_idx = u8 wan_dp } in
    let (ring, fwd') = ring_or_free fwd (fwd.mid_to_wan wan_dp ri) marked in
    elim ring [
      | none ↦ (false, fwd')
      | some r ↦ (true, record fwd' { mid_to_wan = put_ring fwd'.mid_to_wan wan_dp ri r })
    ]

unfoldable pub push_split_to_wan : Forwarder → Packet → ℕ → Packet → ℕ → ℕ → Bool × Forwarder
unfolding free_packet ring_count ring_push_pair
push_split_to_wan fwd job l1 tail l2 wan_dp =
    let ri = fwd.route.out_ring in
    let tx = fwd.mid_to_wan wan_dp ri in
    let first : Packet = record job { len = l1; dir = dir_wan; wan_idx = u8 wan_dp } in
    let second : Packet = record tail { len = l2; dir = dir_wan; wan_idx = u8 wan_dp } in
    if leb fwd.wan_count wan_dp || ltb tx.cap (u32 (ring_count tx + 2))
    then (false, free_packet fwd tail)
    else if l1 == 0 || l2 == 0 || ltb jumbo_frame_max l1 || ltb jumbo_frame_max l2
    then (false, free_packet fwd tail)
    else elim (ring_push_pair tx first second) [
      | none ↦ (false, free_packet fwd second)
      | some r ↦ (true, wake (record fwd { mid_to_wan = put_ring fwd.mid_to_wan wan_dp ri r }))
    ]

-- The returns of encrypt_to_wan below 0, 1 and 0.
pub data Encrypted : Type 0 where
  dropped queued sealed : Encrypted

-- The number that a UDP frame, or one that is split, is stamped with.
unfoldable pub stamp_next : Forwarder → Mem → ℕ → Bool → Option Forwarder
unfolding next_udp_tx_seq udp_set_tx_seq
stamp_next fwd pkt len flow_ok =
    let (route', seq) = next_udp_tx_seq fwd.route pkt len in
    if flow_ok
    then elim seq [
      | none ↦ none
      | some n ↦ some (record fwd { route = route'; worker = udp_set_tx_seq n fwd.worker })
    ]
    else none

-- The protocol that dp_parse_flow leaves, also when it fails on the ports.
unfoldable pub seen_proto : Mem → ℕ → ℕ
unfolding Eth.ipv4_offset
seen_proto pkt len = elim (Eth.ipv4_offset pkt len) [
  | none ↦ 0
  | some l3 ↦
      let ihl = low_bits (pkt l3) 4 * 4 in
      if ltb ihl 20 || ltb len (l3 + ihl) then 0 else pkt (l3 + 9)
]

module _ {Ctx : Type 0} (S : Scrypt Ctx) (env : Env) where
  -- The branch for a frame that is split; `aux` is the worker's second buffer.
  unfoldable pub send_split :
      Forwarder → Packet → Mem → ℕ → Mem → ℕ → Encrypted × Packet × Forwarder
  unfolding split packet_write push_split_to_wan free_packet
  send_split fwd job pkt len aux wan_dp =
      let (cut, worker') =
        split S env.src fwd.crypto pkt len jumbo_frame_max aux jumbo_frame_max fwd.worker in
      let stamped : Forwarder = record fwd { worker = worker' } in
      elim cut [
        | none ↦ (dropped, job, stamped)
        | some f ↦
            let a = packet_write fwd.frame_size fwd.mem fwd.pool job f.first f.first_len in
            let b = packet_write fwd.frame_size a.mem a.pool no_packet f.second f.second_len in
            let half : Forwarder = record stamped { mem = a.mem; pool = a.pool } in
            let written : Forwarder = record stamped { mem = b.mem; pool = b.pool } in
            let (sent, fwd') =
              push_split_to_wan written a.packet f.first_len b.packet f.second_len wan_dp in
            if not a.done
            then (dropped, a.packet, half)
            else if not b.done
            then (dropped, a.packet, free_packet written b.packet)
            else (if sent then queued else dropped, a.packet, fwd')
      ]

  -- The branch for a frame that is encrypted whole.
  unfoldable pub send_whole : Forwarder → Packet → Proto → Mem → ℕ → Encrypted × Packet × Forwarder
  unfolding packet_write
  send_whole fwd job proto pkt len =
      let (wire, worker') = Encrypt.encrypt S env.src proto fwd.crypto pkt len fwd.worker in
      let stamped : Forwarder = record fwd { worker = worker' } in
      elim wire [
        | none ↦ (dropped, job, stamped)
        | some (m, n) ↦
            let a = packet_write fwd.frame_size fwd.mem fwd.pool job m n in
            let written : Forwarder = record stamped { mem = a.mem; pool = a.pool } in
            if ltb (Eth.eth_header_size + mtu) n
            then (dropped, job, stamped)
            else (if a.done then sealed else dropped, a.packet, written)
      ]

  unfoldable pub encrypt_to_wan :
      Forwarder → Packet → Mem → Mem → ℕ → Proto → Bool → Encrypted × Packet × Forwarder
  unfolding need_split clamp_mss stamp_next send_split send_whole
  encrypt_to_wan fwd job pkt aux wan_dp proto flow_ok =
      let len = job.len in
      let clamped = elim (clamp_mss pkt len mtu data_overhead) as (λ _. Mem) [
        | none ↦ pkt
        | some (m, _) ↦ m
      ] in
      let is_udp = elim proto as (λ _. Bool) [ udp ↦ true | icmp ↦ false | data_proto ↦ false ] in
      let plain = if is_udp then pkt else clamped in
      if is_udp || need_split proto len
      then elim (stamp_next fwd plain len flow_ok) [
        | none ↦ (dropped, job, fwd)
        | some fwd' ↦
            if need_split proto len
            then send_split fwd' job plain len aux wan_dp
            else send_whole fwd' job proto plain len
      ]
      else send_whole fwd job proto plain len

  -- dataplane_process_local; `buf` and `aux` are what the worker's buffers hold from before.
  unfoldable pub process_local : Forwarder → Packet → Mem → Mem → Forwarder
  unfolding linearize parse_flow seen_proto classify encrypt_to_wan push_to_wan free_packet
  process_local fwd job buf aux = elim (linearize fwd.mem job buf jumbo_frame_max) [
    | none ↦ free_packet fwd job
    | some pkt ↦
        let flow_ok = elim (parse_flow pkt job.len) as (λ _. Bool) [
          | none ↦ false
          | some _ ↦ true
        ] in
        let proto = classify (seen_proto pkt job.len) in
        let (enc, job', fwd') = encrypt_to_wan fwd job pkt aux 0 proto flow_ok in
        if not (fwd.wan_count == 1) then free_packet fwd job else elim enc [
          | dropped ↦ free_packet fwd' job'
          | queued ↦ fwd'
          | sealed ↦ (push_to_wan fwd' job' 0).1
        ]
  ]
