-- ===== src/Dataplane/Drops.antt =====
-- What becomes of a large ICMP frame.
use ne.Route.Number.{next_udp_tx_seq}
use ne.Base.{
  low_bits, shr, not, ◌||◌, true, if◌then◌else◌, ℕ, ◌+◌, ◌*◌, ◌<◌, ◌≡◌, refl, ap, ◌∙◌, inl, inr,
  Bool, false, Option, none, some, arith, ltb, ◌==◌, Bool-cases, Option-cases, Mem,
}
use ne.Flow.{parse_flow, key_from_tuple, key_parse_direction}
use ne.Route.{State}
use ne.Crypto.{Scrypt}
use ne.L2.{icmp, need_split, mtu, data_overhead}
use ne.Dataplane.{Forwarder, Env}
use ne.Dataplane.Egress.{dropped, stamp_next, encrypt_to_wan, seen_proto}
use ne.Tcp.{clamp_tcp, clamp_at, clamp_mss, clamp_ip}
use ne.Eth.{ipv4_offset}
use ne.Packet.{Packet}

-- A packet that is neither TCP nor UDP has no key, and so no number.
key-none : (pkt : Mem) (len : ℕ) → seen_proto pkt len ≡ 1 → key_parse_direction pkt len ≡ none
unfolding key_parse_direction parse_flow key_from_tuple seen_proto
key-none pkt len h = elim (Option-cases (ipv4_offset pkt len)) [
  | inl missing ↦ ground (arith, missing)
  | inr (o, f) ↦ ground (arith, f)
]

next_seq-none :
    (st : State) (pkt : Mem) (len : ℕ)
    → key_parse_direction pkt len ≡ none
    → next_udp_tx_seq st pkt len ≡ (st, none)
unfolding next_udp_tx_seq
next_seq-none st pkt len h = ground (arith, h)

stamp_next-none :
    (fwd : Forwarder) (pkt : Mem) (len : ℕ) (flow_ok : Bool)
    → next_udp_tx_seq fwd.route pkt len ≡ (fwd.route, none)
    → stamp_next fwd pkt len flow_ok ≡ none
unfolding stamp_next
stamp_next-none fwd pkt len flow_ok h = ground (arith, h)

seen-at :
    (pkt : Mem) (len o : ℕ)
    → ipv4_offset pkt len ≡ some o
    → seen_proto pkt len ≡ 1
    → pkt (o + 9) ≡ 1
unfolding seen_proto
seen-at pkt len o f h = ground (arith, f)

third_guard :
    (a b c d : Bool) (o : Option (Mem × ℕ))
    → c ≡ true
    → (if a then none else if b then none else if c then none else if d then none else o) ≡ none
third_guard true b c d o h = refl
third_guard false true c d o h = refl
third_guard false false true d o h = refl
third_guard false false false d o h = ground arith

clamp_ip-none :
    (pkt : Mem) (len path_mtu overhead o : ℕ)
    → pkt (o + 9) == 6 ≡ false
    → clamp_ip pkt len path_mtu overhead o ≡ none
unfolding clamp_ip
clamp_ip-none pkt len path_mtu overhead o h =
    let ihl = low_bits (pkt o) 4 * 4 in
    third_guard (ltb len (o + 20)) (not (shr (pkt o) 4 == 4)) (not (pkt (o + 9) == 6))
      (ltb ihl 20 || ltb len (o + ihl + 20)) (clamp_tcp pkt len o ihl path_mtu overhead)
      (ap (λ b. not b) h)

clamp_at-none :
    (pkt : Mem) (len path_mtu overhead : ℕ)
    → seen_proto pkt len ≡ 1
    → clamp_at pkt len path_mtu overhead (ipv4_offset pkt len) ≡ none
clamp_at-none pkt len path_mtu overhead h = elim (Option-cases (ipv4_offset pkt len)) [
  | inl missing ↦ ap (λ o. clamp_at pkt len path_mtu overhead o) missing
  | inr (o, f) ↦
      let one = seen-at pkt len o f h in
      ap (λ o. clamp_at pkt len path_mtu overhead o) f
      ∙ clamp_ip-none pkt len path_mtu overhead o (ap (λ p. p == 6) one)
]

clamp-none :
    (pkt : Mem) (len path_mtu overhead : ℕ)
    → seen_proto pkt len ≡ 1
    → clamp_mss pkt len path_mtu overhead ≡ none
unfolding clamp_mss
clamp-none pkt len path_mtu overhead h = elim (Bool-cases (ltb path_mtu 576)) [
  | inl small ↦ rw small refl
  | inr large ↦ rw large (clamp_at-none pkt len path_mtu overhead h)
]

-- An ICMP frame of more than 8983 bytes has to be split, and is dropped instead: it has no flow
-- key, and so it is given no sequence number. Nothing changes.
pub oversized_icmp-dropped :
    {Ctx : Type 0} (S : Scrypt Ctx) (env : Env) (fwd : Forwarder) (job : Packet) (pkt aux : Mem)
    (wan_dp : ℕ) (flow_ok : Bool)
    → seen_proto pkt job.len ≡ 1
    → 8983 < job.len
    → encrypt_to_wan S env fwd job pkt aux wan_dp icmp flow_ok ≡ (dropped, job, fwd)
unfolding encrypt_to_wan need_split
oversized_icmp-dropped S env fwd job pkt aux wan_dp flow_ok h k =
    let c = clamp-none pkt job.len mtu data_overhead h in
    let n =
      stamp_next-none fwd pkt job.len flow_ok
        (next_seq-none fwd.route pkt job.len (key-none pkt job.len h)) in
    ground (arith, c, n)
