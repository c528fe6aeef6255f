-- ===== src/L2/Split.antt =====
-- l2_split (l2_udp_split, l2_crypto_split_udp): one large IPv4 frame becomes two encrypted fragments.
pub mod Plan
pub mod Parts
use ne.Base.{
  ℕ, ◌+◌, ◌-◌, ◌*◌, ◌/◌, ◌%◌, Bool, true, false, not, ◌&&◌, ◌||◌, Option, none, some, ltb, leb,
  ◌==◌, if◌then◌else◌, low_bits, shr, Mem,
}
use ne.Eth
use ne.Worker.{Exec, pure, lift, ◌>>=◌}
use ne.Crypto.{Scrypt, CryptoCtx}
use ne.L2.{EpochSource, udp_tx_meta, mtu, opt_frag_meta_len}
use ne.L2.Shim.{kind_frag1}
use ne.L2.Encrypt.{encrypt_fragment, encrypt_fragment0}

-- Where the frame is cut: the bytes of L3 that the first fragment carries, and the rest.
pub record Cut : Type 0 where
  pub frag0_plain_len : ℕ
  pub half2 : ℕ

-- How the application bytes are shared out, from the lengths of the headers and of the IP payload.
unfoldable pub cut_at : ℕ → ℕ → ℕ → Option Cut
cut_at l3_off ip_hdr_len ip_payload_len =
    let frag_mtu = 14 + mtu in
    let app_len = ip_payload_len - 8 in
    let frag_overhead = l3_off + opt_frag_meta_len in
    let max_plain0 = frag_mtu - frag_overhead in
    let fixed_plain0 = ip_hdr_len + 8 in
    let room = max_plain0 - fixed_plain0 in
    let half1 = if leb app_len room then app_len - 1 else room in
    let plan : Cut = record { frag0_plain_len = ip_hdr_len + 8 + half1; half2 = app_len - half1 } in
    if ltb ip_payload_len 8
    then none
    else if app_len == 0
    then none
    else if leb frag_mtu frag_overhead
    then none
    else if leb max_plain0 fixed_plain0
    then none
    else some plan

-- The checks on the IPv4 header before that.
unfoldable pub split_plan : Mem → ℕ → ℕ → Option Cut
unfolding cut_at
split_plan pkt pkt_len l3_off =
    let ip_hdr_len = low_bits (pkt l3_off) 4 * 4 in
    let proto = pkt (l3_off + 9) in
    if not (shr (pkt l3_off) 4 == 4) || ltb ip_hdr_len 20 || ltb pkt_len (l3_off + ip_hdr_len)
    then none
    else if not (proto == 17) && not (proto == 1)
    then none
    else cut_at l3_off ip_hdr_len (pkt_len - l3_off - ip_hdr_len)

pub record Fragments : Type 0 where
  pub first : Mem
  pub first_len : ℕ
  pub second : Mem
  pub second_len : ℕ

-- The second fragment goes to `out`; the first replaces the packet. Its prefix is never missing,
-- since the IPv4 offset was found.
unfoldable pub split :
    {Ctx : Type 0} (S : Scrypt Ctx)
    → EpochSource
    → CryptoCtx
    → Mem
    → ℕ
    → ℕ
    → Mem
    → ℕ
    → Exec Fragments
unfolding Eth.ipv4_offset
split S src ctx pkt pkt_len frag0_max out frag1_max = do
  l3_off ← lift (Eth.ipv4_offset pkt pkt_len)
  cut ← lift (split_plan pkt pkt_len l3_off)
  stamp ← udp_tx_meta src
  et_off ← lift (Eth.l2_prefix_len pkt Eth.eth_l2_hdr_max)
  let from = l3_off + cut.frag0_plain_len
  (second, second_len) ←
      encrypt_fragment S ctx pkt from cut.half2 stamp kind_frag1 out frag1_max et_off
  et_off0 ← lift (Eth.l2_prefix_len pkt pkt_len)
  (first, first_len) ←
      encrypt_fragment0 S ctx pkt cut.frag0_plain_len stamp frag0_max et_off0 l3_off
  pure (record { first = first; first_len = first_len; second = second; second_len = second_len })
