-- ===== src/Eth.antt =====
-- src/crypto/common/eth_parse.c (declared in inc/crypto/eth_parse.h): where the EtherType of a
-- frame stands, and what kind of frame it is. An offset of -1 is `none`; pointers are not NULL.
pub mod Laws
use ne.Base.{
  ℕ, ◌+◌, ◌<◌, Bool, true, false, not, ◌&&◌, ◌||◌, Option, none, some, ltb, leb, ◌==◌,
  if◌then◌else◌, ◌>>=◌, ◌>>◌, check, Mem, poke, be16, u16,
}

abbrev pub eth_p_ip : ℕ
eth_p_ip = 0x0800

-- NE_L2_FAKE_ETHERTYPE, NE_L2_FAKE_ETHERTYPE_UDP
abbrev pub fake_ethertype : ℕ
fake_ethertype = 0x104A

abbrev pub fake_ethertype_udp : ℕ
fake_ethertype_udp = 0x104B

abbrev pub eth_header_size : ℕ
eth_header_size = 14

abbrev pub eth_l2_hdr_max : ℕ
eth_l2_hdr_max = 18

unfoldable pub read_et : Mem → ℕ → ℕ
read_et pkt off = u16 (be16 (pkt off) (pkt (off + 1)))

unfoldable pub match_et : ℕ → ℕ → ℕ → Bool
match_et et target fake = et == target || not (fake == 0) && et == fake

unfoldable pub inner_et_off : Mem → ℕ → Option ℕ
unfolding read_et match_et
inner_et_off pkt pkt_len =
    if ltb pkt_len 14
    then none
    else let et = read_et pkt 12 in
      if match_et et eth_p_ip fake_ethertype || et == fake_ethertype_udp then some 12 else none

unfoldable pub ipv4_offset : Mem → ℕ → Option ℕ
unfolding inner_et_off
ipv4_offset pkt pkt_len = do
  et_off ← inner_et_off pkt pkt_len
  check (read_et pkt et_off == eth_p_ip)
  check (leb (et_off + 2 + 20) pkt_len)
  some (et_off + 2)

unfoldable pub l2_prefix_len : Mem → ℕ → Option ℕ
unfolding inner_et_off
l2_prefix_len pkt pkt_len = inner_et_off pkt pkt_len

unfoldable pub is_ipv4 : Mem → ℕ → Bool
unfolding ipv4_offset
is_ipv4 pkt pkt_len = elim (ipv4_offset pkt pkt_len) [ none ↦ false | some _ ↦ true ]

unfoldable pub set_ipv4_et : Mem → ℕ → Mem
set_ipv4_et pkt off = poke (poke pkt off 0x08) (off + 1) 0x00

unfoldable pub has_marker : Mem → ℕ → Bool
unfolding inner_et_off
has_marker pkt pkt_len = elim (inner_et_off pkt pkt_len) [
  | none ↦ false
  | some off ↦ read_et pkt off == fake_ethertype || read_et pkt off == fake_ethertype_udp
]

unfoldable pub core_id_off : Mem → ℕ → Option ℕ
unfolding inner_et_off
core_id_off pkt pkt_len = do
  off ← inner_et_off pkt pkt_len
  check (leb (off + 3) pkt_len)
  some (off + 2)

unfoldable pub frag_magic_off : Mem → ℕ → ℕ → Option ℕ
unfolding core_id_off
frag_magic_off pkt pkt_len nonce_size = do
  off ← core_id_off pkt pkt_len
  check (leb (off + 1 + nonce_size) pkt_len)
  some (off + 1 + nonce_size)

unfoldable pub read_worker_idx : Mem → ℕ → Option ℕ
unfolding has_marker core_id_off
read_worker_idx pkt pkt_len = do
  check (has_marker pkt pkt_len)
  off ← core_id_off pkt pkt_len
  some (pkt off)
