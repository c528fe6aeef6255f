-- ===== src/Tcp.antt =====
-- tcp_checksum_replace_word and crypto_tcp_clamp_mss of src/crypto/common/eth_parse.c: the maximum
-- segment size of a SYN is lowered, and the TCP checksum with it.
pub mod Sum
pub mod Walk
use ne.Base.{
  ℕ, zero, suc, ◌+◌, ◌-◌, ◌*◌, ◌%◌, ◌^◌, Bool, true, false, not, ◌&&◌, ◌||◌, Option, none, some,
  ltb, leb, ◌==◌, if◌then◌else◌, u8, u16, low_bits, shr, be16, Mem, poke,
}
use ne.Eth

-- The loop that folds the carries back; the sum of three words takes two rounds.
unfoldable pub fold_carries : ℕ → ℕ → ℕ
fold_carries zero sum = sum
fold_carries (suc fuel) sum =
    let rest = fold_carries fuel (low_bits sum 16 + shr sum 16) in
    if shr sum 16 == 0 then sum else rest

-- `~x & 0xFFFF` is `65535 - x` on 16 bits.
unfoldable pub replaced_sum : ℕ → ℕ → ℕ → ℕ
unfolding fold_carries
replaced_sum hc old_word new_word =
    u16 (65535 - fold_carries 3 ((65535 - hc) + (65535 - old_word) + new_word))

unfoldable pub replace_word : Mem → ℕ → ℕ → ℕ → Mem
unfolding replaced_sum
replace_word pkt tcp old_word new_word =
    let hc = replaced_sum (be16 (pkt (tcp + 16)) (pkt (tcp + 17))) old_word new_word in
    if old_word == new_word
    then pkt
    else poke (poke pkt (tcp + 16) (u8 (shr hc 8))) (tcp + 17) (low_bits hc 8)

-- The option of kind 2 at `off`: the new segment size, where it is less.
unfoldable pub lower_mss : Mem → ℕ → ℕ → ℕ → Mem × ℕ
unfolding replace_word
lower_mss pkt tcp off mss_cap =
    let old_mss = be16 (pkt (tcp + off + 2)) (pkt (tcp + off + 3)) in
    let new_mss = u16 mss_cap in
    let lowered =
      poke (poke pkt (tcp + off + 2) (u8 (shr new_mss 8))) (tcp + off + 3) (low_bits new_mss 8) in
    if ltb new_mss old_mss then (replace_word lowered tcp old_mss new_mss, 1) else (pkt, 0)

-- The walk over the options at `off`; it has no answer when its fuel is used up.
unfoldable pub walk : ℕ → Mem → ℕ → ℕ → ℕ → ℕ → Option (Mem × ℕ)
unfolding lower_mss
walk zero pkt tcp off opt_end mss_cap = none
walk (suc fuel) pkt tcp off opt_end mss_cap =
    let kind = pkt (tcp + off) in
    let olen = pkt (tcp + off + 1) in
    let nop = walk fuel pkt tcp (off + 1) opt_end mss_cap in
    let next = walk fuel pkt tcp (off + olen) opt_end mss_cap in
    if leb opt_end (off + 1)
    then some (pkt, 0)
    else if kind == 0
    then some (pkt, 0)
    else if kind == 1
    then nop
    else if ltb olen 2 || ltb opt_end (off + olen)
    then some (pkt, 0)
    else if kind == 2 && olen == 4 && leb (off + 4) opt_end
    then some (lower_mss pkt tcp off mss_cap)
    else next

-- The bound on the segment size.
unfoldable pub mss_cap_of : ℕ → ℕ
mss_cap_of cap =
    let raised = if ltb cap 536 then 536 else cap in if ltb 65535 raised then 65535 else raised

-- The checks behind the IPv4 header, and the walk, whose fuel is enough (Walk): 0 where the segment is no SYN.
unfoldable pub clamp_tcp : Mem → ℕ → ℕ → ℕ → ℕ → ℕ → Option (Mem × ℕ)
unfolding mss_cap_of walk
clamp_tcp pkt pkt_len l3_off ihl path_mtu wire_overhead =
    let tcp = l3_off + ihl in
    let data_off = low_bits (shr (pkt (tcp + 12)) 4) 4 * 4 in
    let mss_cap = mss_cap_of (path_mtu - ihl - 20 - wire_overhead) in
    if low_bits (shr (pkt (tcp + 13)) 1) 1 == 0
    then some (pkt, 0)
    else if ltb data_off 20 || ltb pkt_len (tcp + data_off)
    then none
    else if leb path_mtu (ihl + 20 + wire_overhead)
    then none
    else walk 40 pkt tcp 20 data_off mss_cap

-- The checks on the IPv4 header at `l3_off`.
unfoldable pub clamp_ip : Mem → ℕ → ℕ → ℕ → ℕ → Option (Mem × ℕ)
unfolding clamp_tcp
clamp_ip pkt pkt_len path_mtu wire_overhead l3_off =
    let ihl = low_bits (pkt l3_off) 4 * 4 in
    if ltb pkt_len (l3_off + 20)
    then none
    else if not (shr (pkt l3_off) 4 == 4)
    then none
    else if not (pkt (l3_off + 9) == 6)
    then none
    else if ltb ihl 20 || ltb pkt_len (l3_off + ihl + 20)
    then none
    else clamp_tcp pkt pkt_len l3_off ihl path_mtu wire_overhead

abbrev pub clamp_at : Mem → ℕ → ℕ → ℕ → Option ℕ → Option (Mem × ℕ)
clamp_at pkt pkt_len path_mtu wire_overhead none = none
clamp_at pkt pkt_len path_mtu wire_overhead (some l3_off) =
    clamp_ip pkt pkt_len path_mtu wire_overhead l3_off

-- crypto_tcp_clamp_mss
unfoldable pub clamp_mss : Mem → ℕ → ℕ → ℕ → Option (Mem × ℕ)
unfolding Eth.ipv4_offset clamp_ip
clamp_mss pkt pkt_len path_mtu wire_overhead =
    if ltb path_mtu 576
    then none
    else clamp_at pkt pkt_len path_mtu wire_overhead (Eth.ipv4_offset pkt pkt_len)
