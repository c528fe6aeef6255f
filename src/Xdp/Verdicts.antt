-- ===== src/Xdp/Verdicts.antt =====
-- What the two programs let through.
use ne.Base.{ℕ, ◌≤◌, ◌≡◌, ◌⊎◌, some, arith, leb, if◌then◌else◌, Mem, IsBytes}
use ne.Eth.{ipv4_offset, has_marker}
use ne.Xdp.{pass, drop, redirect, lan_redirect, wan_redirect}

-- A frame of the LAN that is redirected is one in which the encryptor finds the IPv4 header, is at
-- most 9014 bytes long, and carries ICMP, TCP, UDP or OSPF.
pub lan_redirect-ipv4 :
    (pkt : Mem) (data_len buff_len : ℕ)
    → lan_redirect pkt data_len buff_len ≡ redirect
    → (ipv4_offset pkt buff_len ≡ some 14)
      × (34 ≤ buff_len)
      × (buff_len ≤ 9014)
      × ((pkt 23 ≡ 1) ⊎ (pkt 23 ≡ 6) ⊎ (pkt 23 ≡ 17) ⊎ (pkt 23 ≡ 89))
unfolding lan_redirect ipv4_offset
lan_redirect-ipv4 pkt data_len buff_len h = ground arith

-- With the EtherType 0x104A configured, the frames of the WAN that are redirected are those with
-- a marker of at most 9014 bytes; a marked frame that is longer is dropped, all else is passed on.
pub wan_redirect_iff :
    (pkt : Mem) (data_len buff_len : ℕ)
    → IsBytes pkt
    → 14 ≤ data_len
    → data_len ≤ buff_len
    → wan_redirect (some 0x104A) pkt data_len buff_len
      ≡ (if has_marker pkt buff_len then (if leb buff_len 9014 then redirect else drop) else pass)
unfolding wan_redirect has_marker
wan_redirect_iff pkt data_len buff_len b h k = ground (arith, b 12, b 13)
