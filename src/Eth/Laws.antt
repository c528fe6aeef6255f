-- ===== src/Eth/Laws.antt =====
-- What the parsers of eth_parse.c accept, and how far they read.
use ne.Base.{ℕ, ◌≤◌, ◌≡◌, ◌↔◌, some, arith, Mem, Agree}
use ne.Eth.{read_et, ipv4_offset, has_marker, core_id_off, read_worker_idx}

-- An IPv4 offset is found exactly in an untagged IPv4 frame of at least 34 bytes, and it is 14.
pub ipv4_offset_iff :
    (pkt : Mem) (n o : ℕ)
    → (ipv4_offset pkt n ≡ some o) ↔ ((o ≡ 14) × (34 ≤ n) × (read_et pkt 12 ≡ 0x0800))
unfolding ipv4_offset read_et
ipv4_offset_iff pkt n o = ground arith

-- What the parsers answer depends on the first `n` bytes alone.
pub parsers_local :
    (pkt pkt' : Mem) (n : ℕ)
    → Agree n pkt pkt'
    → (ipv4_offset pkt n ≡ ipv4_offset pkt' n)
      × (has_marker pkt n ≡ has_marker pkt' n)
      × (core_id_off pkt n ≡ core_id_off pkt' n)
      × (read_worker_idx pkt n ≡ read_worker_idx pkt' n)
unfolding ipv4_offset read_worker_idx
parsers_local pkt pkt' n h = ground (arith, h 12, h 13, h 14)
