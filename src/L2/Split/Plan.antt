-- ===== src/L2/Split/Plan.antt =====
-- Where a frame is cut, and how long its fragments are on the wire.
use ne.L2.Split.{Cut, split_plan}
use ne.Base.{ℕ, ◌+◌, ◌*◌, ◌≤◌, ◌≡◌, some, arith, low_bits, Mem}

-- A frame of at most 9014 bytes that is cut gives two fragments with at least one byte each. The
-- first has the IPv4 header, with its options, and the 8 bytes of the UDP or ICMP header behind it;
-- together they carry the whole of L3; and with the 60 bytes of wire header, shim and tag each
-- stays within 9014 bytes.
pub split_plan_fits :
    (pkt : Mem) (n : ℕ) (cut : Cut)
    → n ≤ 9014
    → split_plan pkt n 14 ≡ some cut
    → (cut.frag0_plain_len + cut.half2 + 14 ≡ n)
      × (28 ≤ cut.frag0_plain_len)
      × (20 ≤ low_bits (pkt 14) 4 * 4)
      × (low_bits (pkt 14) 4 * 4 + 8 ≤ cut.frag0_plain_len)
      × (1 ≤ cut.half2)
      × (cut.frag0_plain_len + 60 ≤ 9014)
      × (cut.half2 + 60 ≤ 9014)
unfolding split_plan
split_plan_fits pkt n cut h e = ground arith
