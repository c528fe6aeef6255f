-- ===== src/Flow/Key.antt =====
-- The key of a flow, for a packet and for the reply to it.
use ne.Base.{ℕ, ◌-◌, ◌<◌, ◌≡◌, ◌≢◌, ◌⊎◌, true, Option, none, some, arith}
use native.Mathlib.Nat.{mod-lt}
use ne.Base.Bits.{bit_and-le}
use ne.Flow.{Tuple, RouteKey, key_from_tuple, key_equal, hash_to_n}

-- The tuple of a packet that goes the other way.
abbrev pub reply : Tuple → Tuple
reply t = record {
  src_ip = t.dst_ip;
  dst_ip = t.src_ip;
  src_port = t.dst_port;
  dst_port = t.src_port;
  proto = t.proto;
}

abbrev pub other_way : Option (RouteKey × ℕ) → Option (RouteKey × ℕ)
other_way none = none
other_way (some (k, d)) = some (k, 1 - d)

-- A packet and one that goes the other way have the same key, or both none, and opposite
-- directions, unless the two ends are the same.
pub key_from_tuple-reply :
    (t : Tuple)
    → (t.src_ip ≢ t.dst_ip) ⊎ (t.src_port ≢ t.dst_port)
    → key_from_tuple (reply t) ≡ other_way (key_from_tuple t)
unfolding key_from_tuple
key_from_tuple-reply t h = ground arith

pub key_equal_sound : (a b : RouteKey) → key_equal a b ≡ true → a ≡ b
unfolding key_equal
key_equal_sound a b h = ground arith

pub key_equal_refl : (a : RouteKey) → key_equal a a ≡ true
unfolding key_equal
key_equal_refl a = ground arith

-- The index that a hash gives is in range, whether by mask or by remainder.
pub hash_to_n-< : (hash n : ℕ) → 0 < n → hash_to_n hash n < n
unfolding hash_to_n
hash_to_n-< hash n h = ground (arith, mod-lt hash {m = n} h, bit_and-le hash (n - 1))
