-- ===== src/Tcp/Sum.antt =====
-- The update of the checksum, and RFC 1624.
use ne.Base.{ℕ, ◌+◌, ◌-◌, ◌%◌, ◌<◌, ◌≡◌, ◌≢◌, arith, be16, Mem, IsBytes}
use ne.Tcp.{fold_carries, replaced_sum, replace_word}

fold_carries_lem :
    (sum : ℕ)
    → sum < 196608
    → (fold_carries 3 sum < 65536) × (fold_carries 3 sum % 65535 ≡ sum % 65535)
unfolding fold_carries
fold_carries_lem sum h = ground arith

replaced_sum_lem :
    (hc old_word new_word : ℕ)
    → hc < 65536
    → old_word < 65536
    → new_word < 65536
    → (replaced_sum hc old_word new_word < 65536)
      × ((replaced_sum hc old_word new_word + new_word) % 65535 ≡ (hc + old_word) % 65535)
unfolding replaced_sum
replaced_sum_lem hc old_word new_word h o n =
    omega (arith, fold_carries_lem ((65535 - hc) + (65535 - old_word) + new_word) (omega arith))

-- When one 16-bit word of a segment is replaced by another, the old checksum and the old word add
-- up to the same as the new ones, in the arithmetic of ones' complement.
pub replace_word-sum :
    (pkt : Mem) (tcp old_word new_word : ℕ)
    → IsBytes pkt
    → old_word < 65536
    → new_word < 65536
    → old_word ≢ new_word
    → (be16
            (replace_word pkt tcp old_word new_word (tcp + 16))
            (replace_word pkt tcp old_word new_word (tcp + 17))
          + new_word)
        % 65535
      ≡ (be16 (pkt (tcp + 16)) (pkt (tcp + 17)) + old_word) % 65535
unfolding replace_word
replace_word-sum pkt tcp old_word new_word b o n ne =
    let lem =
      replaced_sum_lem (be16 (pkt (tcp + 16)) (pkt (tcp + 17))) old_word new_word
        (omega (arith, b (tcp + 16), b (tcp + 17))) o n in
    ground (arith, lem)
