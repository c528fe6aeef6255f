-- ===== src/Tests/Wire.antt =====
-- Instances for the wire format: a frame of the toy cipher, a shim, a SYN.
use ne.Base.{
  ℕ, ◌+◌, ◌*◌, ◌%◌, ◌^◌, ◌≤◌, ◌≡◌, refl, ◌↔◌, true, some, List, [], ◌∷◌, arith, low_bits, Mem, poke,
  slice, Agree,
}
use ne.Eth.Laws.{parsers_local}
use ne.Crypto.{generate_nonce}
use ne.Crypto.Nonce.{after, IsReady, generate_nonce-repeats}
use ne.L2.{Meta}
use ne.L2.Shim.{write_shim, read_shim, IsWord, read-write_shim}
use ne.L2.Encrypt.{do_encrypt}
use ne.L2.Decrypt.{do_decrypt}
use ne.L2.Decrypt.Open.{do_decrypt-do_encrypt}
use ne.L2.Split.{Cut, split_plan}
use ne.L2.Split.Plan.{split_plan_fits}
use ne.Tests.Toy.{of_list, frame, toy, ctx, worker, nonce, zeros, toy-Sealing}
use ne.Eth

abbrev plain : List ℕ
plain = slice frame 12 34

frame-typed : Eth.inner_et_off frame 46 ≡ some 12
unfolding Eth.inner_et_off
frame-typed = refl

do_decrypt-do_encrypt_example :
    (sent : Mem) × ((do_encrypt toy ctx frame 46 worker).0 ≡ some (sent, 46 + 31))
    × ((got : Mem) × (do_decrypt toy true ctx sent (46 + 31) ≡ some (got, 46)) × Agree 46 got frame)
do_decrypt-do_encrypt_example =
    do_decrypt-do_encrypt toy ctx frame 46 worker nonce plain zeros (omega arith) frame-typed
      (toy-Sealing plain)

worker-IsReady : IsReady toy worker
worker-IsReady = (refl, refl)

generate_nonce-repeats_example :
    ((generate_nonce toy (after toy 1 worker)).0
      ≡ (generate_nonce toy (after toy 4294967297 worker)).0)
    ↔ (1 % 2 ^ 32 ≡ 4294967297 % 2 ^ 32)
generate_nonce-repeats_example =
    generate_nonce-repeats toy worker 1 4294967297 worker-IsReady (omega arith)

abbrev stamp : Meta
stamp = record { epoch = 77; seq = 5; datagram_id = 6 }

stamp-IsWord : IsWord stamp
stamp-IsWord = record { epoch = omega arith; seq = omega arith; datagram_id = omega arith }

read-write_shim_example : read_shim (write_shim frame 31 2 stamp) 31 ≡ some (2, stamp)
read-write_shim_example = read-write_shim frame 31 2 stamp (omega arith) stamp-IsWord

-- An ICMP frame of 9014 bytes, whose IPv4 header alone is not zero.
abbrev large : Mem
large = of_list (
    0 ∷ 0 ∷ 0 ∷ 0 ∷ 0 ∷ 0 ∷ 0 ∷ 0 ∷ 0 ∷ 0 ∷ 0 ∷ 0 ∷ 8 ∷ 0 ∷ 0x45 ∷ 0 ∷ 0 ∷ 0 ∷ 0 ∷ 0 ∷ 0 ∷ 0 ∷ 64
    ∷ 1 ∷ [])

abbrev cut : Cut
cut = record { frag0_plain_len = 8954; half2 = 46 }

plan-large : split_plan large 9014 14 ≡ some cut
unfolding split_plan
plan-large = refl

split_plan_fits_example :
    (cut.frag0_plain_len + cut.half2 + 14 ≡ 9014)
    × (28 ≤ cut.frag0_plain_len)
    × (20 ≤ low_bits (large 14) 4 * 4)
    × (low_bits (large 14) 4 * 4 + 8 ≤ cut.frag0_plain_len)
    × (1 ≤ cut.half2)
    × (cut.frag0_plain_len + 60 ≤ 9014)
    × (cut.half2 + 60 ≤ 9014)
split_plan_fits_example = split_plan_fits large 9014 cut (omega arith) plan-large

parsers_local_example :
    (Eth.ipv4_offset frame 46 ≡ Eth.ipv4_offset (poke frame 46 9) 46)
    × (Eth.has_marker frame 46 ≡ Eth.has_marker (poke frame 46 9) 46)
    × (Eth.core_id_off frame 46 ≡ Eth.core_id_off (poke frame 46 9) 46)
    × (Eth.read_worker_idx frame 46 ≡ Eth.read_worker_idx (poke frame 46 9) 46)
parsers_local_example = parsers_local frame (poke frame 46 9) 46 λ i h. ground arith
