-- ===== src/Tests/Fragments.antt =====
-- Two fragments of one datagram, and the table that receives them.
use ne.Base.{◌+◌, ◌≡◌, refl, some, [], ◌∷◌, arith, Mem}
use ne.L2.{Meta}
use ne.L2.Wire.{wire_prefix_len}
use ne.L2.Table.{waiting, joined}
use ne.L2.Table.Pair.{IsWhole}
use ne.L2.Reassembly.{reassemble, new_table}
use ne.L2.Reassembly.Whole.{IsHeader, reassemble_in_order}
use ne.Tests.Toy.{of_list}

abbrev stamp : Meta
stamp = record { epoch = 77; seq = 5; datagram_id = 6 }

-- The first fragment: the addresses, the encrypted type, and an IPv4 header with a UDP header.
abbrev first : Mem
first = of_list (
    1 ∷ 2 ∷ 3 ∷ 4 ∷ 5 ∷ 6 ∷ 7 ∷ 8 ∷ 9 ∷ 10 ∷ 11 ∷ 12 ∷ 0x10 ∷ 0x4B ∷ 0x45 ∷ 0 ∷ 0 ∷ 32 ∷ 0 ∷ 0 ∷ 0
    ∷ 0 ∷ 64 ∷ 17 ∷ [])

-- The second: four bytes of the application.
abbrev second : Mem
second =
    of_list
      (1 ∷ 2 ∷ 3 ∷ 4 ∷ 5 ∷ 6 ∷ 7 ∷ 8 ∷ 9 ∷ 10 ∷ 11 ∷ 12 ∷ 0x10 ∷ 0x4B ∷ 21 ∷ 22 ∷ 23 ∷ 24 ∷ [])

first-prefix : wire_prefix_len first 42 ≡ some 14
unfolding wire_prefix_len
first-prefix = refl

second-prefix : wire_prefix_len second 18 ≡ some 14
unfolding wire_prefix_len
second-prefix = refl

first-IsHeader : IsHeader first 28
first-IsHeader = record { version = refl; long = omega arith; inside_len = omega arith }

reassemble_in_order_example :
    let (t1, r1) = reassemble new_table first 42 stamp 0 500 (λ i. 0) in
    (r1 ≡ waiting)
    × ((whole : Mem) × ((reassemble t1 second 18 stamp 1 600 (λ i. 0)).1
          ≡ joined whole (14 + 28 + 4))
        × IsWhole first first 14 28 second 14 4 whole)
reassemble_in_order_example =
    reassemble_in_order stamp first second 28 4 500 600 (λ i. 0) (λ i. 0) first-prefix second-prefix
      first-IsHeader (omega arith) (omega arith) new_table 0 (λ k p. refl) (omega arith) refl
