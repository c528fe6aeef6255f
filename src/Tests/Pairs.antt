-- ===== src/Tests/Pairs.antt =====
-- Instances for fragments and for UDP frames.
use ne.Base.{ℕ, ◌+◌, ◌≡◌, refl, true, some, List, arith, Mem, slice, Agree}
use ne.L2.{Meta, EpochSource, udp_tx_meta}
use ne.L2.Encrypt.{do_encrypt_udp}
use ne.L2.Encrypt.Udp.{shimmed}
use ne.L2.Decrypt.{do_decrypt_udp}
use ne.L2.Decrypt.Stamped.{do_decrypt_udp-do_encrypt_udp}
use ne.L2.Table.{Entry, store_first, store_second, emit_join, waiting, joined, clear_entry}
use ne.L2.Table.Pair.{IsWhole, emit_join_reversed}
use ne.L2.Reassembly.{new_table, Tables, opt_table, reassemble_udp}
use ne.L2.Reassembly.Rejoin.{reassemble_udp-split}
use ne.L2.Split.{Fragments, split_plan, split}
use ne.Tests.Toy.{
  frame, frame_bytes, of_list-IsBytes, toy, ctx, worker, nonce, next_nonce, zeros, toy-Sealing,
  toy-later-Sealing,
}
use ne.Eth

abbrev stamp : Meta
stamp = record { epoch = 77; seq = 5; datagram_id = 6 }

abbrev free : Entry
free = new_table.entries 0

-- The frame is cut behind byte 42, and its first part comes 100 ns after the second.
emit_join_reversed_example :
    (e1 e2 : Entry) × (whole : Mem) × (store_second free stamp frame 42 4 500 ≡ some e1)
    × (emit_join e1 frame ≡ (e1, waiting))
    × (store_first e1 stamp frame 14 frame 14 28 600 ≡ some e2)
    × (emit_join e2 frame ≡ (clear_entry e2, joined whole (14 + 28 + 4)))
    × IsWhole frame frame 14 28 frame 42 4 whole
emit_join_reversed_example =
    emit_join_reversed frame frame 14 28 frame 42 4 free stamp 500 600 frame refl (omega arith)
      (omega arith)

abbrev src : EpochSource
src = record { random = some 1; tv_nsec = 0; tv_sec = 0; pid = 1; stored_meanwhile = 0 }

meta-worker : udp_tx_meta src worker ≡ (some stamp, worker)
unfolding udp_tx_meta
meta-worker = refl

frame-ip : Eth.ipv4_offset frame 46 ≡ some 14
unfolding Eth.ipv4_offset
frame-ip = refl

abbrev plain : List ℕ
plain = shimmed 2 stamp (slice frame 14 32)

do_decrypt_udp-do_encrypt_udp_example :
    (sealed : Mem) × ((do_encrypt_udp toy src ctx frame 46 worker).0 ≡ some (sealed, 46 + 46))
    × ((got : Mem) × (do_decrypt_udp toy true ctx sealed (46 + 46)
          ≡ some (record { packet = got; len = 46; kind = 2; stamp = stamp }))
        × Agree 46 got frame)
do_decrypt_udp-do_encrypt_udp_example =
    do_decrypt_udp-do_encrypt_udp toy src ctx frame 46 worker worker stamp nonce plain zeros
      (of_list-IsBytes frame_bytes refl) frame-ip (omega arith) meta-worker
      (record { epoch = omega arith; seq = omega arith; datagram_id = omega arith })
      (toy-Sealing plain)

-- The same frame cut behind byte 45, for a receiver with an empty table.
frame-plan : split_plan frame 46 14 ≡ some (record { frag0_plain_len = 31; half2 = 1 })
unfolding split_plan
frame-plan = refl

abbrev tables : Tables
tables w = some new_table

tables-opt : opt_table true tables 3 ≡ some new_table
unfolding opt_table
tables-opt = refl

reassemble_udp-split_example :
    (f : Fragments) × ((split toy src ctx frame 46 9014 (λ i. 0) 9014 worker).0 ≡ some f)
    × (let (ts1, r1) = reassemble_udp toy true true tables 3 ctx f.first f.first_len 500 (λ i. 0) in
        (r1 ≡ waiting)
        × ((whole : Mem) × ((reassemble_udp toy true true ts1 3 ctx f.second f.second_len 600
                (λ i. 0)).1
              ≡ joined whole 46)
            × Agree 46 whole frame))
reassemble_udp-split_example =
    reassemble_udp-split toy src ctx frame 46 31 1 9014 9014 (λ i. 0) worker worker stamp next_nonce
      (shimmed 0 stamp (slice frame 14 31)) zeros nonce (shimmed 1 stamp (slice frame 45 1)) zeros
      true tables 3 new_table 500 600 0 (λ i. 0) (λ i. 0) (of_list-IsBytes frame_bytes refl)
      frame-ip (omega arith) frame-plan meta-worker
      (record { epoch = omega arith; seq = omega arith; datagram_id = omega arith }) (omega arith)
      (omega arith) (toy-Sealing (shimmed 1 stamp (slice frame 45 1)))
      (toy-later-Sealing (shimmed 0 stamp (slice frame 14 31))) (omega arith) tables-opt
      (λ k p. refl) (omega arith) refl
