-- ===== src/L2/Reassembly/Whole.antt =====
-- The two calls of l2_reassemble for the fragments of one datagram.
use ne.L2.Wire.{wire_prefix_len}
use ne.L2.Reassembly.{reassemble, reassemble_at, reassemble_first, reassemble_second, join_stored}
use ne.L2.Table.Pair.{emit_join_in_order, IsWhole}
use ne.L2.Table.Fresh.{IsFresh, pick_slot-IsFresh}
use ne.L2.Table.Pick.{waits, slots_differ, pick_slot_lem}
use ne.L2.Table.Probe.{cleaned}
use ne.L2.Table.{
  Entry, Table, occupied, timed_out, same_datagram, probe_base, probe_slot, pick_slot, put_entry,
  clear_entry, store_first, store_second, emit_join, join_at, prepare_entry, Joined, waiting,
  joined, failed,
}
use ne.L2.{Meta}
use ne.Base.{
  ℕ, ◌+◌, ◌-◌, ◌*◌, ◌≤◌, ◌<◌, ◌≡◌, refl, ap, ◌∙◌, Bool, true, false, not, ◌&&◌, ◌||◌, some, arith,
  ltb, ◌==◌, if◌then◌else◌, sub64, shr, low_bits, Mem,
}

some_inj : {A : Type 0} (x y : A) → some x ≡ some y → x ≡ y
some_inj x y e = cc

-- What is stored waits for the other fragment, for 200 ms.
stored-waits :
    (e e1 : Entry) (stamp : Meta) (eth : Mem) (eth_len : ℕ) (frame : Mem) (from len now1 now2 : ℕ)
    → store_first e stamp eth eth_len frame from len now1 ≡ some e1
    → sub64 now2 now1 ≤ 200000000
    → (waits now2 stamp e1 ≡ true) × (timed_out now2 e1 ≡ false)
unfolding store_first prepare_entry
stored-waits e e1 stamp eth eth_len frame from len now1 now2 s soon = ground (arith, s, soon)

-- An entry that waits does so whatever the output buffer holds.
waits_again :
    (e : Entry) (out out' : Mem) → emit_join e out ≡ (e, waiting) → emit_join e out' ≡ (e, waiting)
unfolding emit_join join_at
waits_again e out out' h = ground (arith, h)

put_back : Table → ℕ → Entry × Joined → Table × Joined
put_back t idx (e, r) = (put_entry t idx e, r)

quiet_waits : (x y z : Bool) → (x && y) ≡ false → (x && y && z) ≡ false
quiet_waits x y z h = ground (arith, h)

and_false : (x : Bool) → (x && false) ≡ false
and_false true = refl
and_false false = refl

-- The start of an IPv4 packet, as the first fragment must have it.
pub record IsHeader (m : Mem) (len : ℕ) : Type 0 where
  pub version : shr (m 14) 4 ≡ 4
  pub long : 20 ≤ low_bits (m 14) 4 * 4
  pub inside_len : low_bits (m 14) 4 * 4 ≤ len

-- Before the slot of the first fragment no fragment of the datagram waits.
quiet_before :
    (stamp : Meta) (now : ℕ) (t' : Table) (idx : ℕ) (e1 : Entry) (f : IsFresh stamp (t', idx))
    (k : ℕ)
    → k < f.probe
    → waits now stamp ((put_entry t' idx e1).entries (probe_slot stamp k)) ≡ false
quiet_before stamp now t' idx e1 f k p =
    let away = slots_differ (probe_base stamp) k f.probe p f.in_range in
    let there : (put_entry t' idx e1).entries (probe_slot stamp k)
        ≡ t'.entries (probe_slot stamp k) =
      ground (arith, f.slot, away) in
    let q = f.quiet k (omega (arith, p, f.in_range)) in
    ap (λ x. waits now stamp x) there
    ∙ quiet_waits (occupied (t'.entries (probe_slot stamp k)))
        (same_datagram stamp (t'.entries (probe_slot stamp k)))
        (not (timed_out now (t'.entries (probe_slot stamp k)))) q

module _ (stamp : Meta) (a b : Mem) (l1 l2 now1 now2 : ℕ) (out1 out2 : Mem)
    (prefix_a : wire_prefix_len a (14 + l1) ≡ some 14)
    (prefix_b : wire_prefix_len b (14 + l2) ≡ some 14) (header : IsHeader a l1)
    (fits : l1 + l2 + 14 ≤ 9216) (soon : sub64 now2 now1 ≤ 200000000) where
  first_stored :
      (t : Table) (idx : ℕ) (e1 : Entry)
      → store_first (t.entries idx) stamp a 14 a 14 l1 now1 ≡ some e1
      → emit_join e1 out1 ≡ (e1, waiting)
      → reassemble_first t idx stamp a 14 l1 now1 out1 ≡ (put_entry t idx e1, waiting)
  unfolding reassemble_first put_back
  first_stored t idx e1 s w =
      let c1 : (ltb l1 20 || not (shr (a 14) 4 == 4)) ≡ false = ground (arith, header) in
      let c2 : (ltb (low_bits (a 14) 4 * 4) 20 || ltb l1 (low_bits (a 14) 4 * 4)) ≡ false =
        ground (arith, header) in
      let kept = join_stored t idx (store_first (t.entries idx) stamp a 14 a 14 l1 now1) out1 in
      ap
        (λ c.
          if c
          then (t, failed)
          else (if ltb (low_bits (a 14) 4 * 4) 20 || ltb l1 (low_bits (a 14) 4 * 4)
              then (t, failed)
              else kept))
        c1
      ∙ ap (λ c. if c then (t, failed) else kept) c2
      ∙ ap (λ o. join_stored t idx o out1) s
      ∙ ap (put_back t idx) w

  second_stored :
      (t : Table) (idx : ℕ) (e1 e2 : Entry) (whole : Mem)
      → t.entries idx ≡ e1
      → timed_out now2 e1 ≡ false
      → store_second e1 stamp b 14 l2 now2 ≡ some e2
      → emit_join e2 out2 ≡ (clear_entry e2, joined whole (14 + l1 + l2))
      → (reassemble_second t idx stamp b 14 l2 now2 out2).1 ≡ joined whole (14 + l1 + l2)
  unfolding reassemble_second
  second_stored t idx e1 e2 whole at live s j =
      let e = t.entries idx in
      let c : (same_datagram stamp e && timed_out now2 e) ≡ false =
        ap (λ x. same_datagram stamp x && timed_out now2 x) at
        ∙ ap (λ x. same_datagram stamp e1 && x) live
        ∙ and_false (same_datagram stamp e1) in
      let kept : Bool → Entry = λ x. if x then clear_entry e else e in
      let ans : Entry → Joined =
        λ k. (join_stored (put_entry t idx k) idx (store_second k stamp b 14 l2 now2) out2).1 in
      ap (λ x. ans (kept x)) c
      ∙ ap ans at
      ∙ ap (λ o. (join_stored (put_entry t idx e1) idx o out2).1) s
      ∙ ap (λ (p : Entry × Joined). p.1) j

  -- The first call, for the slot that is picked.
  first_call :
      (t t' : Table) (idx : ℕ) (e1 : Entry)
      → pick_slot t stamp now1 ≡ (t', idx)
      → store_first (t'.entries idx) stamp a 14 a 14 l1 now1 ≡ some e1
      → emit_join e1 out1 ≡ (e1, waiting)
      → reassemble t a (14 + l1) stamp 0 now1 out1 ≡ (put_entry t' idx e1, waiting)
  unfolding reassemble reassemble_at
  first_call t t' idx e1 pick s w =
      let n : 14 + l1 - 14 ≡ l1 = omega arith in
      let g : ltb (14 + l1) 14 ≡ false = ground arith in
      ap (reassemble_at t a (14 + l1) stamp 0 now1 out1) prefix_a
      ∙ ap
          (λ c.
            if c
            then (t, failed)
            else reassemble_first (pick_slot t stamp now1).0 (pick_slot t stamp now1).1 stamp a 14
                (14 + l1 - 14) now1 out1)
          g
      ∙ ap
          (λ k.
            reassemble_first (pick_slot t stamp now1).0 (pick_slot t stamp now1).1 stamp a 14 k now1
              out1)
          n
      ∙ ap (λ (p : Table × ℕ). reassemble_first p.0 p.1 stamp a 14 l1 now1 out1) pick
      ∙ first_stored t' idx e1 s w

  second_call :
      (t t' : Table) (idx : ℕ) (e1 e2 : Entry) (whole : Mem)
      → pick_slot t stamp now2 ≡ (t', idx)
      → t'.entries idx ≡ e1
      → timed_out now2 e1 ≡ false
      → store_second e1 stamp b 14 l2 now2 ≡ some e2
      → emit_join e2 out2 ≡ (clear_entry e2, joined whole (14 + l1 + l2))
      → (reassemble t b (14 + l2) stamp 1 now2 out2).1 ≡ joined whole (14 + l1 + l2)
  unfolding reassemble reassemble_at
  second_call t t' idx e1 e2 whole pick at live s j =
      let n : 14 + l2 - 14 ≡ l2 = omega arith in
      let g : ltb (14 + l2) 14 ≡ false = ground arith in
      let r =
        ap (reassemble_at t b (14 + l2) stamp 1 now2 out2) prefix_b
        ∙ ap
            (λ c.
              if c
              then (t, failed)
              else reassemble_second (pick_slot t stamp now2).0 (pick_slot t stamp now2).1 stamp b
                  14 (14 + l2 - 14) now2 out2)
            g
        ∙ ap
            (λ k.
              reassemble_second (pick_slot t stamp now2).0 (pick_slot t stamp now2).1 stamp b 14 k
                now2 out2)
            n
        ∙ ap (λ (p : Table × ℕ). reassemble_second p.0 p.1 stamp b 14 l2 now2 out2) pick in
      ap (λ (p : Table × Joined). p.1) r ∙ second_stored t' idx e1 e2 whole at live s j

  -- The entry of the first fragment is found by the second.
  found_again :
      (t' : Table) (idx : ℕ) (e1 : Entry)
      → (f : IsFresh stamp (t', idx)) → waits now2 stamp e1 ≡ true
      → ((pick_slot (put_entry t' idx e1) stamp now2).1 ≡ probe_slot stamp f.probe)
        × ((pick_slot (put_entry t' idx e1) stamp now2).0.entries (probe_slot stamp f.probe) ≡ e1)
  found_again t' idx e1 f live =
      let t1 = put_entry t' idx e1 in
      let here : t1.entries (probe_slot stamp f.probe) ≡ e1 = ground (arith, f.slot) in
      let (slot, entry) =
        pick_slot_lem t1 stamp now2 f.probe f.in_range (ap (λ x. waits now2 stamp x) here ∙ live)
          (λ k p. quiet_before stamp now2 t' idx e1 f k p) in
      (slot, entry ∙ here)

  -- Two fragments, both with a wire prefix of 14 bytes, of which the first begins with an IPv4 header
  -- that it holds, and which make a frame of at most 9216 bytes with its Ethernet header: when no
  -- fragment of the datagram waits in its eight slots and one of them is free or has timed out, the
  -- first fragment waits, and the second, at most 200 ms later, gives the whole frame: its length, the
  -- addresses, the type IPv4, and all bytes of both fragments.
  pub reassemble_in_order :
      (t : Table) (j : ℕ)
      → ((k : ℕ) → k < 8 → waits now1 stamp (t.entries (probe_slot stamp k)) ≡ false)
      → j < 8
      → occupied (cleaned now1 (t.entries (probe_slot stamp j))) ≡ false
      → let (t1, r1) = reassemble t a (14 + l1) stamp 0 now1 out1 in
        (r1 ≡ waiting)
        × ((whole : Mem) × ((reassemble t1 b (14 + l2) stamp 1 now2 out2).1
              ≡ joined whole (14 + l1 + l2))
            × IsWhole a a 14 l1 b 14 l2 whole)
  reassemble_in_order t j none_waits lt free =
      let (t', idx) = pick_slot t stamp now1 in
      let f = pick_slot-IsFresh t stamp now1 j none_waits lt free in
      let free' : occupied (t'.entries idx) ≡ false =
        ap (λ k. occupied (t'.entries k)) f.slot ∙ f.free in
      let (e1, e2, whole, s1, w1, s2, j2, good) =
        emit_join_in_order a a 14 l1 b 14 l2 (t'.entries idx) stamp now1 now2 out2 free' fits
          soon in
      let (live, timely) = stored-waits (t'.entries idx) e1 stamp a 14 a 14 l1 now1 now2 s1 soon in
      let one = first_call t t' idx e1 refl s1 (waits_again e1 out2 out1 w1) in
      let t1 = put_entry t' idx e1 in
      let (slot, entry) = found_again t' idx e1 f live in
      let t2 = (pick_slot t1 stamp now2).0 in
      let two =
        second_call t1 t2 (pick_slot t1 stamp now2).1 e1 e2 whole refl
          (ap (λ k. t2.entries k) slot ∙ entry) timely s2 j2 in
      (
        ap (λ (p : Table × Joined). p.1) one,
        (
          whole,
          ap (λ (p : Table × Joined). (reassemble p.0 b (14 + l2) stamp 1 now2 out2).1) one ∙ two,
          good,
        ),
      )
