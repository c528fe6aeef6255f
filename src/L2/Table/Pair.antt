-- ===== src/L2/Table/Pair.antt =====
-- Two fragments of a datagram that are stored in one entry, in either order.
use ne.Base.{
  ℕ, ◌+◌, ◌-◌, ◌≤◌, ◌<◌, ◌≡◌, refl, sym, ap, ◌∙◌, Bool, true, false, ◌&&◌, none, some, arith, ltb,
  if◌then◌else◌, sub64, Mem, copy,
}
use ne.L2.Table.Join.{
  prepare-free, emit_join-waits, prepare-again, stamped, join_at-fits, emit_join-both,
  join_bytes-header, join_bytes-type, join_bytes-first, join_bytes-second,
}
use ne.L2.Table.{
  waiting, occupied, Entry, clear_entry, prepare_entry, store_first, store_second, joined,
  emit_join, join_bytes,
}
use ne.L2.{Meta}

-- The frame that is cut in two: 14 bytes of Ethernet header, and the two parts behind it.
module _ (eth first : Mem) (from1 l1 : ℕ) (second : Mem) (from2 l2 : ℕ) where
  -- A buffer with the addresses of the header, the type IPv4, and both parts.
  pub record IsWhole (m : Mem) : Type 0 where
    pub addresses : (i : ℕ) → i < 12 → m i ≡ eth i
    pub type_high : m 12 ≡ 8
    pub type_low : m 13 ≡ 0
    pub first_part : (i : ℕ) → i < l1 → m (14 + i) ≡ first (from1 + i)
    pub second_part : (i : ℕ) → i < l2 → m (14 + l1 + i) ≡ second (from2 + i)

  -- An entry with both parts.
  record IsFull (e : Entry) : Type 0 where
    got_first : e.got_first ≡ true
    got_second : e.got_second ≡ true
    eth_len : e.eth_len ≡ 14
    first_len : e.first_len ≡ l1
    second_len : e.second_len ≡ l2
    header : (i : ℕ) → i < 12 → e.eth_hdr i ≡ eth i
    first_bytes : (i : ℕ) → i < l1 → e.first i ≡ first (from1 + i)
    second_bytes : (i : ℕ) → i < l2 → e.second i ≡ second (from2 + i)

  full-join :
      (e : Entry) (out : Mem)
      → IsFull e
      → l1 + l2 + 14 ≤ 9216
      → (whole : Mem) × (emit_join e out ≡ (clear_entry e, joined whole (14 + l1 + l2)))
        × IsWhole whole
  full-join e out h fits =
      let n : 14 + e.first_len + e.second_len ≡ 14 + l1 + l2 =
        omega (arith, h.first_len, h.second_len) in
      (
        join_bytes e out 14,
        emit_join-both e out h.got_first h.got_second h.eth_len
            ∙ join_at-fits e out (omega (arith, h.first_len, h.second_len))
            ∙ ap (λ k. (clear_entry e, joined (join_bytes e out 14) k)) n,
        record {
          addresses = λ i p. join_bytes-header e out i p ∙ h.header i p;
          type_high = (join_bytes-type e out).0;
          type_low = (join_bytes-type e out).1;
          first_part =
              λ i p. join_bytes-first e out i (omega (arith, h.first_len)) ∙ h.first_bytes i p;
          second_part = λ i p.
              ap (λ k. join_bytes e out 14 (14 + k + i)) (sym h.first_len)
              ∙ join_bytes-second e out i (omega (arith, h.second_len))
              ∙ h.second_bytes i p;
        },
      )

  -- The entries that the two stores make of a prepared one.
  with_first : Entry → Entry
  with_first p = record p {
    first_len = l1;
    first = copy p.first 0 first from1 l1;
    eth_hdr = copy p.eth_hdr 0 eth 0 14;
    eth_len = 14;
    got_first = true;
  }

  with_second : Entry → Entry
  with_second p = record p {
    second_len = l2;
    second = copy p.second 0 second from2 l2;
    got_second = true;
  }

  store_first-eq :
      (e : Entry) (stamp : Meta) (now : ℕ)
      → l1 ≤ 9216
      → store_first e stamp eth 14 first from1 l1 now
        ≡ some (with_first (prepare_entry e stamp now))
  unfolding store_first with_first
  store_first-eq e stamp now h =
      let small : ltb 9216 l1 ≡ false = ground (arith, h) in
      ap (λ (b : Bool). if b then none else some (with_first (prepare_entry e stamp now))) small

  store_second-eq :
      (e : Entry) (stamp : Meta) (now : ℕ)
      → l2 ≤ 9216
      → store_second e stamp second from2 l2 now ≡ some (with_second (prepare_entry e stamp now))
  unfolding store_second with_second
  store_second-eq e stamp now h =
      let small : ltb 9216 l2 ≡ false = ground (arith, h) in
      ap (λ (b : Bool). if b then none else some (with_second (prepare_entry e stamp now))) small

  -- Both stores, the one after the other, fill the entry.
  second_on_first :
      (p : Entry) (stamp : Meta) (now : ℕ) → IsFull (with_second (stamped (with_first p) stamp now))
  unfolding with_first with_second
  second_on_first p stamp now = record {
    got_first = refl;
    got_second = refl;
    eth_len = refl;
    first_len = refl;
    second_len = refl;
    header = λ i h. ground (arith, ap eth {x = 0 + (i - 0)} {y = i} (omega arith));
    first_bytes =
        λ i h. ground (arith, ap first {x = from1 + (i - 0)} {y = from1 + i} (omega arith));
    second_bytes =
        λ i h. ground (arith, ap second {x = from2 + (i - 0)} {y = from2 + i} (omega arith));
  }

  first_on_second :
      (p : Entry) (stamp : Meta) (now : ℕ) → IsFull (with_first (stamped (with_second p) stamp now))
  unfolding with_first with_second
  first_on_second p stamp now = record {
    got_first = refl;
    got_second = refl;
    eth_len = refl;
    first_len = refl;
    second_len = refl;
    header = λ i h. ground (arith, ap eth {x = 0 + (i - 0)} {y = i} (omega arith));
    first_bytes =
        λ i h. ground (arith, ap first {x = from1 + (i - 0)} {y = from1 + i} (omega arith));
    second_bytes =
        λ i h. ground (arith, ap second {x = from2 + (i - 0)} {y = from2 + i} (omega arith));
  }

  module _ (e : Entry) (stamp : Meta) (now1 now2 : ℕ) (out : Mem) (free : occupied e ≡ false)
      (fits : l1 + l2 + 14 ≤ 9216) (soon : sub64 now2 now1 ≤ 200000000) where
    first-again :
        prepare_entry (with_first (prepare_entry e stamp now1)) stamp now2
        ≡ stamped (with_first (prepare_entry e stamp now1)) stamp now2
    unfolding prepare_entry with_first
    first-again =
        prepare-again (with_first (prepare_entry e stamp now1)) stamp now2 refl refl refl
          (ground (arith, soon))

    second-again :
        prepare_entry (with_second (prepare_entry e stamp now1)) stamp now2
        ≡ stamped (with_second (prepare_entry e stamp now1)) stamp now2
    unfolding prepare_entry with_second
    second-again =
        prepare-again (with_second (prepare_entry e stamp now1)) stamp now2 refl refl refl
          (ground (arith, soon))

    -- In a free entry the first fragment waits for the second, and when that comes at most 200 ms
    -- later they are joined to the whole frame, if that has at most 9216 bytes with its Ethernet
    -- header of 14: its addresses, the type IPv4, and all bytes of both fragments.
    pub emit_join_in_order :
        (e1 e2 : Entry) × (whole : Mem) × (store_first e stamp eth 14 first from1 l1 now1 ≡ some e1)
        × (emit_join e1 out ≡ (e1, waiting))
        × (store_second e1 stamp second from2 l2 now2 ≡ some e2)
        × (emit_join e2 out ≡ (clear_entry e2, joined whole (14 + l1 + l2)))
        × IsWhole whole
    unfolding with_first
    emit_join_in_order =
        let e1 = with_first (prepare_entry e stamp now1) in
        let e2 = with_second (stamped e1 stamp now2) in
        let (whole, joins, bytes) =
          full-join e2 out (second_on_first (prepare_entry e stamp now1) stamp now2) fits in
        (
          e1,
          e2,
          whole,
          store_first-eq e stamp now1 (omega arith),
          emit_join-waits e1 out (prepare-free e stamp now1 free).1,
          store_second-eq e1 stamp now2 (omega arith) ∙ ap (λ p. some (with_second p)) first-again,
          joins,
          bytes,
        )

    -- In a free entry the second fragment waits for the first, and when that comes at most 200 ms
    -- later they are joined to the whole frame, if that has at most 9216 bytes with its Ethernet
    -- header of 14: its addresses, the type IPv4, and all bytes of both fragments.
    pub emit_join_reversed :
        (e1 e2 : Entry) × (whole : Mem) × (store_second e stamp second from2 l2 now1 ≡ some e1)
        × (emit_join e1 out ≡ (e1, waiting))
        × (store_first e1 stamp eth 14 first from1 l1 now2 ≡ some e2)
        × (emit_join e2 out ≡ (clear_entry e2, joined whole (14 + l1 + l2)))
        × IsWhole whole
    unfolding with_second
    emit_join_reversed =
        let e1 = with_second (prepare_entry e stamp now1) in
        let e2 = with_first (stamped e1 stamp now2) in
        let (whole, joins, bytes) =
          full-join e2 out (first_on_second (prepare_entry e stamp now1) stamp now2) fits in
        (
          e1,
          e2,
          whole,
          store_second-eq e stamp now1 (omega arith),
          emit_join-waits e1 out (ap (λ b. b && true) (prepare-free e stamp now1 free).0),
          store_first-eq e1 stamp now2 (omega arith) ∙ ap (λ p. some (with_first p)) second-again,
          joins,
          bytes,
        )
