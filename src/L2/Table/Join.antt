-- ===== src/L2/Table/Join.antt =====
-- The join of two fragments in one entry.
use ne.Base.{
  ℕ, ◌+◌, ◌-◌, ◌≤◌, ◌<◌, ◌≡◌, ap, ap₂, Bool, true, false, not, ◌&&◌, ◌||◌, arith, ltb, ◌==◌,
  if◌then◌else◌, u32, Mem,
}
use ne.L2.{Meta}
use ne.L2.Table.{
  join_at, join_bytes, failed, Entry, clear_entry, prepare_entry, occupied, timed_out,
  same_datagram, waiting, joined, emit_join,
}

-- An entry that is free stays free of fragments when it is prepared.
pub prepare-free :
    (e : Entry) (stamp : Meta) (now : ℕ)
    → occupied e ≡ false
    → ((prepare_entry e stamp now).got_first ≡ false)
      × ((prepare_entry e stamp now).got_second ≡ false)
unfolding prepare_entry clear_entry
prepare-free e stamp now h = ground (arith, h)

abbrev pub stamped : Entry → Meta → ℕ → Entry
stamped e stamp now = record e {
  epoch = stamp.epoch;
  datagram_id = stamp.datagram_id;
  udp_seq = stamp.seq;
  timestamp_ns = now;
}

-- An entry of the same datagram that has not timed out is kept.
pub prepare-again :
    (e : Entry) (stamp : Meta) (now : ℕ)
    → e.epoch ≡ stamp.epoch
    → e.datagram_id ≡ stamp.datagram_id
    → e.udp_seq ≡ stamp.seq
    → timed_out now e ≡ false
    → prepare_entry e stamp now ≡ stamped e stamp now
unfolding prepare_entry
prepare-again e stamp now a b c t =
    let test : (not (same_datagram stamp e && e.udp_seq == stamp.seq) || timed_out now e) ≡ false =
      ground (arith, a, b, c, t) in
    ap (λ (b : Bool). stamped (if b then clear_entry e else e) stamp now) test

pub join_at-fits :
    (e : Entry) (out : Mem)
    → e.first_len + e.second_len + 14 ≤ 9216
    → join_at e out 14
      ≡ (clear_entry e, joined (join_bytes e out 14) (14 + e.first_len + e.second_len))
unfolding join_at
join_at-fits e out fits =
    let small : ltb 9216 (u32 (e.first_len + e.second_len + 14)) ≡ false = ground (arith, fits) in
    ap
      (λ (b : Bool).
        if b
        then (clear_entry e, failed)
        else (clear_entry e, joined (join_bytes e out 14) (14 + e.first_len + e.second_len)))
      small

pub emit_join-both :
    (e : Entry) (out : Mem)
    → e.got_first ≡ true
    → e.got_second ≡ true
    → e.eth_len ≡ 14
    → emit_join e out ≡ join_at e out 14
unfolding emit_join
emit_join-both e out f s l =
    let both : not (e.got_first && e.got_second) ≡ false = ground (arith, f, s) in
    let fourteen : (if e.eth_len == 0 then 14 else e.eth_len) ≡ 14 = ground (arith, l) in
    ap₂ (λ (b : Bool) n. if b then (e, waiting) else join_at e out n) both fourteen

pub emit_join-waits :
    (e : Entry) (out : Mem) → (e.got_first && e.got_second) ≡ false → emit_join e out ≡ (e, waiting)
unfolding emit_join
emit_join-waits e out h =
    ap
      (λ b.
        if not b then (e, waiting) else join_at e out (if e.eth_len == 0 then 14 else e.eth_len))
      h

-- The bytes of the joined frame.
pub join_bytes-header :
    (e : Entry) (out : Mem) (i : ℕ) → i < 12 → join_bytes e out 14 i ≡ e.eth_hdr i
unfolding join_bytes
join_bytes-header e out i h = ground arith

pub join_bytes-type :
    (e : Entry) (out : Mem) → (join_bytes e out 14 12 ≡ 8) × (join_bytes e out 14 13 ≡ 0)
unfolding join_bytes
join_bytes-type e out = (ground arith, ground arith)

pub join_bytes-first :
    (e : Entry) (out : Mem) (i : ℕ) → i < e.first_len → join_bytes e out 14 (14 + i) ≡ e.first i
unfolding join_bytes
join_bytes-first e out i h =
    ground (arith, ap e.first {x = 0 + (14 + i - 14)} {y = i} (omega arith))

pub join_bytes-second :
    (e : Entry) (out : Mem) (i : ℕ)
    → i < e.second_len
    → join_bytes e out 14 (14 + e.first_len + i) ≡ e.second i
unfolding join_bytes
join_bytes-second e out i h =
    ground (
      arith,
      ap e.second {x = 0 + (14 + e.first_len + i - (14 + e.first_len))} {y = i} (omega arith),
    )
