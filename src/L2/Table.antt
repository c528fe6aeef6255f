-- ===== src/L2/Table.antt =====
-- The reassembly table of a worker: opt_clear_entry, opt_prepare_entry, opt_pick_slot, opt_store_first,
-- opt_store_second, opt_emit_join and opt_frag_gc_table. The table is the function from a slot to its
-- entry; times are the monotonic clock's nanoseconds in 64 bits.
pub mod Gc
pub mod Pick
pub mod Join
pub mod Pair
pub mod Fresh
pub mod Probe
use ne.Base.{
  ℕ, zero, suc, ◌+◌, ◌-◌, ◌*◌, ◌%◌, ◌^◌, Bool, true, false, not, ◌&&◌, ◌||◌, Option, none, some,
  ltb, leb, ◌==◌, if◌then◌else◌, u32, sub64, bit_xor, Mem, copy,
}
use ne.L2.{Meta, jumbo_frame_max}
use ne.Eth

-- L2_FRAG_TABLE_SIZE, L2_FRAG_TIMEOUT_NS
abbrev pub frag_table_size : ℕ
frag_table_size = 256

abbrev pub frag_timeout_ns : ℕ
frag_timeout_ns = 200000000

-- struct opt_entry
pub record Entry : Type 0 where
  pub epoch : ℕ
  pub datagram_id : ℕ
  pub udp_seq : ℕ
  pub first_len : ℕ
  pub second_len : ℕ
  pub timestamp_ns : ℕ
  pub eth_hdr : Mem
  pub eth_len : ℕ
  pub got_first : Bool
  pub got_second : Bool
  pub first : Mem
  pub second : Mem

-- struct opt_table
pub record Table : Type 0 where
  pub gc_cursor : ℕ
  pub entries : ℕ → Entry

unfoldable pub clear_entry : Entry → Entry
clear_entry e = record e {
  epoch = 0;
  datagram_id = 0;
  udp_seq = 0;
  first_len = 0;
  second_len = 0;
  timestamp_ns = 0;
  eth_len = 0;
  got_first = false;
  got_second = false;
}

abbrev pub put_entry : Table → ℕ → Entry → Table
put_entry t i e = record t { entries = λ j. if j == i then e else t.entries j }

abbrev pub occupied : Entry → Bool
occupied e = e.got_first || e.got_second

-- `occupied && (now - e->timestamp_ns) > L2_FRAG_TIMEOUT_NS`
abbrev pub timed_out : ℕ → Entry → Bool
timed_out now e = occupied e && ltb frag_timeout_ns (sub64 now e.timestamp_ns)

abbrev pub same_datagram : Meta → Entry → Bool
same_datagram stamp e = e.epoch == stamp.epoch && e.datagram_id == stamp.datagram_id

unfoldable pub prepare_entry : Entry → Meta → ℕ → Entry
unfolding clear_entry
prepare_entry e stamp now =
    let kept =
      if not (same_datagram stamp e && e.udp_seq == stamp.seq) || timed_out now e
      then clear_entry e
      else e in
    record kept {
      epoch = stamp.epoch;
      datagram_id = stamp.datagram_id;
      udp_seq = stamp.seq;
      timestamp_ns = now;
    }

-- `base`, the first of the eight slots that are probed
unfoldable pub probe_base : Meta → ℕ
probe_base stamp = bit_xor stamp.datagram_id (u32 (stamp.epoch * 0x9e3779b9)) % frag_table_size

abbrev pub probe_slot : Meta → ℕ → ℕ
probe_slot stamp i = (probe_base stamp + i) % frag_table_size

-- What the probe has found so far: the first free slot, and the oldest live one with its age.
pub record Seen : Type 0 where
  pub empty_idx : Option ℕ
  pub oldest_idx : Option ℕ
  pub oldest_age : ℕ

abbrev pub note_empty : Seen → ℕ → Seen
note_empty seen idx = record seen {
  empty_idx = elim seen.empty_idx [ none ↦ some idx | some j ↦ some j ];
}

abbrev pub note_live : Seen → ℕ → ℕ → Seen
note_live seen idx age = elim seen.oldest_idx [
  | none ↦ record seen { oldest_idx = some idx; oldest_age = age }
  | some j ↦
      if ltb seen.oldest_age age
      then record seen { oldest_idx = some idx; oldest_age = age }
      else seen
]

abbrev pub choose : Seen → ℕ → ℕ
choose seen base = elim seen.empty_idx [
  | some idx ↦ idx
  | none ↦ elim seen.oldest_idx [ some idx ↦ idx | none ↦ base ]
]

-- The table with the entry of a slot cleared, if it has timed out.
pub expire : Table → ℕ → ℕ → Table
unfolding clear_entry
expire t idx now =
    if timed_out now (t.entries idx) then put_entry t idx (clear_entry (t.entries idx)) else t

-- The loop at probe `i` with `left` probes to go.
pub pick_loop : ℕ → ℕ → Table → Meta → ℕ → Seen → Table × ℕ
pick_loop zero i t stamp now seen = (t, choose seen (probe_base stamp))
pick_loop (suc left) i t stamp now seen =
    let idx = probe_slot stamp i in
    let t' = expire t idx now in
    let e = t'.entries idx in
    let skip = pick_loop left (i + 1) t' stamp now (note_empty seen idx) in
    let pass =
      pick_loop left (i + 1) t' stamp now (note_live seen idx (sub64 now e.timestamp_ns)) in
    if occupied e then (if same_datagram stamp e then (t', idx) else pass) else skip

-- opt_pick_slot: the slot, and the table in which timed-out entries on the way are cleared.
unfoldable pub pick_slot : Table → Meta → ℕ → Table × ℕ
unfolding pick_loop expire probe_base
pick_slot t stamp now =
    pick_loop 8 0 t stamp now (record { empty_idx = none; oldest_idx = none; oldest_age = 0 })

unfoldable pub store_first : Entry → Meta → Mem → ℕ → Mem → ℕ → ℕ → ℕ → Option Entry
unfolding prepare_entry
store_first e stamp eth eth_len frame from data_len now =
    if ltb jumbo_frame_max data_len
    then none
    else if eth_len == 0 || ltb Eth.eth_l2_hdr_max eth_len
    then none
    else let p = prepare_entry e stamp now in
      some (record p {
        first_len = data_len;
        first = copy p.first 0 frame from data_len;
        eth_hdr = copy p.eth_hdr 0 eth 0 eth_len;
        eth_len = eth_len;
        got_first = true;
      })

unfoldable pub store_second : Entry → Meta → Mem → ℕ → ℕ → ℕ → Option Entry
unfolding prepare_entry
store_second e stamp frame from data_len now =
    if ltb jumbo_frame_max data_len
    then none
    else let p = prepare_entry e stamp now in
      some (record p {
        second_len = data_len;
        second = copy p.second 0 frame from data_len;
        got_second = true;
      })

-- The returns -1, 0 and 1 of opt_emit_join; the last with the joined frame.
pub data Joined : Type 0 where
  failed waiting : Joined
  joined : Mem → ℕ → Joined

-- The frame of both fragments, with the type IPv4.
unfoldable pub join_bytes : Entry → Mem → ℕ → Mem
unfolding Eth.set_ipv4_et
join_bytes e out eth_len =
    let titled = copy out 0 e.eth_hdr 0 eth_len in
    let begun = copy titled eth_len e.first 0 e.first_len in
    let whole = copy begun (eth_len + e.first_len) e.second 0 e.second_len in
    if leb 2 eth_len then Eth.set_ipv4_et whole (eth_len - 2) else whole

unfoldable pub join_at : Entry → Mem → ℕ → Entry × Joined
unfolding clear_entry join_bytes
join_at e out eth_len =
    if ltb jumbo_frame_max (u32 (e.first_len + e.second_len + eth_len))
    then (clear_entry e, failed)
    else (clear_entry e, joined (join_bytes e out eth_len) (eth_len + e.first_len + e.second_len))

unfoldable pub emit_join : Entry → Mem → Entry × Joined
unfolding join_at
emit_join e out =
    if not (e.got_first && e.got_second)
    then (e, waiting)
    else join_at e out (if e.eth_len == 0 then Eth.eth_header_size else e.eth_len)

-- The collector's walk, at step `n` with `left` slots to go.
gc_loop : ℕ → ℕ → Table → ℕ → Table
gc_loop zero n t now = t
gc_loop (suc left) n t now =
    gc_loop left (n + 1) (expire t ((t.gc_cursor + n) % frag_table_size) now) now

-- opt_frag_gc_table: `slice` is 256.
unfoldable pub frag_gc_table : Table → ℕ → Table
unfolding gc_loop expire
frag_gc_table t now =
    let swept = gc_loop 256 0 t now in
    record swept { gc_cursor = (t.gc_cursor + 256) % frag_table_size }
