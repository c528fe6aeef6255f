-- ===== src/L2/Reassembly.antt =====
-- l2_reassemble, l2_udp_reasm (l2_crypto_reassemble_udp), opt_table and l2_udp_frag_gc: the frames
-- that a worker receives, and its table. `now` is the clock's answer, `out` the output buffer.
pub mod Whole
pub mod Through
pub mod Rejoin
use ne.Base.{
  ℕ, ◌-◌, ◌*◌, Bool, false, not, ◌&&◌, ◌||◌, Option, none, some, ltb, ◌==◌, if◌then◌else◌, u8,
  low_bits, shr, Mem, copy,
}
use ne.Crypto.{Scrypt, CryptoCtx}
use ne.L2.{Meta}
use ne.L2.Shim.{kind_frag1, kind_full}
use ne.L2.Wire.{wire_prefix_len}
use ne.L2.Decrypt.{do_decrypt_udp}
use ne.L2.Table.{
  Entry, Table, put_entry, clear_entry, timed_out, same_datagram, pick_slot, store_first,
  store_second, Joined, failed, joined, emit_join, frag_gc_table,
}
use ne.Eth

-- A stored fragment is kept in its slot, joined with the other if that is there.
abbrev pub join_stored : Table → ℕ → Option Entry → Mem → Table × Joined
join_stored t idx none out = (t, failed)
join_stored t idx (some e) out = let (e', r) = emit_join e out in (put_entry t idx e', r)

-- The case of fragment 0: its IPv4 header is checked before it is stored.
unfoldable pub reassemble_first : Table → ℕ → Meta → Mem → ℕ → ℕ → ℕ → Mem → Table × Joined
reassemble_first t idx stamp pkt wire_eth inner_len now out =
    let ip_hdr_len = low_bits (pkt wire_eth) 4 * 4 in
    let stored = store_first (t.entries idx) stamp pkt (u8 wire_eth) pkt wire_eth inner_len now in
    if ltb inner_len 20 || not (shr (pkt wire_eth) 4 == 4)
    then (t, failed)
    else if ltb ip_hdr_len 20 || ltb inner_len ip_hdr_len
    then (t, failed)
    else join_stored t idx stored out

-- The case of fragment 1.
unfoldable pub reassemble_second : Table → ℕ → Meta → Mem → ℕ → ℕ → ℕ → Mem → Table × Joined
reassemble_second t idx stamp pkt wire_eth inner_len now out =
    let e = t.entries idx in
    let stale = same_datagram stamp e && timed_out now e in
    let kept = if stale then clear_entry e else e in
    join_stored (put_entry t idx kept) idx (store_second kept stamp pkt wire_eth inner_len now) out

-- l2_reassemble, with the length of the wire's prefix
unfoldable pub reassemble_at : Table → Mem → ℕ → Meta → ℕ → ℕ → Mem → Option ℕ → Table × Joined
reassemble_at t pkt pkt_len stamp frag_index now out none = (t, failed)
reassemble_at t pkt pkt_len stamp frag_index now out (some wire_eth) =
    if ltb Eth.eth_l2_hdr_max wire_eth || ltb pkt_len wire_eth
    then (t, failed)
    else let (t', idx) = pick_slot t stamp now in
      if frag_index == 0
      then reassemble_first t' idx stamp pkt wire_eth (pkt_len - wire_eth) now out
      else if frag_index == 1
      then reassemble_second t' idx stamp pkt wire_eth (pkt_len - wire_eth) now out
      else (t', failed)

unfoldable pub reassemble : Table → Mem → ℕ → Meta → ℕ → ℕ → Mem → Table × Joined
reassemble t pkt pkt_len stamp frag_index now out =
    reassemble_at t pkt pkt_len stamp frag_index now out (wire_prefix_len pkt pkt_len)

-- The tables of the workers, `none` until one is allocated. A worker's index out of range is 0.
abbrev pub Tables : Type 0
Tables = ℕ → Option Table

abbrev pub crypto_workers : ℕ
crypto_workers = 6

abbrev pub table_index : ℕ → ℕ
table_index w = if ltb w crypto_workers then w else 0

abbrev blank : Entry
blank = record {
  epoch = 0;
  datagram_id = 0;
  udp_seq = 0;
  first_len = 0;
  second_len = 0;
  timestamp_ns = 0;
  eth_hdr = λ i. 0;
  eth_len = 0;
  got_first = false;
  got_second = false;
  first = λ i. 0;
  second = λ i. 0;
}

-- What `calloc` gives.
abbrev pub new_table : Table
new_table = record { gc_cursor = 0; entries = λ i. blank }

abbrev pub put_table : Tables → ℕ → Table → Tables
put_table ts w t j = if j == w then some t else ts j

-- opt_table with `create`; `memory` is whether the allocation succeeds.
unfoldable pub opt_table : Bool → Tables → ℕ → Option Table
opt_table memory ts w = elim (ts (table_index w)) [
  | some t ↦ some t
  | none ↦ if memory then some new_table else none
]

-- l2_udp_reasm: a whole frame is handed on, a fragment goes to the worker's table.
unfoldable pub reassemble_udp :
    {Ctx : Type 0} (S : Scrypt Ctx)
    → Bool
    → Bool
    → Tables
    → ℕ
    → CryptoCtx
    → Mem
    → ℕ
    → ℕ
    → Mem
    → Tables × Joined
reassemble_udp S ready memory ts w ctx pkt pkt_len now out =
    elim (do_decrypt_udp S ready ctx pkt pkt_len) [
      | none ↦ (ts, failed)
      | some r ↦
          if r.kind == kind_full
          then if Eth.is_ipv4 r.packet r.len
            then (ts, joined (copy out 0 r.packet 0 r.len) r.len)
            else (ts, failed)
          else if ltb kind_frag1 r.kind
          then (ts, failed)
          else elim (opt_table memory ts w) [
            | none ↦ (ts, failed)
            | some t ↦
                let (t', res) = reassemble t r.packet r.len r.stamp r.kind now out in
                (put_table ts (table_index w) t', res)
          ]
    ]

-- l2_udp_frag_gc (l2_crypto_frag_gc)
unfoldable pub frag_gc : Tables → ℕ → ℕ → Tables
unfolding frag_gc_table
frag_gc ts w now = elim (ts (table_index w)) [
  | none ↦ ts
  | some t ↦ put_table ts (table_index w) (frag_gc_table t now)
]
