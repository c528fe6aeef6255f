-- ===== src/L2/Table/Gc.antt =====
-- One run of the collector over the slots.
use ne.Base.{
  ℕ, zero, suc, ◌+◌, ◌-◌, ◌%◌, ◌<◌, ◌≡◌, ap, ◌∙◌, inl, inr, true, false, arith, leb, if◌then◌else◌,
  Bool-cases,
}
use ne.L2.Table.{Table, Entry, clear_entry, timed_out, gc_loop, expire, frag_gc_table}
use ne.L2.Table.Probe.{cleaned, cursor-expire, entries-expire}

-- How many slots after the cursor a slot is reached.
distance : ℕ → ℕ → ℕ
distance cursor i = (i + 256 - cursor) % 256

gc_loop_lem :
    (left n : ℕ) (t : Table) (now i : ℕ)
    → t.gc_cursor < 256
    → i < 256
    → n + left ≡ 256
    → (gc_loop left n t now).entries i
      ≡ (if leb n (distance t.gc_cursor i) then cleaned now (t.entries i) else t.entries i)
unfolding gc_loop distance
gc_loop_lem zero n t now i c h e = ground arith
gc_loop_lem (suc left) n t now i c h e =
    let slot = (t.gc_cursor + n) % 256 in
    let t1 = expire t slot now in
    let same = cursor-expire t slot now in
    ground (
      arith,
      same,
      entries-expire t slot now i,
      gc_loop_lem left (n + 1) t1 now i (omega (arith, same)) h (omega arith),
    )

leb-zero : (d : ℕ) → leb 0 d ≡ true
leb-zero d = ground arith

entries-frag_gc_table :
    (t : Table) (now i : ℕ)
    → t.gc_cursor < 256
    → i < 256
    → (frag_gc_table t now).entries i ≡ cleaned now (t.entries i)
unfolding frag_gc_table
entries-frag_gc_table t now i c h =
    gc_loop_lem 256 0 t now i c h (omega arith)
    ∙ ap (λ b. if b then cleaned now (t.entries i) else t.entries i)
        (leb-zero (distance t.gc_cursor i))

timed_out-cleaned : (now : ℕ) (e : Entry) → timed_out now (cleaned now e) ≡ false
unfolding clear_entry
timed_out-cleaned now e = elim (Bool-cases (timed_out now e)) [
  | inl old ↦ rw old
  | inr new ↦ rw new new
]

-- After a run that starts from a cursor in range no slot of the table holds a fragment that had timed out, every other slot is as it
-- was, and the cursor is where it was.
pub frag_gc_table_lem :
    (t : Table) (now i : ℕ)
    → t.gc_cursor < 256
    → i < 256
    → ((frag_gc_table t now).entries i
        ≡ (if timed_out now (t.entries i) then clear_entry (t.entries i) else t.entries i))
      × (timed_out now ((frag_gc_table t now).entries i) ≡ false)
      × ((frag_gc_table t now).gc_cursor ≡ t.gc_cursor)
frag_gc_table_lem t now i c h =
    let e = entries-frag_gc_table t now i c h in
    (
      e,
      ap (λ d. timed_out now d) e ∙ timed_out-cleaned now (t.entries i),
      unfold frag_gc_table in omega arith,
    )
