-- ===== src/L2/Table/Probe.antt =====
-- Timed-out entries that a walk meets.
use ne.Base.{ℕ, ◌≡◌, inl, inr, arith, ◌==◌, if◌then◌else◌, ==_iff, Bool-cases}
use ne.L2.Table.{Table, Entry, clear_entry, timed_out, expire}

abbrev pub cleaned : ℕ → Entry → Entry
cleaned now e = if timed_out now e then clear_entry e else e

pub cursor-expire : (t : Table) (i now : ℕ) → (expire t i now).gc_cursor ≡ t.gc_cursor
unfolding expire
cursor-expire t i now = ground arith

pub entries-expire :
    (t : Table) (j now i : ℕ)
    → (expire t j now).entries i ≡ (if i == j then cleaned now (t.entries i) else t.entries i)
unfolding expire
entries-expire t j now i = elim (Bool-cases (i == j)) [
  | inl here ↦
      let e : i ≡ j = (==_iff i j).0 here in
      rw (here, e)
        (elim (Bool-cases (timed_out now (t.entries j))) [
          | inl old ↦ rw old (ground arith)
          | inr new ↦ rw new
        ])
  | inr there ↦ rw there (elim (Bool-cases (timed_out now (t.entries j))) [
    | inl old ↦ rw (old, there)
    | inr new ↦ rw new
  ])
]
