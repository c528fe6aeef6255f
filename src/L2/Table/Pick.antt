-- ===== src/L2/Table/Pick.antt =====
-- The slot that the second fragment of a datagram finds.
use ne.Base.{
  ℕ, zero, suc, ◌+◌, ◌%◌, ◌≤◌, ◌<◌, ◌≡◌, refl, sym, ap, ◌∙◌, ◌≢◌, inl, inr, Bool, true, false, not,
  ◌&&◌, none, arith, ◌==◌, if◌then◌else◌, Bool-cases, sub64,
}
use native.Mathlib.Decide.{dec_lt}
use ne.L2.{Meta}
use ne.L2.Table.{
  Entry, Table, Seen, clear_entry, occupied, timed_out, same_datagram, probe_base, probe_slot,
  expire, note_empty, note_live, pick_loop, pick_slot,
}
use ne.L2.Table.Probe.{cleaned, entries-expire}

-- An entry in which a fragment of the datagram waits.
abbrev pub waits : ℕ → Meta → Entry → Bool
waits now stamp e = occupied e && same_datagram stamp e && not (timed_out now e)

-- The eight slots of a probe differ.
pub slots_differ : (base i j : ℕ) → i < j → j < 8 → (base + j) % 256 ≢ (base + i) % 256
slots_differ base i j p q = omega arith

-- What the loop meets at a slot where nothing waits is passed over.
pub cleaned-passed :
    (now : ℕ) (stamp : Meta) (e : Entry)
    → waits now stamp e ≡ false
    → (occupied (cleaned now e) && same_datagram stamp (cleaned now e)) ≡ false
unfolding clear_entry
cleaned-passed now stamp e h = elim (Bool-cases (timed_out now e)) [
  | inl old ↦ rw old refl
  | inr new ↦ ground (arith, h, new)
]

abbrev Finds : Table × ℕ → ℕ → Entry → Type 0
Finds r slot e = (r.1 ≡ slot) × (r.0.entries slot ≡ e)

-- Both ways on lead to the slot.
passed :
    (a b : Bool) (here on skip : Table × ℕ) (slot : ℕ) (e : Entry)
    → (a && b) ≡ false
    → Finds on slot e
    → Finds skip slot e
    → Finds (if a then (if b then here else on) else skip) slot e
passed true true here on skip slot e h p q = ground arith
passed true false here on skip slot e h p q = p
passed false b here on skip slot e h p q = q

stops :
    (a b : Bool) (here on skip : Table × ℕ) (slot : ℕ) (e : Entry)
    → a ≡ true
    → b ≡ true
    → Finds here slot e
    → Finds (if a then (if b then here else on) else skip) slot e
stops true true here on skip slot e h k f = f
stops true false here on skip slot e h k f = ground arith
stops false b here on skip slot e h k f = ground arith

waits_parts :
    (now : ℕ) (stamp : Meta) (e : Entry)
    → waits now stamp e ≡ true
    → (occupied e ≡ true) × (same_datagram stamp e ≡ true) × (cleaned now e ≡ e)
waits_parts now stamp e h = (ground (arith, h), ground (arith, h), ground (arith, h))

pub expire-here :
    (t : Table) (slot now : ℕ) → (expire t slot now).entries slot ≡ cleaned now (t.entries slot)
expire-here t slot now =
    let same : slot == slot ≡ true = ground arith in
    entries-expire t slot now slot
    ∙ ap (λ (b : Bool). if b then cleaned now (t.entries slot) else t.entries slot) same

pub expire-away :
    (t : Table) (slot now other : ℕ)
    → other ≢ slot
    → (expire t slot now).entries other ≡ t.entries other
expire-away t slot now other ne =
    let away : other == slot ≡ false = ground (arith, ne) in
    entries-expire t slot now other
    ∙ ap (λ (b : Bool). if b then cleaned now (t.entries other) else t.entries other) away

-- A later slot of the probe is not touched.
pub unmoved :
    (t : Table) (stamp : Meta) (now i k : ℕ)
    → i < k
    → k < 8
    → (expire t (probe_slot stamp i) now).entries (probe_slot stamp k)
      ≡ t.entries (probe_slot stamp k)
unmoved t stamp now i k p q =
    expire-away t (probe_slot stamp i) now (probe_slot stamp k)
      (slots_differ (probe_base stamp) i k p q)

pick_loop_lem :
    (left i : ℕ) (t : Table) (stamp : Meta) (now : ℕ) (seen : Seen) (j : ℕ) (e : Entry)
    → i ≤ j
    → j < i + left
    → i + left ≤ 8
    → t.entries (probe_slot stamp j) ≡ e
    → waits now stamp e ≡ true
    → ((k : ℕ) → i ≤ k → k < j → waits now stamp (t.entries (probe_slot stamp k)) ≡ false)
    → Finds (pick_loop left i t stamp now seen) (probe_slot stamp j) e
unfolding pick_loop
pick_loop_lem zero i t stamp now seen j e p q r at live none_before = absurd (omega arith)
pick_loop_lem (suc left) i t stamp now seen j e p q r at live none_before =
    let idx = probe_slot stamp i in
    let t' = expire t idx now in
    let e' = t'.entries idx in
    let on = pick_loop left (i + 1) t' stamp now (note_live seen idx (sub64 now e'.timestamp_ns)) in
    let skip = pick_loop left (i + 1) t' stamp now (note_empty seen idx) in
    elim (dec_lt i j) [
      | no here ↦
          let same : i ≡ j = omega arith in
          let parts = waits_parts now stamp e live in
          let found : e' ≡ e =
            expire-here t idx now
            ∙ ap (λ k. cleaned now (t.entries (probe_slot stamp k))) same
            ∙ ap (λ x. cleaned now x) at
            ∙ parts.2 in
          stops (occupied e') (same_datagram stamp e') (t', idx) on skip (probe_slot stamp j) e
            (ap (λ x. occupied x) found ∙ parts.0) (ap (λ x. same_datagram stamp x) found ∙ parts.1)
            (
              ap (λ k. probe_slot stamp k) same,
              ap (λ k. t'.entries (probe_slot stamp k)) (sym same) ∙ found,
            )
      | yes later ↦
          let quiet = none_before i (omega arith) later in
          let quiet' : (occupied e' && same_datagram stamp e') ≡ false =
            ap (λ x. occupied x && same_datagram stamp x) (expire-here t idx now)
            ∙ cleaned-passed now stamp (t.entries idx) quiet in
          let at' = unmoved t stamp now i j later (omega arith) ∙ at in
          let before' : (k : ℕ)
              → i + 1 ≤ k
              → k < j
              → waits now stamp (t'.entries (probe_slot stamp k)) ≡ false =
            λ k u v.
              ap (λ x. waits now stamp x) (unmoved t stamp now i k (omega arith) (omega arith))
              ∙ none_before k (omega arith) v in
          passed (occupied e') (same_datagram stamp e') (t', idx) on skip (probe_slot stamp j) e
            quiet'
            (pick_loop_lem left (i + 1) t' stamp now
              (note_live seen idx (sub64 now e'.timestamp_ns)) j e (omega arith) (omega arith)
              (omega arith) at' live before')
            (pick_loop_lem left (i + 1) t' stamp now (note_empty seen idx) j e (omega arith)
              (omega arith) (omega arith) at' live before')
    ]

-- A fragment of a datagram is put in the first of its eight slots in which another fragment of
-- the datagram waits and has not timed out; that entry is as it was.
pub pick_slot_lem :
    (t : Table) (stamp : Meta) (now j : ℕ)
    → j < 8
    → waits now stamp (t.entries (probe_slot stamp j)) ≡ true
    → ((k : ℕ) → k < j → waits now stamp (t.entries (probe_slot stamp k)) ≡ false)
    → ((pick_slot t stamp now).1 ≡ probe_slot stamp j)
      × ((pick_slot t stamp now).0.entries (probe_slot stamp j) ≡ t.entries (probe_slot stamp j))
unfolding pick_slot
pick_slot_lem t stamp now j h live none_before =
    pick_loop_lem 8 0 t stamp now (record { empty_idx = none; oldest_idx = none; oldest_age = 0 }) j
      (t.entries (probe_slot stamp j)) (omega arith) (omega arith) (omega arith) refl live
      (λ k p q. none_before k q)
