-- ===== src/L2/Table/Fresh.antt =====
-- The slot that the first fragment of a datagram finds.
use native.Mathlib.Decide.{dec_lt}
use mathlib.Core.Path.{subst}
use ne.L2.Table.Pick.{waits, cleaned-passed, slots_differ, expire-here, expire-away, unmoved}
use ne.L2.Table.Probe.{cleaned}
use ne.L2.Table.{
  Entry, Table, Seen, occupied, same_datagram, probe_base, probe_slot, expire, note_empty,
  note_live, pick_loop, pick_slot,
}
use ne.L2.{Meta}
use ne.Base.{
  ℕ, zero, suc, ◌+◌, ◌≤◌, ◌<◌, ◌≡◌, refl, sym, ap, ◌∙◌, ◌≢◌, ◌⊎◌, inl, inr, Bool, true, false, ◌&&◌,
  none, some, arith, if◌then◌else◌, sub64,
}

-- No fragment of the datagram is in the entry.
abbrev pub IsQuiet : Meta → Entry → Type 0
IsQuiet stamp e = (occupied e && same_datagram stamp e) ≡ false

-- A probe that ends at a free slot, with no fragment of the datagram in any of the eight.
pub record IsFresh (stamp : Meta) (r : Table × ℕ) : Type 0 where
  pub probe : ℕ
  pub in_range : probe < 8
  pub slot : r.1 ≡ probe_slot stamp probe
  pub free : occupied (r.0.entries (probe_slot stamp probe)) ≡ false
  pub quiet : (k : ℕ) → k < 8 → IsQuiet stamp (r.0.entries (probe_slot stamp k))

-- A free slot is noted, or one is to come.
abbrev Hope : Meta → ℕ → ℕ → Table → Seen → Type 0
Hope stamp now i t seen =
    ((j : ℕ) × (j < i)
      × (seen.empty_idx ≡ some (probe_slot stamp j))
      × (occupied (t.entries (probe_slot stamp j)) ≡ false))
    ⊎ ((seen.empty_idx ≡ none)
        × ((j : ℕ) × (i ≤ j)
            × (j < 8)
            × (occupied (cleaned now (t.entries (probe_slot stamp j))) ≡ false)))

-- The test of the loop goes on, by one way or the other.
goes_on :
    (P : Table × ℕ → Type 0) (a b : Bool) (here on skip : Table × ℕ)
    → (a && b) ≡ false
    → (a ≡ true → P on)
    → (a ≡ false → P skip)
    → P (if a then (if b then here else on) else skip)
goes_on P true true here on skip h f g = ground arith
goes_on P true false here on skip h f g = f refl
goes_on P false b here on skip h f g = g refl

empty-note_live : (seen : Seen) (idx age : ℕ) → (note_live seen idx age).empty_idx ≡ seen.empty_idx
empty-note_live seen idx age = ground arith

empty-note_empty :
    (seen : Seen) (idx j : ℕ) → seen.empty_idx ≡ some j → (note_empty seen idx).empty_idx ≡ some j
empty-note_empty seen idx j e = ground (arith, e)

empty-note_first :
    (seen : Seen) (idx : ℕ) → seen.empty_idx ≡ none → (note_empty seen idx).empty_idx ≡ some idx
empty-note_first seen idx e = ground (arith, e)

apart : true ≢ false
apart e = cc

module _ (t t' : Table) (stamp : Meta) (now i time : ℕ) (seen : Seen) where
  -- Behind a slot that is taken the hope is as before.
  still_live :
      Hope stamp now i t seen
      → occupied (t'.entries (probe_slot stamp i)) ≡ true
      → t'.entries (probe_slot stamp i) ≡ cleaned now (t.entries (probe_slot stamp i))
      → ((k : ℕ) → k < i → t'.entries (probe_slot stamp k) ≡ t.entries (probe_slot stamp k))
      → ((k : ℕ) → i < k → k < 8 → t'.entries (probe_slot stamp k) ≡ t.entries (probe_slot stamp k))
      → Hope stamp now (i + 1) t' (note_live seen (probe_slot stamp i) (sub64 now time))
  still_live (inl (j, lt, e, free)) o here before far = inl (
    j,
    omega (arith, lt),
    empty-note_live seen (probe_slot stamp i) (sub64 now time) ∙ e,
    ap (λ x. occupied x) (before j lt) ∙ free,
  )
  still_live (inr (e, (j, le, lt, free))) o here before far = elim (dec_lt i j) [
    | yes q ↦ inr (
      empty-note_live seen (probe_slot stamp i) (sub64 now time) ∙ e,
      (j, omega (arith, q), lt, ap (λ x. occupied (cleaned now x)) (far j q lt) ∙ free),
    )
    | no q ↦
        let same : j ≡ i = omega (arith, le, q) in
        let free' =
          subst (λ z. occupied (cleaned now (t.entries (probe_slot stamp z))) ≡ false) same free in
        absurd (apart (sym o ∙ ap (λ x. occupied x) here ∙ free'))
  ]

  -- A free slot is noted.
  now_free :
      Hope stamp now i t seen
      → occupied (t'.entries (probe_slot stamp i)) ≡ false
      → ((k : ℕ) → k < i → t'.entries (probe_slot stamp k) ≡ t.entries (probe_slot stamp k))
      → Hope stamp now (i + 1) t' (note_empty seen (probe_slot stamp i))
  now_free (inl (j, lt, e, free)) o before = inl (
    j,
    omega (arith, lt),
    empty-note_empty seen (probe_slot stamp i) (probe_slot stamp j) e,
    ap (λ x. occupied x) (before j lt) ∙ free,
  )
  now_free (inr (e, w)) o before =
      inl (i, omega arith, empty-note_first seen (probe_slot stamp i) e, o)

pick_loop-IsFresh :
    (left i : ℕ) (t : Table) (stamp : Meta) (now : ℕ) (seen : Seen)
    → i + left ≡ 8
    → ((k : ℕ) → k < i → IsQuiet stamp (t.entries (probe_slot stamp k)))
    → ((k : ℕ) → i ≤ k → k < 8 → waits now stamp (t.entries (probe_slot stamp k)) ≡ false)
    → Hope stamp now i t seen
    → IsFresh stamp (pick_loop left i t stamp now seen)
unfolding pick_loop
pick_loop-IsFresh zero i t stamp now seen n quiet none_after (inl (j, lt, e, free)) = record {
  probe = j;
  in_range = omega arith;
  slot =
      ap
        (λ o. elim o as (λ _. ℕ) [
          | none ↦ elim seen.oldest_idx as (λ _. ℕ) [ some idx ↦ idx | none ↦ probe_base stamp ]
          | some idx ↦ idx
        ])
        e;
  free = free;
  quiet = λ k p. quiet k (omega arith);
}
pick_loop-IsFresh zero i t stamp now seen n quiet none_after (inr (e, (j, le, lt, free))) =
    absurd (omega arith)
pick_loop-IsFresh (suc left) i t stamp now seen n quiet none_after hope =
    let idx = probe_slot stamp i in
    let t' = expire t idx now in
    let e' = t'.entries idx in
    let here = expire-here t idx now in
    let calm : IsQuiet stamp e' =
      ap (λ x. occupied x && same_datagram stamp x) here
      ∙ cleaned-passed now stamp (t.entries idx) (none_after i (omega arith) (omega arith)) in
    let before : (k : ℕ)
        → k < i
        → t'.entries (probe_slot stamp k) ≡ t.entries (probe_slot stamp k) =
      λ k p.
        expire-away t idx now (probe_slot stamp k)
          (λ x. slots_differ (probe_base stamp) k i p (omega arith) (sym x)) in
    let quiet' : (k : ℕ) → k < i + 1 → IsQuiet stamp (t'.entries (probe_slot stamp k)) = λ k p.
      elim (dec_lt k i) [
        | yes q ↦ ap (λ x. occupied x && same_datagram stamp x) (before k q) ∙ quiet k q
        | no q ↦ subst (λ z. IsQuiet stamp (t'.entries (probe_slot stamp z))) (omega arith) calm
      ] in
    let after' : (k : ℕ)
        → i + 1 ≤ k
        → k < 8
        → waits now stamp (t'.entries (probe_slot stamp k)) ≡ false =
      λ k p q.
        ap (λ x. waits now stamp x) (unmoved t stamp now i k (omega arith) q)
        ∙ none_after k (omega arith) q in
    let far : (k : ℕ)
        → i < k
        → k < 8
        → t'.entries (probe_slot stamp k) ≡ t.entries (probe_slot stamp k) =
      λ k p q. unmoved t stamp now i k p q in
    let live = note_live seen idx (sub64 now e'.timestamp_ns) in
    let empty = note_empty seen idx in
    goes_on (IsFresh stamp) (occupied e') (same_datagram stamp e') (t', idx)
      (pick_loop left (i + 1) t' stamp now live) (pick_loop left (i + 1) t' stamp now empty) calm
      (λ o.
        pick_loop-IsFresh left (i + 1) t' stamp now live (omega arith) quiet' after'
          (still_live t t' stamp now i e'.timestamp_ns seen hope o here before far))
      (λ o.
        pick_loop-IsFresh left (i + 1) t' stamp now empty (omega arith) quiet' after'
          (now_free t t' stamp now i 0 seen hope o before))

-- When no fragment of the datagram waits in the eight slots and one of them is free or has timed
-- out, the probe ends at a free slot and none of the eight has a fragment of the datagram.
pub pick_slot-IsFresh :
    (t : Table) (stamp : Meta) (now j : ℕ)
    → ((k : ℕ) → k < 8 → waits now stamp (t.entries (probe_slot stamp k)) ≡ false)
    → j < 8
    → occupied (cleaned now (t.entries (probe_slot stamp j))) ≡ false
    → IsFresh stamp (pick_slot t stamp now)
unfolding pick_slot
pick_slot-IsFresh t stamp now j none_waits lt free =
    pick_loop-IsFresh 8 0 t stamp now
      (record { empty_idx = none; oldest_idx = none; oldest_age = 0 }) (omega arith)
      (λ k p. absurd (omega arith)) (λ k p q. none_waits k q)
      (inr (refl, (j, omega arith, lt, free)))
