-- ===== src/Forwarder/Made.antt =====
-- The loops of forwarder_init that make the rings.
use ne.Forwarder.Setup.{
  RingId, local_to_mid, wan_to_mid, mid_to_local, mid_to_wan, same_ring, Held, hold, init_workers,
  init_row, init_side,
}
use ne.Forwarder.{crypto_workers}
use ne.Forwarder.Undo.{InRange, Within, hold-Within}
use native.Mathlib.Decide.{dec_lt}
use ne.Base.{
  ℕ, zero, suc, ◌+◌, ◌≤◌, ◌<◌, ◌≡◌, refl, sym, ap, ◌∙◌, inl, inr, Bool, true, false, not, ◌&&◌,
  arith, if◌then◌else◌, Bool-cases,
}

-- What is held stays held, and only rings of the program are made.
pub record Extends (h r : Held) : Type 0 where
  pub kept : (x : RingId) → h.rings x ≡ true → r.rings x ≡ true
  pub within : Within h → Within r
  pub pair : r.pair_open ≡ h.pair_open

Extends-refl : (h : Held) → Extends h h
Extends-refl h = record { kept = λ x e. e; within = λ w. w; pair = refl }

pub Extends-trans : (h1 h2 h3 : Held) → Extends h1 h2 → Extends h2 h3 → Extends h1 h3
Extends-trans h1 h2 h3 a b = record {
  kept = λ x e. b.kept x (a.kept x e);
  within = λ w. b.within (a.within w);
  pair = b.pair ∙ a.pair;
}

hold-Extends : (h : Held) (id : RingId) → InRange id → Extends h (hold h id true)
hold-Extends h id p = record {
  kept = λ x e. ground (arith, e);
  within = hold-Within h id p;
  pair = refl;
}

-- A loop that made a step and goes on, or stops.
either :
    (P : Held → Type 0) (b : Bool) (r : Held × Bool) (h : Held)
    → P r.0
    → P h
    → P (if b then r else (h, false)).0
either P true r h p q = p
either P false r h p q = q

init_row-Extends :
    (memory : RingId → Bool) (ring : ℕ → RingId) (left w : ℕ) (h : Held)
    → ((k : ℕ) → k < w + left → InRange (ring k))
    → Extends h (init_row memory ring left w h).0
unfolding init_row
init_row-Extends memory ring zero w h p = Extends-refl h
init_row-Extends memory ring (suc left) w h p =
    let h1 = hold h (ring w) true in
    either (Extends h) (memory (ring w)) (init_row memory ring left (w + 1) h1) h
      (Extends-trans h h1 _ (hold-Extends h (ring w) (p w (omega arith)))
        (init_row-Extends memory ring left (w + 1) h1 (λ k lt. p k (omega arith))))
      (Extends-refl h)

pub init_side-Extends :
    (memory : RingId → Bool) (ring : ℕ → ℕ → RingId) (left i : ℕ) (h : Held)
    → ((j k : ℕ) → j < i + left → k < crypto_workers → InRange (ring j k))
    → Extends h (init_side memory ring left i h).0
unfolding init_side
init_side-Extends memory ring zero i h p = Extends-refl h
init_side-Extends memory ring (suc left) i h p =
    let r = init_row memory (ring i) crypto_workers 0 h in
    let one =
      init_row-Extends memory (ring i) crypto_workers 0 h
        (λ k lt. p i k (omega arith) (omega arith)) in
    either (Extends h) r.1 (init_side memory ring left (i + 1) r.0) r.0
      (Extends-trans h r.0 _ one
        (init_side-Extends memory ring left (i + 1) r.0 (λ j k lt q. p j k (omega arith) q)))
      one

pub init_workers-Extends :
    (memory : RingId → Bool) (left w : ℕ) (h : Held)
    → w + left ≤ crypto_workers
    → Extends h (init_workers memory left w h).0
unfolding init_workers
init_workers-Extends memory zero w h p = Extends-refl h
init_workers-Extends memory (suc left) w h p =
    let h1 = hold h (local_to_mid w) true in
    let h2 = hold h1 (wan_to_mid w) true in
    let one = hold-Extends h (local_to_mid w) (omega arith) in
    let two = Extends-trans h h1 h2 one (hold-Extends h1 (wan_to_mid w) (omega arith)) in
    let rest =
      Extends-trans h h2 _ two (init_workers-Extends memory left (w + 1) h2 (omega arith)) in
    elim (Bool-cases (memory (local_to_mid w))) [
      | inr fails ↦ rw fails (Extends-refl h)
      | inl ok ↦ elim (Bool-cases (memory (wan_to_mid w))) [
        | inr fails ↦ rw (ok, fails) one
        | inl ok2 ↦ rw (ok, ok2) rest
      ]
    ]

-- A loop that succeeds went on.
went_on :
    (b : Bool) (r : Held × Bool) (h : Held)
    → (if b then r else (h, false)).1 ≡ true
    → ((if b then r else (h, false)) ≡ r) × (r.1 ≡ true)
went_on b r h e = ground (arith, e)

pub same_refl : (id : RingId) → same_ring id id ≡ true
same_refl (local_to_mid w) = ground arith
same_refl (wan_to_mid w) = ground arith
same_refl (mid_to_local i w) = ground arith
same_refl (mid_to_wan i w) = ground arith

held_now : (h : Held) (id : RingId) → (hold h id true).rings id ≡ true
held_now h id = ground (arith, same_refl id)

-- A loop that succeeds has made all its rings.
init_row_lem :
    (memory : RingId → Bool) (ring : ℕ → RingId) (left w : ℕ) (h : Held)
    → ((k : ℕ) → k < w + left → InRange (ring k))
    → (init_row memory ring left w h).1 ≡ true
    → (k : ℕ) → w ≤ k
    → k < w + left
    → (init_row memory ring left w h).0.rings (ring k) ≡ true
unfolding init_row
init_row_lem memory ring zero w h p e k le lt = absurd (omega arith)
init_row_lem memory ring (suc left) w h p e k le lt =
    let h1 = hold h (ring w) true in
    let r = init_row memory ring left (w + 1) h1 in
    let (same, ok) = went_on (memory (ring w)) r h e in
    let p' : (j : ℕ) → j < w + 1 + left → InRange (ring j) = λ j q. p j (omega arith) in
    ap (λ (x : Held × Bool). x.0.rings (ring k)) same ∙ elim (dec_lt w k) [
      | yes later ↦ init_row_lem memory ring left (w + 1) h1 p' ok k (omega arith) (omega arith)
      | no here ↦
          ap (λ j. r.0.rings (ring j)) {x = k} {y = w} (omega arith)
          ∙ (init_row-Extends memory ring left (w + 1) h1 p').kept (ring w) (held_now h (ring w))
    ]

pub init_side_lem :
    (memory : RingId → Bool) (ring : ℕ → ℕ → RingId) (left i : ℕ) (h : Held)
    → ((j k : ℕ) → j < i + left → k < crypto_workers → InRange (ring j k))
    → (init_side memory ring left i h).1 ≡ true
    → (j k : ℕ) → i ≤ j
    → j < i + left
    → k < crypto_workers
    → (init_side memory ring left i h).0.rings (ring j k) ≡ true
unfolding init_side
init_side_lem memory ring zero i h p e j k le lt q = absurd (omega arith)
init_side_lem memory ring (suc left) i h p e j k le lt q =
    let row = init_row memory (ring i) crypto_workers 0 h in
    let r = init_side memory ring left (i + 1) row.0 in
    let (same, ok) = went_on row.1 r row.0 e in
    let p' : (a b : ℕ) → a < i + 1 + left → b < crypto_workers → InRange (ring a b) =
      λ a b u v. p a b (omega arith) v in
    let p1 : (b : ℕ) → b < 0 + crypto_workers → InRange (ring i b) =
      λ b v. p i b (omega arith) (omega arith) in
    ap (λ (x : Held × Bool). x.0.rings (ring j k)) same ∙ elim (dec_lt i j) [
      | yes later ↦
          init_side_lem memory ring left (i + 1) row.0 p' ok j k (omega arith) (omega arith) q
      | no here ↦
          ap (λ l. r.0.rings (ring l k)) {x = j} {y = i} (omega arith)
          ∙ (init_side-Extends memory ring left (i + 1) row.0 p').kept (ring i k) (
              init_row_lem memory (ring i) crypto_workers 0 h p1 (first_ok row.1 r row.0 e) k
                (omega arith) (omega arith))
    ]
  where
    first_ok :
        (b : Bool) (r : Held × Bool) (h : Held) → (if b then r else (h, false)).1 ≡ true → b ≡ true
    first_ok true r h e = refl
    first_ok false r h e = cc

pub init_workers_lem :
    (memory : RingId → Bool) (left w : ℕ) (h : Held)
    → w + left ≤ crypto_workers
    → (init_workers memory left w h).1 ≡ true
    → (k : ℕ) → w ≤ k
    → k < w + left
    → let r = (init_workers memory left w h).0 in
      (r.rings (local_to_mid k) ≡ true) × (r.rings (wan_to_mid k) ≡ true)
unfolding init_workers
init_workers_lem memory zero w h p e k le lt = absurd (omega arith)
init_workers_lem memory (suc left) w h p e k le lt =
    let h1 = hold h (local_to_mid w) true in
    let h2 = hold h1 (wan_to_mid w) true in
    let r = init_workers memory left (w + 1) h2 in
    let more = (init_workers-Extends memory left (w + 1) h2 (omega arith)).kept in
    let (same, ok) =
      went_on (memory (local_to_mid w) && memory (wan_to_mid w)) r
        (stopped (memory (local_to_mid w)) h h1)
        (sym (
            ap (λ (x : Held × Bool). x.1)
              (one_test (memory (local_to_mid w)) (memory (wan_to_mid w)) r h h1))
          ∙ e) in
    let whole = one_test (memory (local_to_mid w)) (memory (wan_to_mid w)) r h h1 ∙ same in
    let both : (r.0.rings (local_to_mid k) ≡ true) × (r.0.rings (wan_to_mid k) ≡ true) =
      elim (dec_lt w k) [
        | yes later ↦
            init_workers_lem memory left (w + 1) h2 (omega arith) ok k (omega arith) (omega arith)
        | no here ↦ (
          ap (λ j. r.0.rings (local_to_mid j)) {x = k} {y = w} (omega arith)
              ∙ more (local_to_mid w) (held_now h (local_to_mid w)),
          ap (λ j. r.0.rings (wan_to_mid j)) {x = k} {y = w} (omega arith)
              ∙ more (wan_to_mid w) (held_now h1 (wan_to_mid w)),
        )
      ] in
    (
      ap (λ (x : Held × Bool). x.0.rings (local_to_mid k)) whole ∙ both.0,
      ap (λ (x : Held × Bool). x.0.rings (wan_to_mid k)) whole ∙ both.1,
    )
  where
    stopped : Bool → Held → Held → Held
    stopped a h h1 = if a then h1 else h

    one_test :
        (a b : Bool) (r : Held × Bool) (h h1 : Held)
        → (if not a then (h, false) else if not b then (h1, false) else r)
          ≡ (if a && b then r else (stopped a h h1, false))
    one_test true true r h h1 = refl
    one_test true false r h h1 = refl
    one_test false b r h h1 = refl
