-- ===== src/Forwarder/Created.antt =====
-- The threads that forwarder_run means to create, and those that it creates before one fails.
use ne.Forwarder.{crypto_workers}
use ne.Forwarder.Threads.{Thread, local_rx, tx, crypto, wan_rx, start_loop, join_loop}
use ne.Base.{
  ℕ, zero, suc, ◌+◌, ◌≡◌, refl, ap, ◌∙◌, inl, inr, Bool, true, false, ◌&&◌, List, [], ◌∷◌, ◌++◌,
  arith, if◌then◌else◌, Bool-cases,
}

-- The threads of a group, from `w` on.
abbrev pub group : (ℕ → Thread) → ℕ → ℕ → List Thread
group thread zero w = []
group thread (suc left) w = thread w ∷ group thread left (w + 1)

-- All threads, in the order in which they are created.
abbrev pub threads : ℕ → ℕ → ℕ → List Thread
threads lan_rx active wan_rx_active =
    group local_rx lan_rx 0
    ++ group tx active 0
    ++ group crypto crypto_workers 0
    ++ group wan_rx wan_rx_active 0

-- Whether all can be created, and those in front of the first that cannot.
abbrev pub all_created : (Thread → Bool) → List Thread → Bool
all_created create [] = true
all_created create (t ∷ ts) = create t && all_created create ts

abbrev pub first_created : (Thread → Bool) → List Thread → List Thread
first_created create [] = []
first_created create (t ∷ ts) = if create t then t ∷ first_created create ts else []

module _ (create : Thread → Bool) where
  pub first-all : (xs : List Thread) → all_created create xs ≡ true → first_created create xs ≡ xs
  first-all [] e = refl
  first-all (x ∷ xs) e =
      let here : create x ≡ true = ground (arith, e) in
      rw here (ap (λ l. x ∷ l) (first-all xs (ground (arith, e))))

  pub first-append :
      (xs ys : List Thread)
      → all_created create xs ≡ true
      → first_created create (xs ++ ys) ≡ xs ++ first_created create ys
  first-append [] ys e = refl
  first-append (x ∷ xs) ys e =
      let here : create x ≡ true = ground (arith, e) in
      rw here (ap (λ l. x ∷ l) (first-append xs ys (ground (arith, e))))

  pub first-stops :
      (xs ys : List Thread)
      → all_created create xs ≡ false
      → (first_created create (xs ++ ys) ≡ first_created create xs)
        × (all_created create (xs ++ ys) ≡ false)
  first-stops [] ys e = absurd (ground arith)
  first-stops (x ∷ xs) ys e = elim (Bool-cases (create x)) [
    | inr missing ↦ rw missing (refl, refl)
    | inl here ↦
        let rest : all_created create xs ≡ false = ground (arith, e, here) in
        let ih = first-stops xs ys rest in rw here (ap (λ l. x ∷ l) ih.0, ih.1)
  ]

  pub all-append :
      (xs ys : List Thread)
      → all_created create xs ≡ true
      → all_created create (xs ++ ys) ≡ all_created create ys
  all-append [] ys e = refl
  all-append (x ∷ xs) ys e =
      let here : create x ≡ true = ground (arith, e) in
      rw here (all-append xs ys (ground (arith, e)))

  -- A loop of creations counts the threads that come first, and says whether they are all.
  start_loop_lem :
      (thread : ℕ → Thread) (left w : ℕ)
      → (k : ℕ) × (start_loop (λ i. create (thread i)) left w
          ≡ (w + k, all_created create (group thread left w)))
        × (join_loop thread k w ≡ first_created create (group thread left w))
  unfolding start_loop join_loop
  start_loop_lem thread zero w = (0, ap (λ j. (j, true)) (omega arith), refl)
  start_loop_lem thread (suc left) w =
      let (k, counts, joined) = start_loop_lem thread left (w + 1) in
      elim (Bool-cases (create (thread w))) [
        | inl here ↦ (
          suc k,
          rw here (
              counts ∙ ap (λ j. (j, all_created create (group thread left (w + 1)))) (omega arith)),
          rw here (ap (λ l. thread w ∷ l) joined),
        )
        | inr missing ↦ (0, rw missing (ap (λ j. (j, false)) (omega arith)), rw missing refl)
      ]

  pub start_group :
      (thread : ℕ → Thread) (wanted : ℕ)
      → (k : ℕ) × (start_loop (λ i. create (thread i)) wanted 0
          ≡ (k, all_created create (group thread wanted 0)))
        × (join_loop thread k 0 ≡ first_created create (group thread wanted 0))
  start_group thread wanted =
      let (k, counts, joined) = start_loop_lem thread wanted 0 in
      (k, counts ∙ ap (λ j. (j, all_created create (group thread wanted 0))) (omega arith), joined)

pub join_loop-group :
    (thread : ℕ → Thread) (left w : ℕ) → join_loop thread left w ≡ group thread left w
unfolding join_loop
join_loop-group thread zero w = refl
join_loop-group thread (suc left) w = ap (λ l. thread w ∷ l) (join_loop-group thread left (w + 1))
