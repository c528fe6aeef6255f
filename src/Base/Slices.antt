-- ===== src/Base/Slices.antt =====
-- Lists of bytes cut out of a buffer, and written to one.
use ne.Base.{
  ℕ, zero, suc, ◌+◌, ◌<◌, ◌≡◌, refl, ap, ap₂, sym, ◌∙◌, ◌⊎◌, ◌-◌, ◌≤◌, put, List, [], ◌∷◌, arith,
  Mem, slice, length, get_or,
}

pub length-slice : (m : Mem) (off n : ℕ) → length (slice m off n) ≡ n
unfolding slice
length-slice m off zero = refl
length-slice m off (suc n) = ap suc (length-slice m (off + 1) n)

pub get_or-slice : (m : Mem) (off n i : ℕ) → i < n → get_or (slice m off n) i 0 ≡ m (off + i)
unfolding slice
get_or-slice m off zero i h = absurd (omega arith)
get_or-slice m off (suc n) zero h = ap m (omega arith)
get_or-slice m off (suc n) (suc i) h =
    get_or-slice m (off + 1) n i (omega arith) ∙ ap m (omega arith)

-- Equal bytes make equal slices.
pub slice_ext :
    (m m' : Mem) (off off' n : ℕ)
    → ((i : ℕ) → i < n → m (off + i) ≡ m' (off' + i))
    → slice m off n ≡ slice m' off' n
unfolding slice
slice_ext m m' off off' zero h = refl
slice_ext m m' off off' (suc n) h =
    ap₂ ◌∷◌ (ap m (omega arith) ∙ h 0 (omega arith) ∙ ap m' (omega arith)) (
      slice_ext m m' (off + 1) (off' + 1) n
        (λ i p. ap m (omega arith) ∙ h (suc i) (omega arith) ∙ ap m' (omega arith)))

-- A buffer that holds the list `xs` at `off` gives it back.
pub slice-eq :
    (m : Mem) (off : ℕ) (xs : List ℕ)
    → ((i : ℕ) → i < length xs → m (off + i) ≡ get_or xs i 0)
    → slice m off (length xs) ≡ xs
unfolding slice
slice-eq m off [] h = refl
slice-eq m off (x ∷ xs) h =
    ap₂ ◌∷◌ (ap m (omega arith) ∙ h 0 (omega arith))
      (slice-eq m (off + 1) xs (λ i p. ap m (omega arith) ∙ h (suc i) (omega arith)))

-- The buffer `m` has the list `xs` at `off`.
abbrev pub Holds : Mem → ℕ → List ℕ → Type 0
Holds m off xs = (i : ℕ) → i < length xs → m (off + i) ≡ get_or xs i 0

pub put-Holds : (m : Mem) (off : ℕ) (xs : List ℕ) → Holds (put m off xs) off xs
put-Holds m off xs i h = ground (arith, at)
  where
    at : get_or xs (off + i - off) 0 ≡ get_or xs i 0
    at = ap (λ k. get_or xs k 0) (omega arith)

pub slice-Holds : (m : Mem) (off n : ℕ) → Holds m off (slice m off n)
slice-Holds m off n i h = sym (get_or-slice m off n i (rw length-slice at h))

-- What lies outside of a write stays.
pub put-outside :
    (m : Mem) (off : ℕ) (xs : List ℕ) (i : ℕ)
    → (i < off) ⊎ (off + length xs ≤ i)
    → put m off xs i ≡ m i
put-outside m off xs i h = ground arith
