-- ===== src/Ring/Window.antt =====
-- The slots from an index on, going round the buffer.
use ne.Base.{
  ℕ, zero, suc, ◌+◌, ◌-◌, ◌%◌, ◌<◌, ◌≡◌, refl, sym, ap, ap₂, ◌∙◌, ◌≢◌, Bool, true, false, List, [],
  ◌∷◌, ◌++◌, arith, ◌==◌, if◌then◌else◌, length,
}
use native.Mathlib.Nat.{mod-add-mod, mod-eq_of_lt, mod-eq-sub-mod, mod-lt}
use native.Mathlib.Decide.{dec_lt}
use ne.Ring.{store}

-- The `n` elements from index `t` on.
abbrev pub window {ℓ} : {A : Type ℓ} → ℕ → (ℕ → A) → ℕ → ℕ → List A
window c buf t zero = []
window c buf t (suc n) = buf (t % c) ∷ window c buf (t + 1) n

-- Fewer than `c` steps do not come back to the start.
pub add-mod-ne : (c t j : ℕ) → 0 < j → j < c → (t + j) % c ≢ t % c
add-mod-ne c t j p q e =
    let r = mod-add-mod t c j in
    let small = mod-lt t {m = c} (omega arith) in
    elim (dec_lt (t % c + j) c) [
      | yes h ↦ omega (arith, r, e, mod-eq_of_lt {n = t % c + j} {m = c} h)
      | no h ↦ omega (
        arith,
        r,
        e,
        mod-eq-sub-mod {n = t % c + j} {m = c} (omega arith),
        mod-eq_of_lt {n = t % c + j - c} {m = c} (omega arith),
      )
    ]

-- Only the residue of the start counts.
pub window_mod {ℓ} :
    {A : Type ℓ} (c : ℕ) (buf : ℕ → A) (s t n : ℕ)
    → s % c ≡ t % c
    → window c buf s n ≡ window c buf t n
window_mod c buf s t zero e = refl
window_mod c buf s t (suc n) e =
    let e' : (s + 1) % c ≡ (t + 1) % c =
      sym (mod-add-mod s c 1) ∙ ap (λ a. (a + 1) % c) e ∙ mod-add-mod t c 1 in
    ap₂ (λ a l. buf a ∷ l) e (window_mod c buf (s + 1) (t + 1) n e')

-- A write just after the window appends to it.
pub window-snoc {ℓ} :
    {A : Type ℓ} (c : ℕ) (buf : ℕ → A) (x : A) (t n i : ℕ)
    → n < c
    → i ≡ (t + n) % c
    → window c (store buf i x) t (suc n) ≡ window c buf t n ++ (x ∷ [])
window-snoc c buf x t zero i h e =
    let at : t % c == i ≡ true = ground (arith, e) in
    ap (λ (a : Bool). (if a then x else buf (t % c)) ∷ []) at
window-snoc c buf x t (suc n) i h e =
    let away = add-mod-ne c t (suc n) (omega arith) h in
    let at : t % c == i ≡ false = ground (arith, e, away) in
    let next : i ≡ (t + 1 + n) % c = e ∙ ap (λ a. a % c) (omega arith) in
    ap₂ (λ (a : Bool) l. (if a then x else buf (t % c)) ∷ l) at
      (window-snoc c buf x (t + 1) n i (omega arith) next)

pub length-window {ℓ} : {A : Type ℓ} (c : ℕ) (buf : ℕ → A) (t n : ℕ) → length (window c buf t n) ≡ n
length-window c buf t zero = refl
length-window c buf t (suc n) = ap suc (length-window c buf (t + 1) n)

pub window_of_pos {ℓ} :
    {A : Type ℓ} (c : ℕ) (buf : ℕ → A) (t n : ℕ)
    → 0 < n
    → window c buf t n ≡ buf (t % c) ∷ window c buf (t + 1) (n - 1)
window_of_pos c buf t zero h = absurd (omega arith)
window_of_pos c buf t (suc n) h = ap (λ m. buf (t % c) ∷ window c buf (t + 1) m) (omega arith)
