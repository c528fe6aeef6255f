-- ===== src/Crypto/Nonce.antt =====
-- When the nonces of a worker repeat.
use ne.Base.{
  ℕ, zero, suc, ◌+◌, ◌*◌, ◌%◌, ◌^◌, ◌<◌, ◌≡◌, ◌↔◌, refl, ap, sym, ◌∙◌, true, some, List, [], ◌∷◌,
  ◌++◌, arith, u32, get_or,
}
use ne.Worker.{State}
use ne.Crypto.{Scrypt, le_bytes, generate_nonce}

le_value : List ℕ → ℕ
le_value xs =
    get_or xs 0 0 + get_or xs 1 0 * 2 ^ 8 + get_or xs 2 0 * 2 ^ 16 + get_or xs 3 0 * 2 ^ 24

le_value-le_bytes : (n : ℕ) → n < 2 ^ 32 → le_value (le_bytes n) ≡ n
unfolding le_value
le_value-le_bytes n h = omega arith

append_cancel : (xs ys zs : List ℕ) → xs ++ ys ≡ xs ++ zs → ys ≡ zs
append_cancel [] ys zs h = h
append_cancel (x ∷ xs) ys zs h = append_cancel xs ys zs (cc h)

module _ {Ctx : Type 0} (S : Scrypt Ctx) where
  -- The state after `k` further nonces, and the nonce that the next call returns.
  unfoldable pub after : ℕ → State → State
  after zero s = s
  after (suc k) s = after k (generate_nonce S s).1

  abbrev pub IsReady : State → Type 0
  IsReady s = (s.initialized ≡ true) × (s.nonce_ready ≡ true)

  generate_nonce-ready :
      (s : State)
      → IsReady s
      → generate_nonce S s ≡ (
        some (s.nonce_salt ++ le_bytes (u32 (s.nonce_counter + 1))),
        record s { nonce_counter = u32 (s.nonce_counter + 1) },
      )
  unfolding generate_nonce
  generate_nonce-ready s h = ground arith

  after-IsReady :
      (k : ℕ) (s : State)
      → IsReady s
      → s.nonce_counter < 2 ^ 32
      → IsReady (after k s)
        × ((after k s).nonce_salt ≡ s.nonce_salt)
        × ((after k s).nonce_counter ≡ (s.nonce_counter + k) % 2 ^ 32)
  unfolding after
  after-IsReady zero s h b = (h, refl, omega arith)
  after-IsReady (suc k) s h b =
      let t : State = record s { nonce_counter = u32 (s.nonce_counter + 1) } in
      let rest = after-IsReady k t h (omega arith) in
      rw (after, generate_nonce-ready s h) (rest.0, rest.1, omega (arith, rest.2))

  nonce-after :
      (k : ℕ) (s : State)
      → IsReady s
      → s.nonce_counter < 2 ^ 32
      → (generate_nonce S (after k s)).0
        ≡ some (s.nonce_salt ++ le_bytes (u32 (s.nonce_counter + k + 1)))
  nonce-after k s h b =
      let t = after-IsReady k s h b in
      rw (generate_nonce-ready (after k s) t.0, t.1)
        (ap (λ n. some (s.nonce_salt ++ le_bytes n)) (omega (arith, t.2)))

  -- Of the nonces that a worker generates, the i-th and the j-th are equal exactly when i and j
  -- agree modulo 2 ^ 32.
  pub generate_nonce-repeats :
      (s : State) (i j : ℕ)
      → IsReady s
      → s.nonce_counter < 2 ^ 32
      → ((generate_nonce S (after i s)).0 ≡ (generate_nonce S (after j s)).0)
        ↔ (i % 2 ^ 32 ≡ j % 2 ^ 32)
  generate_nonce-repeats s i j h b = (
    λ e. omega (
      arith,
      ap le_value (
          append_cancel s.nonce_salt (le_bytes (u32 (s.nonce_counter + i + 1)))
            (le_bytes (u32 (s.nonce_counter + j + 1)))
            (cc (e, nonce-after i s h b, nonce-after j s h b))),
      le_value-le_bytes (u32 (s.nonce_counter + i + 1)) (omega arith),
      le_value-le_bytes (u32 (s.nonce_counter + j + 1)) (omega arith),
    ),
    λ e.
        nonce-after i s h b
        ∙ ap (λ n. some (s.nonce_salt ++ le_bytes n)) (omega arith)
        ∙ sym (nonce-after j s h b),
  )
