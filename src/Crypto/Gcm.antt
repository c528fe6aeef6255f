-- ===== src/Crypto/Gcm.antt =====
-- What the code relies on of AES-256-GCM, and what it gives for a payload in a buffer.
use ne.Base.{
  ℕ, zero, suc, ◌+◌, ◌-◌, ◌<◌, ◌≡◌, refl, ap, ◌∙◌, true, some, List, [], ◌∷◌, ◌++◌, arith, length,
  get_or, take, length-append, get_or-append_left, get_or-append_right, Mem, slice, put,
}
use ne.Base.Slices.{Holds, slice-eq}
use ne.Crypto.{Scrypt, seal_calls, open_calls, encrypt_payload, decrypt_payload}

-- The documented behaviour of authenticated encryption: the ciphertext has the length of the
-- plaintext, the tag its set size, and decryption under the same key, nonce and tag inverts it.
pub record IsGcm {Ctx : Type 0} (S : Scrypt Ctx) : Type 0 where
  pub lengths :
      (key nonce plain cipher tag : List ℕ)
      → seal_calls S key nonce plain ≡ some (cipher, tag)
      → (length cipher ≡ length plain) × (length tag ≡ 16)
  pub inverts :
      (key nonce plain cipher tag : List ℕ)
      → seal_calls S key nonce plain ≡ some (cipher, tag)
      → open_calls S key nonce cipher tag ≡ some plain

take_all : (n : ℕ) (xs : List ℕ) → length xs ≡ n → take n xs ≡ xs
take_all zero [] h = refl
take_all zero (x ∷ xs) h = absurd (omega arith)
take_all (suc n) [] h = absurd (omega arith)
take_all (suc n) (x ∷ xs) h = ap (λ ys. x ∷ ys) (take_all n xs (omega arith))

pub slice_of_Holds :
    (m : Mem) (off n : ℕ) (xs : List ℕ) → n ≡ length xs → Holds m off xs → slice m off n ≡ xs
slice_of_Holds m off n xs e h = ap (slice m off) e ∙ slice-eq m off xs h

module _ {Ctx : Type 0} (S : Scrypt Ctx) (gcm : IsGcm S) (key nonce plain cipher tag : List ℕ)
    (calls : seal_calls S key nonce plain ≡ some (cipher, tag)) where
  pub length-sealed : length (cipher ++ tag) ≡ length plain + 16
  length-sealed =
      omega (arith, length-append cipher tag, gcm.lengths key nonce plain cipher tag calls)

  -- A payload that the library seals is replaced by ciphertext and tag.
  pub encrypt_payload-eq :
      (m : Mem) (off len : ℕ)
      → len ≡ length plain
      → 0 < len
      → slice m off len ≡ plain
      → encrypt_payload S true key nonce m off len
        ≡ some (put m off (cipher ++ tag), length plain + 16)
  unfolding encrypt_payload
  encrypt_payload-eq m off len e pos at =
      let ls = gcm.lengths key nonce plain cipher tag calls in
      rw (at, calls) (ground (arith, take_all 16 tag ls.1, ls))

  -- Sealed bytes are opened in place.
  pub decrypt_payload-eq :
      (m : Mem) (off len : ℕ)
      → len ≡ length plain + 16
      → 0 < length plain
      → Holds m off (cipher ++ tag)
      → decrypt_payload S true key nonce m off len ≡ some (put m off plain, length plain)
  unfolding decrypt_payload
  decrypt_payload-eq m off len e pos holds =
      rw
        (
          slice_of_Holds m off (len - 16) cipher (omega (arith, ls)) at_cipher,
          slice_of_Holds m (off + (len - 16)) 16 tag (omega (arith, ls)) at_tag,
          gcm.inverts key nonce plain cipher tag calls,
        )
        (ground arith)
    where
      ls : (length cipher ≡ length plain) × (length tag ≡ 16)
      ls = gcm.lengths key nonce plain cipher tag calls

      at_cipher : Holds m off cipher
      at_cipher i h =
          holds i (omega (arith, length-append cipher tag)) ∙ get_or-append_left cipher tag i 0 h

      at_tag : Holds m (off + (len - 16)) tag
      at_tag i h =
          ap m (omega (arith, ls))
          ∙ holds (length cipher + i) (omega (arith, length-append cipher tag))
          ∙ get_or-append_right cipher tag (length cipher + i) 0 (omega arith)
          ∙ ap (λ k. get_or tag k 0) (omega arith)
