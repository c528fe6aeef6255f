-- ===== src/L2/Decrypt/Udp.antt =====
-- A receiver opens a frame with a shim: it gets the payload at byte 14, and the stamp.
use ne.Base.{
  ℕ, ◌+◌, ◌-◌, ◌≤◌, ◌<◌, ◌≡◌, ◌∙◌, ap, sym, inl, inr, true, some, List, ◌++◌, arith, length, get_or,
  length-append, get_or-append_right, get_or-append_left, Mem, put, copy, ◌==◌, if◌then◌else◌,
}
use ne.Base.Slices.{Holds, put-Holds, put-outside}
use ne.Eth
use ne.Crypto.{Scrypt, CryptoCtx, seal_calls}
use ne.Crypto.Gcm.{IsGcm, slice_of_Holds, decrypt_payload-eq}
use ne.L2.{Meta}
use ne.L2.Shim.{shim_bytes, marker_bytes, marker_match, IsWord, read_shim-Holds}
use ne.L2.Wire.{Image}
use ne.L2.Decrypt.{do_decrypt_udp}
use ne.L2.Decrypt.Open.{inner-marked}
use ne.L2.Encrypt.Udp.{shimmed}

pub marker-Holds :
    (m : Mem) (n off : ℕ) → off + 4 ≤ n → Holds m off marker_bytes → marker_match m n off ≡ true
unfolding marker_match
marker-Holds m n off h holds =
    let first : m off ≡ 0x5B = ap m (omega arith) ∙ holds 0 (omega arith) in
    ground (arith, holds 1 (omega arith), holds 2 (omega arith), holds 3 (omega arith))

module _ {Ctx : Type 0} (S : Scrypt Ctx) (gcm : IsGcm S) (ctx : CryptoCtx) (kind : ℕ) (stamp : Meta)
    (payload nonce cipher tag : List ℕ) (keyed : ctx.initialized ≡ true)
    (calls : seal_calls S ctx.key nonce (shimmed kind stamp payload) ≡ some (cipher, tag)) where
  abbrev plain : List ℕ
  plain = shimmed kind stamp payload

  -- The buffer after the payload has moved down.
  abbrev pub lowered : Mem → Mem
  lowered m = copy (put m 31 plain) 14 (put m 31 plain) 44 (length payload)

  abbrev pub restored : Mem → Mem
  restored m = if kind == 2 then Eth.set_ipv4_et (lowered m) 12 else lowered m

  pub do_decrypt_udp-eq :
      (m : Mem) (worker : ℕ)
      → kind ≤ 2
      → IsWord stamp
      → Image m (length payload + 60) 0x4B worker nonce (cipher ++ tag) 31
      → Holds m 27 marker_bytes
      → do_decrypt_udp S true ctx m (length payload + 60)
        ≡ some
            (record { packet = restored m; len = 14 + length payload; kind = kind; stamp = stamp })
  unfolding do_decrypt_udp
  do_decrypt_udp-eq m worker k w im marker =
      let len : length plain ≡ 13 + length payload =
        length-append (shim_bytes kind stamp) payload in
      ground (
        arith,
        len,
        marker-Holds m (length payload + 60) 27 (omega arith) marker,
        inner-marked m (length payload + 60) (omega arith) im.et_high (inr im.et_low),
        inner-marked (put m 31 plain) (length payload + 60) (omega arith)
            (put-outside m 31 plain 12 (inl (omega arith)) ∙ im.et_high)
            (inr (put-outside m 31 plain 13 (inl (omega arith)) ∙ im.et_low)),
        slice_of_Holds m 15 12 nonce (sym im.nonce_length) im.nonce_at,
        decrypt_payload-eq S gcm ctx.key nonce plain cipher tag calls m 31 (length payload + 29)
            (omega (arith, len)) (omega (arith, len)) im.body_at,
        read_shim-Holds (put m 31 plain) 31 kind stamp k w (λ i h.
            put-Holds m 31 plain i (omega (arith, len))
            ∙ get_or-append_left (shim_bytes kind stamp) payload i 0 h),
      )

  pub lowered-payload : (m : Mem) → Holds (lowered m) 14 payload
  lowered-payload m i h = ground (
    arith,
    put-Holds m 31 plain (13 + i) (omega (arith, length-append (shim_bytes kind stamp) payload)),
    get_or-append_right (shim_bytes kind stamp) payload (13 + i) 0 (omega arith),
    ap (λ k. get_or payload k 0) {x = 13 + i - 13} {y = i} (omega arith),
    ap (put m 31 plain) {x = 44 + (14 + i - 14)} {y = 31 + (13 + i)} (omega arith),
  )

  pub lowered-below : (m : Mem) (i : ℕ) → i < 14 → lowered m i ≡ m i
  lowered-below m i h = ground arith
