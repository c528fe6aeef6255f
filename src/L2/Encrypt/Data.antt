-- ===== src/L2/Encrypt/Data.antt =====
-- The frame that `do_encrypt` makes of one that is long enough and has a known EtherType.
use ne.Base.{
  ℕ, ◌+◌, ◌-◌, ◌≤◌, ◌<◌, ◌≡◌, ◌∙◌, ap, sym, inl, inr, true, some, List, ◌++◌, arith, length, Mem,
  slice, put, copy,
}
use ne.Base.Slices.{put-outside, length-slice, slice_ext}
use ne.Worker.{State}
use ne.Eth
use ne.Crypto.{Scrypt, CryptoCtx, generate_nonce, seal_calls}
use ne.Crypto.Gcm.{IsGcm, encrypt_payload-eq, length-sealed}
use ne.L2.Wire.{write_wire_header, Image}
use ne.L2.Encrypt.{do_encrypt}
use ne.L2.Encrypt.Payload.{
  generate_nonce-keeps, header_types, header_nonce, header_outside, put-Image,
}

-- The library's calls succeed for this worker and this frame.
pub record Sealing {Ctx : Type 0} (S : Scrypt Ctx) (ctx : CryptoCtx) (s : State)
    (plain nonce cipher tag : List ℕ) : Type 0 where
  pub gcm : IsGcm S
  pub keyed : ctx.initialized ≡ true
  pub ready : s.initialized ≡ true
  pub drawn : (generate_nonce S s).0 ≡ some nonce
  pub nonce_length : length nonce ≡ 12
  pub calls : seal_calls S ctx.key nonce plain ≡ some (cipher, tag)

module _ {Ctx : Type 0} (S : Scrypt Ctx) (ctx : CryptoCtx) (packet : Mem) (n : ℕ) (s : State)
    (nonce cipher tag : List ℕ) (long : 27 ≤ n) (typed : Eth.inner_et_off packet n ≡ some 12)
    (ok : Sealing S ctx s (slice packet 12 (n - 12)) nonce cipher tag) where
  abbrev moved : Mem
  moved = copy packet 27 packet 12 (n - 12)

  abbrev headed : Mem
  headed = write_wire_header moved 12 0x104A s.worker_idx nonce

  abbrev pub wire : Mem
  wire = put headed 27 (cipher ++ tag)

  headed_plain : slice headed 27 (n - 12) ≡ slice packet 12 (n - 12)
  headed_plain = slice_ext headed packet 27 12 (n - 12) λ i h.
      header_outside moved 0x104A s.worker_idx nonce ok.nonce_length (27 + i) (inr (omega arith))
      ∙ ground (arith, ap packet {x = 12 + (27 + i - 27)} {y = 12 + i} (omega arith))

  pub do_encrypt-eq : do_encrypt S ctx packet n s ≡ (some (wire, n + 31), (generate_nonce S s).1)
  unfolding do_encrypt
  do_encrypt-eq = ground (
    arith,
    generate_nonce-keeps S s,
    length-slice packet 12 (n - 12),
    encrypt_payload-eq S ok.gcm ctx.key nonce (slice packet 12 (n - 12)) cipher tag ok.calls headed
        27 (n - 12) (sym (length-slice packet 12 (n - 12))) (omega arith) headed_plain,
  )

  pub wire-Image : Image wire (n + 31) 0x4A s.worker_idx nonce (cipher ++ tag) 27
  wire-Image =
      let types = header_types moved 0x104A s.worker_idx nonce ok.nonce_length in
      put-Image headed (n + 31) 0x4A s.worker_idx nonce (cipher ++ tag) 27 (omega arith)
        (omega (arith, types), omega (arith, types), types.2) ok.nonce_length
        (header_nonce moved 0x104A s.worker_idx nonce ok.nonce_length)
        (omega (
          arith,
          length-sealed S ok.gcm ctx.key nonce (slice packet 12 (n - 12)) cipher tag ok.calls,
          length-slice packet 12 (n - 12),
        ))

  pub wire-outside : (i : ℕ) → i < 12 → wire i ≡ packet i
  wire-outside i h =
      put-outside headed 27 (cipher ++ tag) i (inl (omega arith))
      ∙ header_outside moved 0x104A s.worker_idx nonce ok.nonce_length i (inl h)
      ∙ ground arith
