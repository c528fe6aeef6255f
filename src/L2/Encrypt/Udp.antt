-- ===== src/L2/Encrypt/Udp.antt =====
-- A frame with a shim: what do_encrypt_udp and the two fragment encryptions have in common, for a
-- buffer that has the payload at byte 44, behind the room for the headers.
use ne.Base.{
  ℕ, ◌+◌, ◌-◌, ◌≤◌, ◌<◌, ◌≡◌, ◌∙◌, ap, sym, inl, inr, true, some, List, ◌++◌, arith, length,
  length-append, get_or-append_left, get_or-append_right, Mem, put,
}
use native.Mathlib.Decide.{dec_lt}
use ne.Base.Slices.{Holds, put-Holds, put-outside}
use ne.Worker.{State}
use ne.Crypto.{Scrypt, CryptoCtx, encrypt_payload}
use ne.Crypto.Gcm.{encrypt_payload-eq, length-sealed, slice_of_Holds}
use ne.L2.{Meta}
use ne.L2.Shim.{shim_bytes, write_shim, marker_bytes, marker_write}
use ne.L2.Wire.{write_wire_header, Image}
use ne.L2.Encrypt.Data.{Sealing}
use ne.L2.Encrypt.Payload.{header_types, header_nonce, header_outside, put-Image}

-- The plaintext of a frame with a shim.
abbrev pub shimmed : ℕ → Meta → List ℕ → List ℕ
shimmed kind stamp payload = shim_bytes kind stamp ++ payload

module _ {Ctx : Type 0} (S : Scrypt Ctx) (ctx : CryptoCtx) (s : State) (base : Mem) (kind : ℕ)
    (stamp : Meta) (payload nonce cipher tag : List ℕ) (at : Holds base 44 payload)
    (ok : Sealing S ctx s (shimmed kind stamp payload) nonce cipher tag) where
  abbrev headed : Mem
  headed = write_wire_header (write_shim base 31 kind stamp) 12 0x104B s.worker_idx nonce

  abbrev pub marked : Mem
  marked = marker_write headed 27

  abbrev pub sent : Mem
  sent = put marked 31 (cipher ++ tag)

  length-shimmed : length (shimmed kind stamp payload) ≡ 13 + length payload
  length-shimmed = length-append (shim_bytes kind stamp) payload

  -- Beyond the marker the buffer is as the shim left it.
  marked_above : (i : ℕ) → 31 ≤ i → marked i ≡ write_shim base 31 kind stamp i
  unfolding marker_write
  marked_above i h =
      put-outside headed 27 marker_bytes i (inr h)
      ∙ header_outside (write_shim base 31 kind stamp) 0x104B s.worker_idx nonce ok.nonce_length i
          (inr (omega arith))

  marked_plain : Holds marked 31 (shimmed kind stamp payload)
  unfolding write_shim
  marked_plain i h = elim (dec_lt i 13) [
    | yes p ↦
        marked_above (31 + i) (omega arith)
        ∙ put-Holds base 31 (shim_bytes kind stamp) i p
        ∙ sym (get_or-append_left (shim_bytes kind stamp) payload i 0 p)
    | no p ↦
        marked_above (31 + i) (omega arith)
        ∙ put-outside base 31 (shim_bytes kind stamp) (31 + i) (inr (omega arith))
        ∙ ap base (omega arith)
        ∙ at (i - 13) (omega (arith, length-shimmed))
        ∙ sym (get_or-append_right (shim_bytes kind stamp) payload i 0 (omega arith))
  ]

  pub sealed-eq :
      encrypt_payload S true ctx.key nonce marked 31 (13 + length payload)
      ≡ some (sent, length payload + 29)
  sealed-eq =
      encrypt_payload-eq S ok.gcm ctx.key nonce (shimmed kind stamp payload) cipher tag ok.calls
        marked 31 (13 + length payload) (sym length-shimmed) (omega arith)
        (slice_of_Holds marked 31 (13 + length payload) (shimmed kind stamp payload)
          (sym length-shimmed) marked_plain)
      ∙ ap (λ k. some (sent, k)) (omega (arith, length-shimmed))

  pub sent-Image : Image sent (length payload + 60) 0x4B s.worker_idx nonce (cipher ++ tag) 31
  unfolding marker_write
  sent-Image =
      let shim = write_shim base 31 kind stamp in
      let types = header_types shim 0x104B s.worker_idx nonce ok.nonce_length in
      put-Image marked (length payload + 60) 0x4B s.worker_idx nonce (cipher ++ tag) 31
        (omega arith)
        (
          put-outside headed 27 marker_bytes 12 (inl (omega arith)) ∙ types.0,
          put-outside headed 27 marker_bytes 13 (inl (omega arith)) ∙ types.1,
          put-outside headed 27 marker_bytes 14 (inl (omega arith)) ∙ types.2,
        )
        ok.nonce_length
        (λ i h.
          put-outside headed 27 marker_bytes (15 + i) (inl (omega (arith, ok.nonce_length)))
          ∙ header_nonce shim 0x104B s.worker_idx nonce ok.nonce_length i h)
        (omega (
          arith,
          length-sealed S ok.gcm ctx.key nonce (shimmed kind stamp payload) cipher tag ok.calls,
          length-shimmed,
        ))

  pub sent-marker : Holds sent 27 marker_bytes
  unfolding marker_write
  sent-marker i h =
      put-outside marked 31 (cipher ++ tag) (27 + i) (inl (omega arith))
      ∙ put-Holds headed 27 marker_bytes i h

  pub sent-outside : (i : ℕ) → i < 12 → sent i ≡ base i
  unfolding marker_write write_shim
  sent-outside i h =
      put-outside marked 31 (cipher ++ tag) i (inl (omega arith))
      ∙ put-outside headed 27 marker_bytes i (inl (omega arith))
      ∙ header_outside (write_shim base 31 kind stamp) 0x104B s.worker_idx nonce ok.nonce_length i
          (inl h)
      ∙ put-outside base 31 (shim_bytes kind stamp) i (inl (omega arith))
