-- ===== src/L2/Encrypt/Payload.antt =====
-- Facts that the encryption of every kind of frame uses.
use ne.Base.{◌∙◌}
use ne.Base.{◌+◌}
use ne.Base.{ℕ, ◌≤◌, ◌<◌, ◌≡◌, ◌⊎◌, List, arith, length, u8, shr, low_bits, Mem, poke, put, inl}
use ne.Base.Slices.{Holds, put-Holds, put-outside}
use ne.Worker.{State}
use ne.Crypto.{Scrypt, generate_nonce}
use ne.L2.Wire.{write_wire_header, Image}

-- A nonce is drawn without touching what else the worker keeps.
pub generate_nonce-keeps :
    {Ctx : Type 0} (S : Scrypt Ctx) (s : State)
    → ((generate_nonce S s).1.initialized ≡ s.initialized)
      × ((generate_nonce S s).1.worker_idx ≡ s.worker_idx)
unfolding generate_nonce
generate_nonce-keeps S s = ground arith

module _ (m : Mem) (fake worker : ℕ) (nonce : List ℕ) (len : length nonce ≡ 12) where
  pub header_types :
      (write_wire_header m 12 fake worker nonce 12 ≡ u8 (shr fake 8))
      × (write_wire_header m 12 fake worker nonce 13 ≡ low_bits fake 8)
      × (write_wire_header m 12 fake worker nonce 14 ≡ u8 worker)
  unfolding write_wire_header
  header_types = ground arith

  pub header_nonce : Holds (write_wire_header m 12 fake worker nonce) 15 nonce
  unfolding write_wire_header
  header_nonce =
      put-Holds
        (poke (poke (poke m 12 (u8 (shr fake 8))) (12 + 1) (low_bits fake 8)) (12 + 2) (u8 worker))
        15 nonce

  pub header_outside :
      (i : ℕ) → (i < 12) ⊎ (27 ≤ i) → write_wire_header m 12 fake worker nonce i ≡ m i
  unfolding write_wire_header
  header_outside i h = ground arith

-- Sealed bytes behind a complete header make a frame.
pub put-Image :
    (m : Mem) (n et worker : ℕ) (nonce body : List ℕ) (start : ℕ)
    → 27 ≤ start
    → (m 12 ≡ 0x10) × (m 13 ≡ et) × (m 14 ≡ u8 worker)
    → length nonce ≡ 12
    → Holds m 15 nonce
    → n ≡ start + length body
    → Image (put m start body) n et worker nonce body start
put-Image m n et worker nonce body start far head nl nonce_at ends = record {
  et_high = ground arith;
  et_low = ground arith;
  core_id = ground arith;
  nonce_length = nl;
  nonce_at = λ i h. put-outside m start body (15 + i) (inl (omega arith)) ∙ nonce_at i h;
  body_at = put-Holds m start body;
  ends = ends;
}
