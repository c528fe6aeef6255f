-- ===== src/L2/Decrypt/Open.antt =====
-- A receiver opens a frame of the wire layout; and what a worker encrypts, the other end decrypts.
use ne.Base.{◌⊎◌}
use ne.Base.{inl}
use ne.Base.{
  ℕ, ◌+◌, ◌-◌, ◌≤◌, ◌<◌, ◌≡◌, ◌∙◌, ap, sym, true, some, List, ◌++◌, arith, length, get_or, Mem,
  slice, put, copy, Agree,
}
use ne.Base.Slices.{length-slice, get_or-slice}
use native.Mathlib.Decide.{dec_lt}
use ne.Worker.{State}
use ne.Eth
use ne.Crypto.{Scrypt, CryptoCtx, seal_calls}
use ne.Crypto.Gcm.{IsGcm, slice_of_Holds, length-sealed, decrypt_payload-eq}
use ne.L2.Wire.{enc_start_off, restore_plain_packet, Image}
use ne.L2.Decrypt.{do_decrypt}
use ne.L2.Encrypt.{do_encrypt}
use ne.L2.Encrypt.Data.{Sealing, do_encrypt-eq, wire, wire-Image, wire-outside}

-- Both encrypted EtherTypes are found at byte 12.
pub inner-marked :
    (m : Mem) (n : ℕ)
    → 14 ≤ n
    → m 12 ≡ 0x10
    → (m 13 ≡ 0x4A) ⊎ (m 13 ≡ 0x4B)
    → Eth.inner_et_off m n ≡ some 12
unfolding Eth.inner_et_off
inner-marked m n long high low = ground arith

module _ {Ctx : Type 0} (S : Scrypt Ctx) (gcm : IsGcm S) (ctx : CryptoCtx)
    (plain nonce cipher tag : List ℕ) (keyed : ctx.initialized ≡ true)
    (calls : seal_calls S ctx.key nonce plain ≡ some (cipher, tag)) where
  pub do_decrypt-eq :
      (m : Mem) (n worker : ℕ)
      → 0 < length plain
      → Image m n 0x4A worker nonce (cipher ++ tag) 27
      → do_decrypt S true ctx m n
        ≡ some (copy (put m 27 plain) 12 (put m 27 plain) 27 (length plain), 12 + length plain)
  unfolding do_decrypt enc_start_off restore_plain_packet
  do_decrypt-eq m n worker pos im =
      let ends : n ≡ 27 + (length plain + 16) =
        omega (arith, im.ends, length-sealed S gcm ctx.key nonce plain cipher tag calls) in
      ground (
        arith,
        ends,
        inner-marked m n (omega arith) im.et_high (inl im.et_low),
        inner-marked (put m 27 plain) n (omega arith) (ground (arith, im.et_high))
            (inl (ground (arith, im.et_low))),
        slice_of_Holds m 15 12 nonce (sym im.nonce_length) im.nonce_at,
        decrypt_payload-eq S gcm ctx.key nonce plain cipher tag calls m 27 (n - 27) (omega arith)
            pos im.body_at,
      )

-- A plaintext that is written at `at` and moved down to `to` stands there.
pub restored_bytes :
    (m : Mem) (to at : ℕ) (plain : List ℕ) (i : ℕ)
    → i < length plain
    → copy (put m at plain) to (put m at plain) at (length plain) (to + i) ≡ get_or plain i 0
restored_bytes m to at plain i h =
    ground (arith, ap (λ k. get_or plain k 0) {x = at + (to + i - to) - at} {y = i} (omega arith))

pub restored_below :
    (m : Mem) (to at : ℕ) (plain : List ℕ) (i : ℕ)
    → i < to
    → to ≤ at
    → copy (put m at plain) to (put m at plain) at (length plain) i ≡ m i
restored_below m to at plain i h h' = ground arith

-- Where the cipher's calls succeed and do what GCM promises, a frame of at least 27 bytes with the
-- EtherType IPv4 or a marker is encrypted to 31 more bytes, and the
-- receiver with the same key gets the frame back: its length, and each of its bytes.
pub do_decrypt-do_encrypt :
    {Ctx : Type 0} (S : Scrypt Ctx) (ctx : CryptoCtx) (packet : Mem) (n : ℕ) (s : State)
    (nonce cipher tag : List ℕ)
    → 27 ≤ n
    → Eth.inner_et_off packet n ≡ some 12
    → Sealing S ctx s (slice packet 12 (n - 12)) nonce cipher tag
    → (sent : Mem) × ((do_encrypt S ctx packet n s).0 ≡ some (sent, n + 31))
      × ((got : Mem) × (do_decrypt S true ctx sent (n + 31) ≡ some (got, n)) × Agree n got packet)
do_decrypt-do_encrypt S ctx packet n s nonce cipher tag long typed ok = (
  wire S ctx packet n s nonce cipher tag long typed ok,
  ap (λ r. r.0) (do_encrypt-eq S ctx packet n s nonce cipher tag long typed ok),
  (
    got,
    do_decrypt-eq S ok.gcm ctx plain nonce cipher tag ok.keyed ok.calls sent (n + 31) s.worker_idx
          (omega (arith, len)) (wire-Image S ctx packet n s nonce cipher tag long typed ok)
        ∙ ap (λ k. some (got, k)) (omega (arith, len)),
    λ i h. same i h (dec_lt i 12),
  ),
)
  where
    plain : List ℕ
    plain = slice packet 12 (n - 12)

    len : length plain ≡ n - 12
    len = length-slice packet 12 (n - 12)

    sent : Mem
    sent = wire S ctx packet n s nonce cipher tag long typed ok

    got : Mem
    got = copy (put sent 27 plain) 12 (put sent 27 plain) 27 (length plain)

    same : (i : ℕ) → i < n → Dec (i < 12) → got i ≡ packet i
    same i h (yes p) =
        restored_below sent 12 27 plain i p (omega arith)
        ∙ wire-outside S ctx packet n s nonce cipher tag long typed ok i p
    same i h (no p) =
        ap got {x = i} {y = 12 + (i - 12)} (omega arith)
        ∙ restored_bytes sent 12 27 plain (i - 12) (omega (arith, len))
        ∙ get_or-slice packet 12 (n - 12) (i - 12) (omega arith)
        ∙ ap packet (omega arith)
