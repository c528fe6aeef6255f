-- ===== src/Crypto.antt =====
-- src/crypto/pqc/traffic_crypto.c, src/crypto/pqc/include/crypto_pqc_layer.h and
-- src/crypto/common/packet_crypto.c: nonces, and AES-256-GCM over libscrypt, which is a parameter.
-- A status other than OK is `none`; every caller then drops the packet.
pub mod Nonce
pub mod Gcm
use ne.Base.{
  ℕ, ◌+◌, ◌-◌, ◌/◌, ◌^◌, ◌≡◌, Bool, true, false, Option, none, some, List, [], ◌∷◌, ◌++◌, u8, u32,
  ltb, if◌then◌else◌, ◌>>=◌, ◌>>◌, check, length, take, drop, Mem, slice, put, shr,
}
use ne.Worker.{State, Exec}

-- inc/crypto/scrypt.h: the calls of libscrypt that the code makes. `Ctx` is a cipher context.
pub record Scrypt (Ctx : Type 0) : Type 0 where
  -- scrypt_Init() == 0
  pub init_ok : Bool
  pub random_bytes : ℕ → Option (List ℕ)
  -- the thread's context for encryption (`true`) or decryption
  pub ctx_new : Bool → Option Ctx
  -- key, nonce, encryption?
  pub cipher_init : Ctx → List ℕ → List ℕ → Bool → Option Ctx
  pub set_tag_size : Ctx → ℕ → Option Ctx
  pub update : Ctx → List ℕ → Option (List ℕ × Ctx)
  pub final : Ctx → Option (List ℕ × Ctx)
  pub get_tag : Ctx → Option (List ℕ)
  pub set_tag : Ctx → List ℕ → Option Ctx

abbrev pub gcm_tag_size : ℕ
gcm_tag_size = 16

abbrev pub nonce_bytes : ℕ
nonce_bytes = 12

-- struct packet_crypto_ctx
pub record CryptoCtx : Type 0 where
  pub key : List ℕ
  pub initialized : Bool

unfoldable pub packet_crypto_init : List ℕ → CryptoCtx
packet_crypto_init key = record { key = key; initialized = true }

-- crypto_pqc_sess_load: the session is the key.
unfoldable pub sess_load : CryptoCtx → Option (List ℕ)
sess_load ctx = if ctx.initialized then some ctx.key else none

-- The four bytes of a `uint32_t` as they lie in the memory of the (little-endian) host.
abbrev pub le_bytes : ℕ → List ℕ
le_bytes n = u8 n ∷ u8 (shr n 8) ∷ u8 (shr n 16) ∷ u8 (shr n 24) ∷ []

module _ {Ctx : Type 0} (S : Scrypt Ctx) where
  unfoldable pub init_global : State → Option State
  init_global s =
      if s.initialized
      then some s
      else if S.init_ok
      then some (record s { initialized = true })
      else none

  unfoldable pub cleanup : State → State
  cleanup s = record s { initialized = false }

  -- The salt is drawn at the thread's first nonce.
  unfoldable pub seed_salt : State → Option State
  seed_salt s = if s.nonce_ready then some s else elim (S.random_bytes 8) [
    | none ↦ none
    | some salt ↦ some (record s { nonce_salt = salt; nonce_ready = true })
  ]

  unfoldable pub generate_nonce : Exec (List ℕ)
  unfolding seed_salt
  generate_nonce s =
      if s.initialized
      then elim (seed_salt s) [
        | none ↦ (none, s)
        | some t ↦ (
          some (t.nonce_salt ++ le_bytes (u32 (t.nonce_counter + 1))),
          record t { nonce_counter = u32 (t.nonce_counter + 1) },
        )
      ]
      else (none, s)

  -- The calls of one encryption: what `Update` and `Final` wrote, and the tag.
  unfoldable pub seal_calls : List ℕ → List ℕ → List ℕ → Option (List ℕ × List ℕ)
  seal_calls key nonce plain = do
    c ← S.ctx_new true
    c ← S.cipher_init c key nonce true
    c ← S.set_tag_size c gcm_tag_size
    (out, c) ← S.update c plain
    (fin, c) ← S.final c
    tag ← S.get_tag c
    some (out ++ fin, tag)

  -- The calls of one decryption, which fail if the tag does not fit.
  unfoldable pub open_calls : List ℕ → List ℕ → List ℕ → List ℕ → Option (List ℕ)
  open_calls key nonce cipher tag = do
    c ← S.ctx_new false
    c ← S.cipher_init c key nonce false
    c ← S.set_tag_size c gcm_tag_size
    c ← S.set_tag c tag
    (out, c) ← S.update c cipher
    (fin, c) ← S.final c
    some (out ++ fin)

  -- trf_encrypt_payload_gcm on the `len` bytes at `off`, in place: the buffer, and the new length.
  unfoldable pub encrypt_payload : Bool → List ℕ → List ℕ → Mem → ℕ → ℕ → Option (Mem × ℕ)
  unfolding seal_calls
  encrypt_payload initialized key nonce m off len = do
    check initialized
    check (ltb 0 len)
    (cipher, tag) ← seal_calls key nonce (slice m off len)
    let tagged = take gcm_tag_size tag
    some (put m off (cipher ++ tagged), length cipher + gcm_tag_size)

  -- trf_decrypt_payload_gcm
  unfoldable pub decrypt_payload : Bool → List ℕ → List ℕ → Mem → ℕ → ℕ → Option (Mem × ℕ)
  unfolding open_calls
  decrypt_payload initialized key nonce m off len = do
    check initialized
    check (ltb gcm_tag_size len)
    let cipher_len = len - gcm_tag_size
    let tag = slice m (off + cipher_len) gcm_tag_size
    plain ← open_calls key nonce (slice m off cipher_len) tag
    some (put m off plain, length plain)
