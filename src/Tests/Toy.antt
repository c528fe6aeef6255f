-- ===== src/Tests/Toy.antt =====
-- A frame, a key, a worker and a cipher to run the code of src/crypto with.
use ne.Base.{arith}
use ne.Base.{IsBytes}
use ne.Base.{
  Bool, true, ltb, ◌&&◌, zero, suc, get_or, ℕ, ◌≡◌, refl, sym, ap, ◌∙◌, Option, none, some, List,
  [], ◌∷◌, length, Mem,
}
use ne.Crypto.{Scrypt, CryptoCtx, seal_calls, open_calls, generate_nonce}
use ne.Crypto.Gcm.{IsGcm}
use ne.L2.Encrypt.Data.{Sealing}
use ne.Worker

abbrev pub of_list : List ℕ → Mem
of_list xs i = get_or xs i 0

-- A UDP packet of 46 bytes from 10.0.0.1 port 256 to 10.0.0.2 port 512.
abbrev pub frame_bytes : List ℕ
frame_bytes =
    2 ∷ 0 ∷ 0 ∷ 0 ∷ 0 ∷ 1 ∷ 2 ∷ 0 ∷ 0 ∷ 0 ∷ 0 ∷ 2 ∷ 0x08 ∷ 0x00 ∷ 0x45 ∷ 0 ∷ 0 ∷ 32 ∷ 0 ∷ 0 ∷ 0 ∷ 0
    ∷ 64 ∷ 17 ∷ 0 ∷ 0 ∷ 10 ∷ 0 ∷ 0 ∷ 1 ∷ 10 ∷ 0 ∷ 0 ∷ 2 ∷ 1 ∷ 0 ∷ 2 ∷ 0 ∷ 0 ∷ 12 ∷ 0 ∷ 0 ∷ 7 ∷ 7 ∷ 7
    ∷ 7 ∷ []

abbrev pub frame : Mem
frame = of_list frame_bytes

abbrev all_bytes : List ℕ → Bool
all_bytes [] = true
all_bytes (x ∷ xs) = ltb x 256 && all_bytes xs

pub of_list-IsBytes : (xs : List ℕ) → all_bytes xs ≡ true → IsBytes (of_list xs)
of_list-IsBytes [] h i = omega arith
of_list-IsBytes (x ∷ xs) h zero = ground arith
of_list-IsBytes (x ∷ xs) h (suc i) = of_list-IsBytes xs (ground arith) i

-- A cipher that hides nothing and always gives the same tag: `Update` keeps the bytes, and `Final`
-- gives them out.
abbrev pub zeros : List ℕ
zeros = 0 ∷ 0 ∷ 0 ∷ 0 ∷ 0 ∷ 0 ∷ 0 ∷ 0 ∷ 0 ∷ 0 ∷ 0 ∷ 0 ∷ 0 ∷ 0 ∷ 0 ∷ 0 ∷ []

abbrev pub toy : Scrypt (List ℕ)
toy = record {
  init_ok = true;
  random_bytes = λ n. some (1 ∷ 2 ∷ 3 ∷ 4 ∷ 5 ∷ 6 ∷ 7 ∷ 8 ∷ []);
  ctx_new = λ enc. some [];
  cipher_init = λ c key nonce enc. some c;
  set_tag_size = λ c n. some c;
  update = λ c xs. some ([], xs);
  final = λ c. some (c, c);
  get_tag = λ c. some zeros;
  set_tag = λ c t. some c;
}

abbrev pub ctx : CryptoCtx
ctx = record { key = 9 ∷ 9 ∷ []; initialized = true }

abbrev pub worker : Worker.State
worker = record {
  initialized = true;
  nonce_salt = 1 ∷ 2 ∷ 3 ∷ 4 ∷ 5 ∷ 6 ∷ 7 ∷ 8 ∷ [];
  nonce_counter = 4;
  nonce_ready = true;
  worker_idx = 3;
  udp_epoch = 77;
  tx_seq = 5;
  tx_datagram_id = 6;
  tx_datagram_clock = 7;
  tx_valid = true;
}

abbrev pub nonce : List ℕ
nonce = 1 ∷ 2 ∷ 3 ∷ 4 ∷ 5 ∷ 6 ∷ 7 ∷ 8 ∷ 5 ∷ 0 ∷ 0 ∷ 0 ∷ []

pub seal_calls-toy :
    (key nonce plain : List ℕ) → seal_calls toy key nonce plain ≡ some (plain, zeros)
unfolding seal_calls
seal_calls-toy k n plain = refl

open_calls-toy : (key nonce cipher tag : List ℕ) → open_calls toy key nonce cipher tag ≡ some cipher
unfolding open_calls
open_calls-toy k n cipher tag = refl

parts : Option (List ℕ × List ℕ) → List ℕ × List ℕ
parts none = ([], [])
parts (some p) = p

sealed_parts :
    (plain cipher tag : List ℕ)
    → ◌≡◌ {A = Option (List ℕ × List ℕ)} (some (plain, zeros)) (some (cipher, tag))
    → (plain ≡ cipher) × (zeros ≡ tag)
unfolding parts
sealed_parts plain cipher tag e = (ap (λ o. (parts o).0) e, ap (λ o. (parts o).1) e)

pub toy-IsGcm : IsGcm toy
toy-IsGcm = record {
  lengths = λ key nonce plain cipher tag e.
      let p = sealed_parts plain cipher tag (sym (seal_calls-toy key nonce plain) ∙ e) in
      (sym (ap length p.0), sym (ap length p.1));
  inverts = λ key nonce plain cipher tag e.
      let p = sealed_parts plain cipher tag (sym (seal_calls-toy key nonce plain) ∙ e) in
      open_calls-toy key nonce cipher tag ∙ ap (λ x. some x) (sym p.0);
}

pub drawn-toy : (generate_nonce toy worker).0 ≡ some nonce
unfolding generate_nonce
drawn-toy = refl

pub toy-Sealing : (plain : List ℕ) → Sealing toy ctx worker plain nonce plain zeros
toy-Sealing plain = record {
  gcm = toy-IsGcm;
  keyed = refl;
  ready = refl;
  drawn = drawn-toy;
  nonce_length = refl;
  calls = seal_calls-toy ctx.key nonce plain;
}

-- The worker after it has drawn that nonce, and the next one.
abbrev pub later : Worker.State
later = (generate_nonce toy worker).1

abbrev pub next_nonce : List ℕ
next_nonce = 1 ∷ 2 ∷ 3 ∷ 4 ∷ 5 ∷ 6 ∷ 7 ∷ 8 ∷ 6 ∷ 0 ∷ 0 ∷ 0 ∷ []

pub toy-later-Sealing : (plain : List ℕ) → Sealing toy ctx later plain next_nonce plain zeros
unfolding generate_nonce
toy-later-Sealing plain = record {
  gcm = toy-IsGcm;
  keyed = refl;
  ready = refl;
  drawn = refl;
  nonce_length = refl;
  calls = seal_calls-toy ctx.key next_nonce plain;
}
