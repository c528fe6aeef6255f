-- ===== src/Worker.antt =====
-- What one crypto worker keeps between calls: the thread-locals of traffic_crypto.c and
-- pqc_l2_option.c, and the two globals that they read.
use ne.Base.{ℕ, Bool, Option, none, some, List}

pub record State : Type 0 where
  -- traffic_crypto.c
  pub initialized : Bool
  pub nonce_salt : List ℕ
  pub nonce_counter : ℕ
  pub nonce_ready : Bool
  -- pqc_l2_option.c
  pub worker_idx : ℕ
  pub udp_epoch : ℕ
  pub tx_seq : ℕ
  pub tx_datagram_id : ℕ
  pub tx_datagram_clock : ℕ
  pub tx_valid : Bool

-- A function that reads and writes the state and may return -1. What it wrote before stays.
abbrev pub Exec : Type 0 → Type 0
Exec A = State → Option A × State

abbrev pub pure : {A : Type 0} → A → Exec A
pure a s = (some a, s)

abbrev pub lift : {A : Type 0} → Option A → Exec A
lift o s = (o, s)

abbrev pub gets : {A : Type 0} → (State → A) → Exec A
gets f s = (some (f s), s)

abbrev pub continue : {A B : Type 0} → Option A → (A → Exec B) → Exec B
continue none f s = (none, s)
continue (some a) f s = f a s

infixl 5 ◌>>=◌ ◌>>◌
abbrev pub ◌>>=◌ : {A B : Type 0} → Exec A → (A → Exec B) → Exec B
◌>>=◌ m f s = let (r, s') = m s in continue r f s'

abbrev pub ◌>>◌ : {B : Type 0} → Exec (Unit {0}) → Exec B → Exec B
m >> k = m >>= λ _. k
