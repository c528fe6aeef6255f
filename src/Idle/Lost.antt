-- ===== src/Idle/Lost.antt =====
-- A wake-up that is lost between a producer and a worker.
use ne.Base.{ℕ, ◌<◌, ◌≡◌, true, some, []}
use ne.Idle.Handshake.{polling, System, Steps}

-- A worker that waits though it sees a packet, with its flag set for all to see, and nothing underway: no
-- store that is still to become visible, no producer that has still to look at the flag or to signal,
-- and a descriptor that is not readable.
pub record IsLost (id ring : ℕ) (s : System) : Type 0 where
  pub waiting : s.pc ≡ polling
  pub packet : 0 < s.jobs ring
  pub flagged : s.idle.sleeping id ≡ true
  pub none_late : s.stores ≡ []
  pub none_hidden : (r : ℕ) → s.hidden r ≡ 0
  pub none_pushed : s.pushed ≡ 0
  pub none_signalling : s.signalling ≡ 0
  pub silent : s.idle.efd id ≡ some 0

module _ (id rings : ℕ) where
  abbrev pub Leads : System → System → Type 0
  Leads s t = (n : ℕ) × Steps id rings s n t
