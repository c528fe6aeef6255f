-- ===== src/Idle/Wakeup.antt =====
-- The steps of a worker from poll() to its rings.
use ne.Base.{ℕ, ◌+◌, ◌≤◌, ◌<◌, ◌≡◌, ◌⊎◌}
use ne.Idle.Handshake.{Pc, popping, checking, polling, polled, drained, System}

module _ (id rings : ℕ) where
  -- The steps until the worker is served, from where it stands.
  abbrev Ahead : ℕ → Pc → ℕ → Type 0
  Ahead ring (popping j did) d = (j ≤ ring) × (d + j ≡ ring + 1)
  Ahead ring (checking j) d = ⊥
  Ahead ring polling d = d ≡ ring + 4
  Ahead ring polled d = d ≡ ring + 3
  Ahead ring drained d = d ≡ ring + 2

  abbrev After : ℕ → ℕ → System → System → Type 0
  After ring d s t =
      (Ahead ring t.pc d × (0 < t.jobs ring) × (t.taken ring ≡ s.taken ring))
      ⊎ ((d ≡ 0) × (s.taken ring < t.taken ring))
