-- ===== src/Tests/Wakeups.antt =====
-- Instances for idling: a crypto worker with two rings.
use ne.Base.{◌+◌, ◌≤◌, ◌≡◌, ◌↔◌, true, false, some, [], ◌∷◌, arith}
use ne.Idle.Thresholds.{armed, idle_arm-cold_iff}
use ne.Idle.{State, set_at, note_work, cold, cold_ns, idle_arm, drain_eventfd}
use ne.Idle.Handshake.{System, popping, polling, initial}

abbrev pub quiet : State
quiet = record { ready = true; busy_poll = false; efd = λ i. some 0; sleeping = λ i. false }

idle_arm-cold_iff_example :
    ((idle_arm quiet (some 3) (armed quiet (some 3) (note_work 7) (1000 ∷ 9000 ∷ [])) 26000).2
      ≡ cold)
    ↔ ((false ≡ false) × (1000 + cold_ns ≤ 26000))
idle_arm-cold_iff_example =
    idle_arm-cold_iff quiet (some 3) 7 1000 26000 (9000 ∷ []) (omega arith) (omega arith)
      (omega arith)

abbrev asleep : State
asleep = record quiet { sleeping = set_at (λ i. false) 0 true }

-- The worker waits, and there is a packet in its second ring; poll() times out, and it takes that.
abbrev waiting : System
waiting = record (initial asleep) { pc = polling; jobs = set_at (λ i. 0) 1 1 }

abbrev served : System
served = record (initial (drain_eventfd asleep 0)) {
  stores = false ∷ [];
  pc = popping 2 true;
  jobs = set_at (set_at (λ i. 0) 1 1) 1 0;
  taken = set_at (λ i. 0) 1 1;
}
