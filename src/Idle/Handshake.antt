-- ===== src/Idle/Handshake.antt =====
-- The handshake between the threads that put packets in rings and a crypto worker that takes them
-- out, one shared access per step: dp_ring_push and the receive threads with ne_dp_idle_wake, and
-- crypto_worker_thread with crypto_idle_pause of src/core/forwarder/forwarder.c. The accesses are
-- those of release and acquire: ne_ring_count takes no lock, so that a store may become visible to the
-- other side after the loads that follow it in its own thread. The clock and the warm pauses are left
-- out, and forwarder_stop.
use ne.Idle.{State, set_at, wake_test, eventfd_signal, set_sleeping, drain_eventfd}
use ne.Base.{ℕ, ◌+◌, ◌-◌, ◌<◌, ◌≡◌, Bool, true, false, some, List, [], ◌∷◌, ◌++◌}

-- Where the worker stands: in its loop in front of a ring, with what it has done in this round; after
-- ne_dp_idle_arm in front of the look at a ring, the last one first; in poll(); behind it; behind the read of the event
-- descriptor.
pub data Pc : Type 0 where
  popping : (ring : ℕ) → (did_work : Bool) → Pc
  checking : (ring : ℕ) → Pc
  polling : Pc
  polled : Pc
  drained : Pc

-- The worker `id` and the producers. `idle` has the flag as the producers see it, `stores` the stores
-- to it by the worker that they do not see yet, the oldest first. `jobs` has the numbers of packets as
-- the worker sees them, `hidden` those that have been put in and that it does not see yet. `pushed`
-- producers have put a packet in and have not called ne_dp_idle_wake yet, `signalling` have passed
-- its guards. `taken` counts what the worker has taken from each ring.
pub record System : Type 0 where
  pub idle : State
  pub stores : List Bool
  pub jobs : ℕ → ℕ
  pub hidden : ℕ → ℕ
  pub pc : Pc
  pub pushed : ℕ
  pub signalling : ℕ
  pub taken : ℕ → ℕ

module _ (id rings : ℕ) where
  -- What the worker does.
  pub data Own (s : System) : System → Type 0 where
    pop :
        (ring : ℕ) (did : Bool)
        → s.pc ≡ popping ring did
        → ring < rings
        → 0 < s.jobs ring
        → Own s (record s {
          jobs = set_at s.jobs ring (s.jobs ring - 1);
          taken = set_at s.taken ring (s.taken ring + 1);
          pc = popping (ring + 1) true;
        })
    pass :
        (ring : ℕ) (did : Bool)
        → s.pc ≡ popping ring did
        → ring < rings
        → s.jobs ring ≡ 0
        → Own s (record s { pc = popping (ring + 1) did })
    again : (did : Bool) → s.pc ≡ popping rings did → Own s (record s { pc = popping 0 false })
    arm :
        s.pc ≡ popping rings false
        → Own s (record s { stores = s.stores ++ (true ∷ []); pc = checking 0 })
    found :
        (ring : ℕ)
        → s.pc ≡ checking ring
        → ring < rings
        → 0 < s.jobs (rings - (ring + 1))
        → Own s (record s { stores = s.stores ++ (false ∷ []); pc = popping 0 false })
    not_found :
        (ring : ℕ)
        → s.pc ≡ checking ring
        → ring < rings
        → s.jobs (rings - (ring + 1)) ≡ 0
        → Own s (record s { pc = checking (ring + 1) })
    wait : s.pc ≡ checking rings → Own s (record s { pc = polling })
    readable :
        (counter : ℕ)
        → s.pc ≡ polling
        → s.idle.efd id ≡ some (counter + 1)
        → Own s (record s { pc = polled })
    time_out : s.pc ≡ polling → Own s (record s { pc = polled })
    drain : s.pc ≡ polled → Own s (record s { idle = drain_eventfd s.idle id; pc = drained })
    disarm :
        s.pc ≡ drained
        → Own s (record s { stores = s.stores ++ (false ∷ []); pc = popping 0 false })

  -- What the others do, and what becomes visible.
  pub data Other (s : System) : System → Type 0 where
    push :
        (ring : ℕ)
        → ring < rings
        → Other s
            (record s { hidden = set_at s.hidden ring (s.hidden ring + 1); pushed = s.pushed + 1 })
    publish :
        (ring : ℕ)
        → 0 < s.hidden ring
        → Other s (record s {
          hidden = set_at s.hidden ring (s.hidden ring - 1);
          jobs = set_at s.jobs ring (s.jobs ring + 1);
        })
    flag :
        (on : Bool) (later : List Bool)
        → s.stores ≡ on ∷ later
        → Other s (record s { idle = set_sleeping s.idle (some id) on; stores = later })
    test_pass :
        0 < s.pushed
        → wake_test s.idle (some id) ≡ true
        → Other s (record s { pushed = s.pushed - 1; signalling = s.signalling + 1 })
    test_fail :
        0 < s.pushed
        → wake_test s.idle (some id) ≡ false
        → Other s (record s { pushed = s.pushed - 1 })
    signal :
        0 < s.signalling
        → Other s (record s { idle = eventfd_signal s.idle id; signalling = s.signalling - 1 })

  -- Steps one after the other, of which `n` are the worker's.
  pub data Steps : System → ℕ → System → Type 0 where
    done : {s : System} → Steps s 0 s
    own : {s t u : System} {n : ℕ} → Own s t → Steps t n u → Steps s (n + 1) u
    other : {s t u : System} {n : ℕ} → Other s t → Steps t n u → Steps s n u

-- With the idling initialised and nothing put in yet.
abbrev pub initial : State → System
initial idle = record {
  idle = idle;
  stores = [];
  jobs = λ i. 0;
  hidden = λ i. 0;
  pc = popping 0 false;
  pushed = 0;
  signalling = 0;
  taken = λ i. 0;
}
