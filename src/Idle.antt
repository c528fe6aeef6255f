-- ===== src/Idle.antt =====
-- Idling of the dataplane's threads: src/core/dataplane/idle.c. Each consumer, a crypto worker or a
-- transmit slot, has a number from 0 to 9, an event descriptor and a flag that says that it sleeps.
-- A number that is negative (the receive threads pass -1) is none. The clock is an argument; 0 says
-- that it failed.
pub mod Thresholds
pub mod Handshake
pub mod Wakeup
pub mod Lost
pub mod WakeAll
use ne.Base.{
  ℕ, zero, suc, ◌+◌, ◌-◌, ◌*◌, ◌/◌, ◌%◌, ◌^◌, ◌≤◌, ◌<◌, min, bit_and, bit_or, bit_xor, ◌≡◌, refl,
  sym, ap, ap₂, ◌∙◌, ◌≢◌, ◌↔◌, ◌⊎◌, inl, inr, Bool, true, false, not, ◌&&◌, ◌||◌, Option, none,
  some, List, [], ◌∷◌, ◌++◌, arith, ltb, leb, ◌==◌, if◌then◌else◌, ==_iff, Bool-cases, Option-cases,
  length, u8, u16, u32, u64, sub32, sub64, shr, low_bits, be16, be32, Mem, IsBytes, inside, poke,
  copy, put, slice, Agree,
}

-- NE_DP_IDLE_HOT_NS, NE_DP_IDLE_COLD_NS, NE_DP_WAKE_N, NE_DP_POLLFD_MAX
abbrev pub hot_ns : ℕ
hot_ns = 5000

abbrev pub cold_ns : ℕ
cold_ns = 25000

abbrev pub wake_n : ℕ
wake_n = 10

abbrev pub pollfd_max : ℕ
pollfd_max = 128

-- NE_DP_WAKE_TX
abbrev pub wake_tx : ℕ → ℕ
wake_tx slot = 6 + slot

-- The globals. An event descriptor that is open has its counter.
pub record State : Type 0 where
  pub ready : Bool
  pub busy_poll : Bool
  pub efd : ℕ → Option ℕ
  pub sleeping : ℕ → Bool

abbrev pub set_at {ℓ} : {A : Type ℓ} → (ℕ → A) → ℕ → A → (ℕ → A)
set_at f i x j = if j == i then x else f j

unfoldable pub wake_ok : Option ℕ → Bool
wake_ok none = false
wake_ok (some id) = ltb id wake_n

-- ne_dp_idle_init: what the environment asks for, and which descriptors could be made.
unfoldable pub idle_init : Bool → (ℕ → Bool) → State → State
idle_init busy made st = if st.ready then st else record {
  ready = true;
  busy_poll = busy;
  efd = λ i. if made i then some 0 else none;
  sleeping = λ i. false;
}

-- ne_dp_idle_shutdown. It sets the busy flag to -1, which reads as true until the next start.
unfoldable pub idle_shutdown : State → State
idle_shutdown st =
    if st.ready
    then record { ready = false; busy_poll = true; efd = λ i. none; sleeping = λ i. false }
    else st

unfoldable pub set_sleeping : State → Option ℕ → Bool → State
set_sleeping st none on = st
set_sleeping st (some id) on =
    if ltb id wake_n then record st { sleeping = set_at st.sleeping id on } else st

-- What a thread does with its time before it looks for work again. Only `cold` is the answer 1.
pub data Pause : Type 0 where
  yields relaxes naps cold : Pause

-- struct ne_dp_idle, its start of the idle time
abbrev pub note_work : ℕ → ℕ
note_work idle_start = 0

-- The part of ne_dp_idle_arm behind the clock, for a time `t` that is not 0.
unfoldable pub arm_at : ℕ → ℕ → ℕ × Pause
arm_at idle_start t =
    let start = if idle_start == 0 then t else idle_start in
    let dt = sub64 t start in
    (start, if ltb dt hot_ns then relaxes else if ltb dt cold_ns then naps else cold)

abbrev pub sleeps : State → Option ℕ → Pause → State
sleeps st id cold = set_sleeping st id true
sleeps st id _ = st

-- ne_dp_idle_arm, once it is initialised
unfoldable pub idle_arm : State → Option ℕ → ℕ → ℕ → State × ℕ × Pause
idle_arm st id idle_start t =
    let (start, pause) = arm_at idle_start t in
    if st.busy_poll
    then (st, idle_start, yields)
    else if t == 0
    then (st, idle_start, relaxes)
    else (sleeps st id pause, start, pause)

-- drain_eventfd: a read takes the whole counter.
unfoldable pub drain_eventfd : State → ℕ → State
drain_eventfd st id = elim (st.efd id) [
  | none ↦ st
  | some counter ↦ record st { efd = set_at st.efd id (some 0) }
]

-- eventfd_signal: a write that would pass the greatest counter fails.
unfoldable pub eventfd_signal : State → ℕ → State
eventfd_signal st id = elim (st.efd id) [
  | none ↦ st
  | some counter ↦ record st {
    efd = set_at st.efd id (some (if ltb (counter + 1) (2 ^ 64 - 1) then counter + 1 else counter));
  }
]

-- ne_dp_idle_disarm
unfoldable pub idle_disarm : State → Option ℕ → State
idle_disarm st id = set_sleeping st id false

-- The guards of ne_dp_idle_wake, and it.
unfoldable pub wake_test : State → Option ℕ → Bool
wake_test st none = false
wake_test st (some id) = elim (st.efd id) [
  | none ↦ false
  | some counter ↦ st.ready && not st.busy_poll && ltb id wake_n && st.sleeping id
]

unfoldable pub idle_wake : State → ℕ → State
idle_wake st id = if wake_test st (some id) then eventfd_signal st id else st

-- ne_dp_idle_wake_tx_slot; a slot is not negative.
unfoldable pub wake_tx_slot : State → ℕ → State
wake_tx_slot st slot = let woken = idle_wake st (wake_tx slot) in if ltb slot 4 then woken else st

-- ne_dp_idle_wake_all, with a round of its loop
unfoldable pub wake_one : State → ℕ → State
unfolding eventfd_signal
wake_one st i = elim (st.efd i) [
  | none ↦ st
  | some counter ↦ eventfd_signal (record st { sleeping = set_at st.sleeping i true }) i
]

unfoldable pub wake_all_loop : ℕ → ℕ → State → State
wake_all_loop zero i st = st
wake_all_loop (suc left) i st = wake_all_loop left (i + 1) (wake_one st i)

unfoldable pub idle_wake_all : State → State
idle_wake_all st = let woken = wake_all_loop wake_n 0 st in if st.ready then woken else st

-- What ne_dp_idle_poll waits for: its own descriptor, and others as long as there is room.
pub data Source : Type 0 where
  own : ℕ → Source
  other : ℕ → Source

unfoldable pub others : ℕ → List (Option ℕ) → List Source
others zero fds = []
others (suc room) [] = []
others (suc room) (none ∷ fds) = others (suc room) fds
others (suc room) (some fd ∷ fds) = other fd ∷ others room fds

unfoldable pub poll_set : State → Option ℕ → List (Option ℕ) → List Source
poll_set st none extra = others (pollfd_max + 1) extra
poll_set st (some id) extra =
    let with_own = own id ∷ others pollfd_max extra in
    let without = others (pollfd_max + 1) extra in
    elim (st.efd id) [ none ↦ without | some counter ↦ if ltb id wake_n then with_own else without ]

-- ne_dp_idle_poll behind the wait
unfoldable pub idle_polled : State → Option ℕ → State
idle_polled st none = idle_disarm st none
idle_polled st (some id) =
    let drained = drain_eventfd st id in
    if st.busy_poll
    then idle_disarm st (some id)
    else idle_disarm (if ltb id wake_n then drained else st) (some id)
