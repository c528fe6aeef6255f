-- ===== src/Idle/WakeAll.antt =====
-- Waking all, as forwarder_stop does.
use ne.Idle.{State, idle_wake_all, wake_all_loop, wake_one, eventfd_signal, wake_n}
use native.Mathlib.Decide.{dec_lt}
use mathlib.Core.Path.{subst}
use ne.Base.{
  ℕ, zero, suc, ◌+◌, ◌≤◌, ◌<◌, ◌≡◌, sym, ◌≢◌, true, Option, none, some, arith, if◌then◌else◌,
}

-- The counter of the descriptor.
abbrev pub counter : Option ℕ → ℕ
counter none = 0
counter (some c) = c

-- What waking all keeps of one consumer.
record Kept (id : ℕ) (st st' : State) : Type 0 where
  opened : st.efd id ≢ none → st'.efd id ≢ none
  counted : counter (st.efd id) ≤ counter (st'.efd id)

wake_one-Kept : (id i : ℕ) (st : State) → Kept id st (wake_one st i)
unfolding wake_one eventfd_signal
wake_one-Kept id i st = ground arith

Kept-trans : (id : ℕ) (a b c : State) → Kept id a b → Kept id b c → Kept id a c
Kept-trans id a b c h k = ground (arith, h, k)

wake_all_loop-Kept : (id left i : ℕ) (st : State) → Kept id st (wake_all_loop left i st)
unfolding wake_all_loop
wake_all_loop-Kept id zero i st = ground arith
wake_all_loop-Kept id (suc left) i st =
    Kept-trans id st (wake_one st i) (wake_all_loop left (i + 1) (wake_one st i))
      (wake_one-Kept id i st) (wake_all_loop-Kept id left (i + 1) (wake_one st i))

wake_one_signals : (id : ℕ) (st : State) → st.efd id ≢ none → 0 < counter ((wake_one st id).efd id)
unfolding wake_one eventfd_signal
wake_one_signals id st h = ground (arith, h)

wake_all_loop_signals :
    (id left i : ℕ) (st : State)
    → i ≤ id
    → id < i + left
    → st.efd id ≢ none
    → 0 < counter ((wake_all_loop left i st).efd id)
unfolding wake_all_loop
wake_all_loop_signals id zero i st le lt h = absurd (omega arith)
wake_all_loop_signals id (suc left) i st le lt h = elim (dec_lt i id) [
  | yes before ↦
      wake_all_loop_signals id left (i + 1) (wake_one st i) (omega arith) (omega arith)
        ((wake_one-Kept id i st).opened h)
  | no here ↦
      let e : i ≡ id = omega arith in
      let now = wake_one_signals id st h in
      let now' : 0 < counter ((wake_one st i).efd id) =
        subst (λ j. 0 < counter ((wake_one st j).efd id)) (sym e) now in
      omega (arith, now', (wake_all_loop-Kept id left (i + 1) (wake_one st i)).counted)
]

-- When idling is initialised, waking all makes the descriptor of each consumer readable that has one.
pub idle_wake_all_lem :
    (id : ℕ) (st : State)
    → st.ready ≡ true
    → id < wake_n
    → st.efd id ≢ none
    → 0 < counter ((idle_wake_all st).efd id)
unfolding idle_wake_all
idle_wake_all_lem id st ready small h =
    subst (λ b. 0 < counter ((if b then wake_all_loop wake_n 0 st else st).efd id)) (sym ready)
      (wake_all_loop_signals id wake_n 0 st (omega arith) (omega arith) h)
