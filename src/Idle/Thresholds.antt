-- ===== src/Idle/Thresholds.antt =====
-- When a thread without work goes to sleep.
use mathlib.Core.Path.{subst}
use ne.Idle.{State, yields, cold, idle_arm, arm_at, note_work, cold_ns}
use ne.Base.{
  ℕ, ◌+◌, ◌^◌, ◌≤◌, ◌<◌, ◌≡◌, refl, sym, ap, ◌∙◌, ◌≢◌, ◌↔◌, inl, inr, true, false, Option, List, [],
  ◌∷◌, arith, Bool-cases,
}

-- The start of the idle time after calls of ne_dp_idle_arm at some times, with no work between.
abbrev pub armed : State → Option ℕ → ℕ → List ℕ → ℕ
armed st id start [] = start
armed st id start (t ∷ ts) = armed st id (idle_arm st id start t).1 ts

armed-start :
    (st : State) (id : Option ℕ) (start : ℕ) (ts : List ℕ)
    → 0 < start
    → armed st id start ts ≡ start
unfolding idle_arm arm_at
armed-start st id start [] h = refl
armed-start st id start (t ∷ ts) h =
    let e : (idle_arm st id start t).1 ≡ start = ground (arith, h) in
    ap (λ s. armed st id s ts) e ∙ armed-start st id start ts h

cold_iff :
    (st : State) (id : Option ℕ) (start t : ℕ)
    → 0 < start
    → start ≤ t
    → t < 2 ^ 64
    → ((idle_arm st id start t).2 ≡ cold) ↔ ((st.busy_poll ≡ false) × (start + cold_ns ≤ t))
unfolding idle_arm arm_at
cold_iff st id start t h le word = ground (arith, h, le, word)

yields_not_cold : yields ≢ cold
yields_not_cold e = cc

Bool-apart : true ≢ false
Bool-apart e = cc

-- A thread that has worked, and then found nothing to do at the time `first`, at some further
-- times, and now at `t`, goes to sleep if and only if busy polling is off and it has been idle for
-- 25000 ns since `first`, however often it asked between.
pub idle_arm-cold_iff :
    (st : State) (id : Option ℕ) (busy_start first t : ℕ) (ts : List ℕ)
    → 0 < first
    → first ≤ t
    → t < 2 ^ 64
    → let start = armed st id (note_work busy_start) (first ∷ ts) in
      ((idle_arm st id start t).2 ≡ cold) ↔ ((st.busy_poll ≡ false) × (first + cold_ns ≤ t))
unfolding idle_arm arm_at
idle_arm-cold_iff st id busy_start first t ts h le word =
    let start = armed st id (note_work busy_start) (first ∷ ts) in
    elim (Bool-cases st.busy_poll) [
      | inl busy ↦
          let e : (idle_arm st id start t).2 ≡ yields = rw busy refl in
          (λ c. absurd (yields_not_cold (sym e ∙ c)), λ c. absurd (Bool-apart (sym busy ∙ c.0)))
      | inr adaptive ↦
          let e : (idle_arm st id 0 first).1 ≡ first = ground (arith, h, adaptive) in
          let f : start ≡ first = ap (λ s. armed st id s ts) e ∙ armed-start st id first ts h in
          subst
            (λ s.
              ((idle_arm st id s t).2 ≡ cold) ↔ ((st.busy_poll ≡ false) × (first + cold_ns ≤ t)))
            (sym f) (cold_iff st id first t h le word)
    ]
