-- ===== src/Route/Balance.antt =====
-- The worker and the TX slot of a new flow.
use ne.Route.Assign.{choose_worker}
use ne.Base.{
  ap, sym, ◌∙◌, ◌≡◌, ◌≤◌, suc, zero, ◌%◌, ◌-◌, ◌^◌, ℕ, ◌+◌, ◌<◌, Option, none, some, arith, u32,
}
use native.Mathlib.Decide.{dec_lt}
use native.Mathlib.Nat.{mod-lt, mod-add-mod, add-mod-mod, add-mod_right, mod-eq_of_lt}
use ne.Route.{State, least_loop, least_loaded, crypto_workers}

least_loop-< :
    (left off : ℕ) (counts : ℕ → ℕ) (count start best_count best : ℕ)
    → best < count
    → least_loop left off counts count start best_count best < count
unfolding least_loop
least_loop-< zero off counts count start best_count best h = h
least_loop-< (suc left) off counts count start best_count best h =
    let idx = u32 (start + off) % count in
    ground (
      arith,
      mod-lt (u32 (start + off)) {m = count} (omega arith),
      least_loop-< left (off + 1) counts count start (counts idx) idx,
      least_loop-< left (off + 1) counts count start best_count best h,
    )

pub least_loaded-< :
    (counts : ℕ → ℕ) (count start : ℕ) → 0 < count → least_loaded counts count start < count
unfolding least_loaded
least_loaded-< counts count start h = least_loop-< count 0 counts count start (2 ^ 64 - 1) 0 h

pub choose_worker-< : (st : State) (hint : Option ℕ) → (choose_worker st hint).1 < crypto_workers
unfolding choose_worker
choose_worker-< st none = least_loaded-< st.worker_count crypto_workers st.worker_rr (omega arith)
choose_worker-< st (some w) =
    ground (arith, least_loaded-< st.worker_count crypto_workers st.worker_rr (omega arith))

-- The search keeps the least count so far.
least_loop-≤ :
    (left off : ℕ) (counts : ℕ → ℕ) (count start best_count best : ℕ)
    → counts best ≤ best_count
    → (counts (least_loop left off counts count start best_count best) ≤ best_count)
      × ((o : ℕ)
          → off ≤ o
          → o < off + left
          → counts (least_loop left off counts count start best_count best)
            ≤ counts (u32 (start + o) % count))
unfolding least_loop
least_loop-≤ zero off counts count start best_count best h = (h, λ o p q. absurd (omega arith))
least_loop-≤ (suc left) off counts count start best_count best h =
    let idx = u32 (start + off) % count in
    let better = least_loop-≤ left (off + 1) counts count start (counts idx) idx (omega arith) in
    let same = least_loop-≤ left (off + 1) counts count start best_count best h in
    (
      ground (arith, better.0, same.0),
      λ o p q. elim (dec_lt off o) [
        | yes later ↦
            ground
              (arith, better.1 o (omega arith) (omega arith), same.1 o (omega arith) (omega arith))
        | no now ↦ let e : o ≡ off = omega arith in rw e (ground (arith, better.0, same.0))
      ],
    )

-- Every index is met.
meets : (count start i : ℕ) → i < count → (start + (i + count - start % count) % count) % count ≡ i
meets count start i h =
    let r = mod-lt start {m = count} (omega arith) in
    sym (mod-add-mod start count ((i + count - start % count) % count))
    ∙ add-mod-mod (start % count) (i + count - start % count) count
    ∙ ap (λ a. a % count) (omega (arith, r))
    ∙ add-mod_right i count
    ∙ mod-eq_of_lt h

-- The index that is found has the least count of all, when the cursor does not wrap on the way.
pub least_loaded-least :
    (counts : ℕ → ℕ) (count start i : ℕ)
    → counts 0 < 2 ^ 64
    → start + count ≤ 2 ^ 32
    → i < count
    → (least_loaded counts count start < count)
      × (counts (least_loaded counts count start) ≤ counts i)
unfolding least_loaded
least_loaded-least counts count start i b w h =
    let o = (i + count - start % count) % count in
    let small = mod-lt (i + count - start % count) {m = count} (omega arith) in
    let e : u32 (start + o) % count ≡ i =
      ap (λ a. a % count) (omega (arith, small)) ∙ meets count start i h in
    let loop = least_loop-≤ count 0 counts count start (2 ^ 64 - 1) 0 (omega arith) in
    (
      least_loaded-< counts count start (omega arith),
      omega (arith, loop.1 o (omega arith) (omega (arith, small)), ap counts e),
    )
