-- ===== src/Umem/Completed.antt =====
-- The frames that the kernel has sent, and the pool.
use ne.Base.{
  nil_of_length, ℕ, zero, suc, ◌+◌, ◌^◌, ◌≤◌, ◌<◌, min, ◌≡◌, refl, sym, ap, ◌∙◌, true, false, ◌||◌,
  List, [], ◌∷◌, ◌++◌, arith, ltb, ◌==◌, length, u32, drop, length-append,
}
use mathlib.Core.List.{append_assoc, append-nil}
use native.Mathlib.Decide.{dec_lt}
use ne.Umem.{Completions, drain_cq_queue, batch_size}
use ne.Packet.Room.{pool_push_all}
use ne.Packet.Frames.{IsPool, frames}
use ne.Packet.{Pool, pool_push, first_of}

batch_rest : (n : ℕ) (l : List ℕ) → first_of n l ++ drop (length (first_of n l)) l ≡ l
batch_rest zero l = refl
batch_rest (suc n) [] = refl
batch_rest (suc n) (a ∷ l) = ap (λ m. a ∷ m) (batch_rest n l)

length-batch : (n : ℕ) (l : List ℕ) → length (first_of n l) ≡ min n (length l)
length-batch zero l = ground arith
length-batch (suc n) [] = ground arith
length-batch (suc n) (a ∷ l) = omega (arith, length-batch n l)

-- All that was waiting is in the pool, in its order, and is released.
abbrev pub Drained : ℕ → Completions → Pool → Completions × Pool → Type 0
Drained k cq pool (cq', pool') =
    (frames k pool' ≡ frames k pool ++ cq.waiting)
    × (cq'.waiting ≡ [])
    × (cq'.released ≡ u32 (cq.released + length cq.waiting))
    × IsPool k pool'

-- Where the pool has room for all completions, as it has when it is as large as the number of
-- frames, draining takes every one of them into the pool, in their order, and releases as many;
-- one round more than there are completions is enough.
pub drain_cq_queue_lem :
    (k fuel : ℕ) (cq : Completions) (pool : Pool)
    → IsPool k pool
    → length (frames k pool) + length cq.waiting ≤ 2 ^ k
    → cq.released < 2 ^ 32
    → length cq.waiting < fuel
    → Drained k cq pool (drain_cq_queue fuel cq pool)
unfolding drain_cq_queue
drain_cq_queue_lem k zero cq pool h room word enough = absurd (omega arith)
drain_cq_queue_lem k (suc fuel) cq pool h room word enough =
    let addrs = first_of batch_size cq.waiting in
    let n = length-batch batch_size cq.waiting in
    let parts = batch_rest batch_size cq.waiting in
    let (f, all, h') = pool_push_all k pool addrs h (omega (arith, n, room)) in
    let cq' : Completions = record {
      waiting = drop (length addrs) cq.waiting;
      released = u32 (cq.released + (pool_push pool addrs).1);
    } in
    let sum : length cq.waiting ≡ length addrs + length cq'.waiting =
      ap length (sym parts) ∙ length-append addrs cq'.waiting in
    let grown = ap length f ∙ length-append (frames k pool) addrs in
    let pushed = (pool_push pool addrs).1 in
    elim (dec_lt 0 (length addrs)) [
      | no none_left ↦
          let e : (length addrs == 0) ≡ true = ground (arith, none_left) in
          let z = nil_of_length cq.waiting (omega (arith, n, none_left)) in
          rw e (
            sym (append-nil (frames k pool)) ∙ ap (λ l. frames k pool ++ l) (sym z),
            z,
            omega (arith, ap length z, word),
            h,
          )
      | yes some_left ↦
          let e : (length addrs == 0) ≡ false = ground (arith, some_left) in
          elim (dec_lt (length addrs) batch_size) [
            | yes last ↦
                let g : (ltb pushed (length addrs) || ltb (length addrs) batch_size) ≡ true =
                  ground (arith, last) in
                let z = nil_of_length cq'.waiting (omega (arith, n, sum, last)) in
                let w : addrs ≡ cq.waiting =
                  sym (append-nil addrs) ∙ ap (λ l. addrs ++ l) (sym z) ∙ parts in
                rw (e, g)
                  (f ∙ ap (λ l. frames k pool ++ l) w, z, omega (arith, all, ap length w), h')
            | no full ↦
                let g : (ltb pushed (length addrs) || ltb (length addrs) batch_size) ≡ false =
                  ground (arith, full, all) in
                let (fs, z, r, i) =
                  drain_cq_queue_lem k fuel cq' (pool_push pool addrs).0 h'
                    (omega (arith, grown, sum, room)) (omega arith)
                    (omega (arith, sum, some_left, enough)) in
                rw (e, g)
                  (
                    fs
                        ∙ ap (λ l. l ++ cq'.waiting) f
                        ∙ append_assoc (frames k pool) addrs cq'.waiting
                        ∙ ap (λ l. frames k pool ++ l) parts,
                    z,
                    omega (arith, r, sum, all),
                    i,
                  )
          ]
    ]
