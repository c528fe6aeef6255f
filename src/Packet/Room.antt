-- ===== src/Packet/Room.antt =====
-- The room that a pool has.
use ne.Ring.Window.{length-window}
use ne.Packet.Frames.{IsPool, frames, pool_push_lem}
use ne.Packet.{Pool, pool_push, first_of}
use ne.Base.{ℕ, ◌+◌, ◌^◌, ◌≤◌, ◌≡◌, refl, ap, ◌∙◌, List, [], ◌∷◌, ◌++◌, arith, length, sub32}

first_of_all : (l : List ℕ) → first_of (length l) l ≡ l
first_of_all [] = refl
first_of_all (a ∷ l) = ap (λ m. a ∷ m) (first_of_all l)

pub length-frames : (k : ℕ) (p : Pool) → length (frames k p) ≡ sub32 p.head p.tail
length-frames k p = length-window (2 ^ k) p.buf p.tail (sub32 p.head p.tail)

pub pool_push_all :
    (k : ℕ) (p : Pool) (addrs : List ℕ)
    → IsPool k p
    → length (frames k p) + length addrs ≤ 2 ^ k
    → (frames k (pool_push p addrs).0 ≡ frames k p ++ addrs)
      × ((pool_push p addrs).1 ≡ length addrs)
      × IsPool k (pool_push p addrs).0
pool_push_all k p addrs h room =
    let (f, n, h') = pool_push_lem k p addrs h in
    let all : (pool_push p addrs).1 ≡ length addrs = omega (arith, n, room, length-frames k p) in
    (
      f
          ∙ ap (λ m. frames k p ++ first_of m addrs) all
          ∙ ap (λ l. frames k p ++ l) (first_of_all addrs),
      all,
      h',
    )
