-- ===== src/Ring/Refine.antt =====
-- The calls on a ring, and a bounded queue.
use ne.Ring.{ring_init}
use ne.Base.{
  ℕ, ◌+◌, ◌-◌, ◌^◌, ◌<◌, bit_and, ◌≡◌, refl, ap, ◌∙◌, Bool, true, false, none, some, List, [], ◌∷◌,
  ◌++◌, arith, ltb, leb, length, sub32,
}
use mathlib.Core.List.{append_assoc}
use native.Mathlib.Nat.{one-le-pow, mod_self}
use ne.Base.Bits.{bit_and_mask}
use native.Mathlib.Decide.{dec_lt}
use ne.Ring.{Ring, ring_push, ring_push_pair, ring_pop}
use ne.Ring.Window.{window}
use ne.Ring.Fifo.{
  IsRing, contents, Op, push, push_pair, pop, Answer, done, fifo_step, ring_step, pushed,
  contents-pushed, pushed-IsRing, popped, contents-popped, popped-IsRing, length-contents,
  room-count,
}

-- A call leaves a ring, and does and answers what the queue does.
abbrev pub Refines {ℓ} : {A : Type ℓ} → ℕ → Ring A → Op A → Type ℓ
Refines k r op =
    IsRing k (ring_step r op).0
    × ((contents k (ring_step r op).0, (ring_step r op).1) ≡ fifo_step (2 ^ k) (contents k r) op)

module _ {ℓ} {A : Type ℓ} (k : ℕ) (r : Ring A) (h : IsRing k r) where
  step-push : (x : A) → Refines k r (push x)
  unfolding ring_push pushed
  step-push x = elim (dec_lt (sub32 r.head r.tail) (2 ^ k)) [
    | yes room ↦
        let e : ring_push r x ≡ some (pushed k r h x) = ground (arith, h.cap) in
        let f : ltb (length (contents k r)) (2 ^ k) ≡ true =
          ground (arith, length-contents k r h) in
        rw (e, f) (pushed-IsRing k r h x room, ap (λ q. (q, done)) (contents-pushed k r h x room))
    | no full ↦
        let e : ring_push r x ≡ none = ground (arith, h.cap) in
        let f : ltb (length (contents k r)) (2 ^ k) ≡ false =
          ground (arith, length-contents k r h) in
        rw (e, f) (h, refl)
  ]

  step-pop : Refines k r pop
  unfolding ring_pop popped
  step-pop = elim (dec_lt 0 (sub32 r.head r.tail)) [
    | yes some_left ↦
        let e : ring_pop r ≡ some (popped k r h, r.buf (bit_and r.tail r.mask)) = ground arith in
        rw (e, contents-popped k r h some_left) (popped-IsRing k r h some_left, refl)
    | no empty ↦
        let e : ring_pop r ≡ none = ground (arith, h.head, h.tail) in
        let z : sub32 r.head r.tail ≡ 0 = omega (arith, h.head) in
        let f : contents k r ≡ [] = ap (λ n. window (2 ^ k) r.buf r.tail n) z in rw (e, f) (h, refl)
  ]

  step-push_pair : (x y : A) → Refines k r (push_pair x y)
  unfolding ring_push_pair pushed
  step-push_pair x y = elim (dec_lt (sub32 r.head r.tail + 1) (2 ^ k)) [
    | yes room ↦
        let r1 = pushed k r h x in
        let h1 = pushed-IsRing k r h x (omega arith) in
        let n1 = room-count k r h (omega arith) in
        let e : ring_push_pair r x y ≡ some (pushed k r1 h1 y) = ground (arith, h.cap) in
        let f : leb (length (contents k r) + 2) (2 ^ k) ≡ true =
          ground (arith, length-contents k r h) in
        rw (e, f)
          (
            pushed-IsRing k r1 h1 y (omega (arith, n1)),
            ap (λ q. (q, done))
                (contents-pushed k r1 h1 y (omega (arith, n1))
                  ∙ ap (λ q. q ++ (y ∷ [])) (contents-pushed k r h x (omega arith))
                  ∙ append_assoc (contents k r) (x ∷ []) (y ∷ [])),
          )
    | no full ↦
        let e : ring_push_pair r x y ≡ none = ground (arith, h.cap) in
        let f : leb (length (contents k r) + 2) (2 ^ k) ≡ false =
          ground (arith, length-contents k r h) in
        rw (e, f) (h, refl)
  ]

-- A call on a ring whose counters count at most its slots leaves such a ring, and it does and
-- answers what a queue of at most that many elements does: a push appends or is refused at the
-- bound, a pair is appended whole or refused, a pop takes the oldest element or is refused when
-- there is none.
pub ring_step-Refines {ℓ} :
    {A : Type ℓ} (k : ℕ) (r : Ring A) (op : Op A) → IsRing k r → Refines k r op
ring_step-Refines k r (push x) h = step-push k r h x
ring_step-Refines k r (push_pair x y) h = step-push_pair k r h x y
ring_step-Refines k r pop h = step-pop k r h

-- A sequence of calls, with their answers.
abbrev pub run_ring {ℓ} : {A : Type ℓ} → Ring A → List (Op A) → List (Answer A)
run_ring r [] = []
run_ring r (op ∷ ops) = (ring_step r op).1 ∷ run_ring (ring_step r op).0 ops

abbrev pub run_fifo {ℓ} : {A : Type ℓ} → ℕ → List A → List (Op A) → List (Answer A)
run_fifo cap q [] = []
run_fifo cap q (op ∷ ops) = (fifo_step cap q op).1 ∷ run_fifo cap (fifo_step cap q op).0 ops

run-refines {ℓ} :
    {A : Type ℓ} (k : ℕ) (r : Ring A) (ops : List (Op A))
    → IsRing k r
    → run_ring r ops ≡ run_fifo (2 ^ k) (contents k r) ops
run-refines k r [] h = refl
run-refines {A = A} k r (op ∷ ops) h =
    let (h', e) = ring_step-Refines k r op h in
    ap (λ l. (ring_step r op).1 ∷ l) (run-refines k (ring_step r op).0 ops h')
    ∙ ap (λ (p : List A × Answer A). p.1 ∷ run_fifo (2 ^ k) p.0 ops) e

-- A ring that is made with a power of two of slots, and that is then called in any order, gives
-- the answers of a queue of at most that many elements that starts empty.
pub ring_init-run {ℓ} :
    {A : Type ℓ} (k : ℕ) (zeroed : A) (mpsc : Bool) (ops : List (Op A))
    → k < 32
    → (r : Ring A) × (ring_init true zeroed (2 ^ k) mpsc ≡ some r)
      × (run_ring r ops ≡ run_fifo (2 ^ k) [] ops)
unfolding ring_init
ring_init-run {A = A} k zeroed mpsc ops h =
    let made : Ring A = record {
      buf = λ i. zeroed;
      cap = 2 ^ k;
      mask = 2 ^ k - 1;
      head = 0;
      tail = 0;
      mpsc_pop = mpsc;
    } in
    let pos = one-le-pow k 2 (omega arith) in
    let and : bit_and (2 ^ k) (2 ^ k - 1) ≡ 0 = bit_and_mask k (2 ^ k) ∙ mod_self (2 ^ k) in
    let valid : IsRing k made = record {
      width = h;
      cap = refl;
      mask = refl;
      head = omega arith;
      tail = omega arith;
      count = omega arith;
    } in
    (made, ground (arith, pos, and), run-refines k made ops valid)
