-- ===== src/Ring/Next.antt =====
-- The call that a consumer makes in a loop: what it gets from a ring with elements, and from one
-- without.
use ne.Ring.Fifo.{
  pushed, contents-pushed, pushed-IsRing, IsRing, contents, popped, contents-popped, popped-IsRing,
  length-contents,
}
use ne.Ring.{ring_push, Ring, ring_pop, ring_count}
use ne.Base.{ℕ, ◌^◌, ◌≤◌, ◌<◌, bit_and, ◌≡◌, sym, none, some, [], ◌∷◌, ◌++◌, arith, length, sub32}

module _ {ℓ} {A : Type ℓ} (k : ℕ) (r : Ring A) (h : IsRing k r) where
  pub ring_count-length : ring_count r ≡ length (contents k r)
  unfolding ring_count
  ring_count-length = sym (length-contents k r h)

  pub ring_pop-next :
      0 < length (contents k r)
      → (r' : Ring A) × (x : A) × (ring_pop r ≡ some (r', x))
        × (contents k r ≡ x ∷ contents k r')
        × IsRing k r'
  unfolding ring_pop popped
  ring_pop-next some_left =
      let left : 0 < sub32 r.head r.tail = omega (arith, length-contents k r h, some_left) in
      let e : ring_pop r ≡ some (popped k r h, r.buf (bit_and r.tail r.mask)) =
        ground (arith, left) in
      (
        popped k r h,
        r.buf (bit_and r.tail r.mask),
        e,
        contents-popped k r h left,
        popped-IsRing k r h left,
      )

  pub ring_push-next :
      (x : A)
      → length (contents k r) < 2 ^ k
      → (r' : Ring A) × (ring_push r x ≡ some r')
        × (contents k r' ≡ contents k r ++ (x ∷ []))
        × IsRing k r'
  unfolding ring_push pushed
  ring_push-next x free =
      let room : sub32 r.head r.tail < 2 ^ k = omega (arith, length-contents k r h, free) in
      let e : ring_push r x ≡ some (pushed k r h x) = ground (arith, h.cap, room) in
      (pushed k r h x, e, contents-pushed k r h x room, pushed-IsRing k r h x room)

  pub ring_push-full : (x : A) → 2 ^ k ≤ length (contents k r) → ring_push r x ≡ none
  unfolding ring_push
  ring_push-full x full = ground (arith, h.cap, length-contents k r h)
