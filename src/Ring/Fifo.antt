-- ===== src/Ring/Fifo.antt =====
-- A ring as the sequence of its elements.
use ne.Ring.{store, Ring, ring_push, ring_push_pair, ring_pop}
use ne.Base.{
  ℕ, zero, suc, ◌+◌, ◌-◌, ◌*◌, ◌%◌, ◌^◌, ◌≤◌, ◌<◌, bit_and, ◌≡◌, sym, ap, ap₂, ◌∙◌, Option, none,
  some, List, [], ◌∷◌, ◌++◌, arith, ltb, leb, if◌then◌else◌, length, u32, sub32,
}
use native.Mathlib.Nat.{mod-mod_of_dvd, dvd_of_mod-eq-zero, mul-mod_left, pow-suc, pow-le-pow_right}
use ne.Base.Bits.{bit_and_mask}
use ne.Ring.Window.{window, length-window, window_mod, window-snoc, window_of_pos}

-- A ring of `2 ^ k` slots.
pub record IsRing {ℓ} {A : Type ℓ} (k : ℕ) (r : Ring A) : Type ℓ where
  pub width : k < 32
  pub cap : r.cap ≡ 2 ^ k
  pub mask : r.mask ≡ 2 ^ k - 1
  pub head : r.head < 2 ^ 32
  pub tail : r.tail < 2 ^ 32
  pub count : sub32 r.head r.tail ≤ 2 ^ k

-- The elements of a ring, the oldest first.
abbrev pub contents {ℓ} : {A : Type ℓ} → ℕ → Ring A → List A
contents k r = window (2 ^ k) r.buf r.tail (sub32 r.head r.tail)

-- What a ring promises: a queue of at most `cap` elements, and two elements that are put together
-- or not at all.
pub data Op {ℓ} (A : Type ℓ) : Type ℓ where
  push : A → Op A
  push_pair : A → A → Op A
  pop : Op A

pub data Answer {ℓ} (A : Type ℓ) : Type ℓ where
  refused done : Answer A
  took : A → Answer A

abbrev pub fifo_step {ℓ} : {A : Type ℓ} → ℕ → List A → Op A → List A × Answer A
fifo_step cap q (push x) = if ltb (length q) cap then (q ++ (x ∷ []), done) else (q, refused)
fifo_step cap q (push_pair x y) =
    if leb (length q + 2) cap then (q ++ (x ∷ y ∷ []), done) else (q, refused)
fifo_step cap [] pop = ([], refused)
fifo_step cap (x ∷ q) pop = (q, took x)

-- The same calls on a ring, which stays as it is when a call fails.
abbrev pub answer {ℓ} : {A : Type ℓ} → Ring A → Option (Ring A) → Ring A × Answer A
answer r none = (r, refused)
answer r (some r') = (r', done)

abbrev pub taken {ℓ} : {A : Type ℓ} → Ring A → Option (Ring A × A) → Ring A × Answer A
taken r none = (r, refused)
taken r (some (r', x)) = (r', took x)

abbrev pub ring_step {ℓ} : {A : Type ℓ} → Ring A → Op A → Ring A × Answer A
ring_step r (push x) = answer r (ring_push r x)
ring_step r (push_pair x y) = answer r (ring_push_pair r x y)
ring_step r pop = taken r (ring_pop r)

pow_add : (a b : ℕ) → 2 ^ (a + b) ≡ 2 ^ a * 2 ^ b
pow_add a zero = let e : a + 0 ≡ a = omega arith in rw e (omega arith)
pow_add a (suc b) = grind (arith, pow_add a b, pow-suc 2 (a + b), pow-suc 2 b)

-- A counter's residue does not see the wrap.
pub mod-u32 : (k x : ℕ) → k < 32 → u32 x % 2 ^ k ≡ x % 2 ^ k
mod-u32 k x h =
    let s : 32 ≡ 32 - k + k = omega arith in
    let e : 2 ^ 32 ≡ 2 ^ (32 - k) * 2 ^ k = ap (λ n. 2 ^ n) s ∙ pow_add (32 - k) k in
    let z : 2 ^ 32 % 2 ^ k ≡ 0 = ap (λ a. a % 2 ^ k) e ∙ mul-mod_left (2 ^ (32 - k)) (2 ^ k) in
    mod-mod_of_dvd (2 ^ k) x (dvd_of_mod-eq-zero (2 ^ k) z)

pub below_word : (k : ℕ) → k < 32 → 2 ^ k ≤ 2 ^ 31
below_word k h = pow-le-pow_right {n = 2} (omega arith) {i = k} {j = 31} (omega arith)

pub slot : (k x m : ℕ) → m ≡ 2 ^ k - 1 → bit_and x m ≡ x % 2 ^ k
slot k x m e = ap (λ a. bit_and x a) e ∙ bit_and_mask k x

module _ {ℓ} {A : Type ℓ} (k : ℕ) (r : Ring A) (h : IsRing k r) where
  -- The head is as many steps after the tail as there are elements.
  head-count : r.head % 2 ^ k ≡ (r.tail + sub32 r.head r.tail) % 2 ^ k
  head-count =
      let e : r.head ≡ u32 (r.tail + sub32 r.head r.tail) = ground (arith, h.head, h.tail) in
      ap (λ a. a % 2 ^ k) e ∙ mod-u32 k (r.tail + sub32 r.head r.tail) h.width

  slot-head : bit_and r.head r.mask ≡ (r.tail + sub32 r.head r.tail) % 2 ^ k
  slot-head = slot k r.head r.mask h.mask ∙ head-count

  -- What a push leaves, when there is room.
  unfoldable pub pushed : A → Ring A
  pushed x = record r { buf = store r.buf (bit_and r.head r.mask) x; head = u32 (r.head + 1) }

  pub room-count :
      sub32 r.head r.tail < 2 ^ k → sub32 (u32 (r.head + 1)) r.tail ≡ suc (sub32 r.head r.tail)
  room-count room = ground (arith, h.head, h.tail, below_word k h.width)

  pub contents-pushed :
      (x : A) → sub32 r.head r.tail < 2 ^ k → contents k (pushed x) ≡ contents k r ++ (x ∷ [])
  unfolding pushed
  contents-pushed x room =
      ap (λ n. window (2 ^ k) (store r.buf (bit_and r.head r.mask) x) r.tail n) (room-count room)
      ∙ window-snoc (2 ^ k) r.buf x r.tail (sub32 r.head r.tail) (bit_and r.head r.mask) room
          slot-head

  pub pushed-IsRing : (x : A) → sub32 r.head r.tail < 2 ^ k → IsRing k (pushed x)
  unfolding pushed
  pushed-IsRing x room = record {
    width = h.width;
    cap = h.cap;
    mask = h.mask;
    head = ground arith;
    tail = h.tail;
    count = omega (arith, room-count room, room);
  }

  -- What a pop leaves, when there is an element.
  unfoldable pub popped : Ring A
  popped = record r { tail = u32 (r.tail + 1) }

  less-count : 0 < sub32 r.head r.tail → sub32 r.head (u32 (r.tail + 1)) ≡ sub32 r.head r.tail - 1
  less-count some_left = ground (arith, h.head, h.tail)

  pub contents-popped :
      0 < sub32 r.head r.tail → contents k r ≡ r.buf (bit_and r.tail r.mask) ∷ contents k popped
  unfolding popped
  contents-popped some_left =
      window_of_pos (2 ^ k) r.buf r.tail (sub32 r.head r.tail) some_left
      ∙ ap₂ (λ i l. r.buf i ∷ l) (sym (slot k r.tail r.mask h.mask))
          (sym (
              window_mod (2 ^ k) r.buf (u32 (r.tail + 1)) (r.tail + 1) (sub32 r.head r.tail - 1)
                (mod-u32 k (r.tail + 1) h.width))
            ∙ sym (ap (λ n. window (2 ^ k) r.buf (u32 (r.tail + 1)) n) (less-count some_left)))

  pub popped-IsRing : 0 < sub32 r.head r.tail → IsRing k popped
  unfolding popped
  popped-IsRing some_left = record {
    width = h.width;
    cap = h.cap;
    mask = h.mask;
    head = h.head;
    tail = ground arith;
    count = omega (arith, less-count some_left, h.count);
  }

  pub length-contents : length (contents k r) ≡ sub32 r.head r.tail
  length-contents = length-window (2 ^ k) r.buf r.tail (sub32 r.head r.tail)
