-- ===== src/Ring.antt =====
-- struct ne_ring of xdp_interface.c: ne_ring_init, ne_ring_try_push, ne_ring_try_push_pair,
-- ne_ring_try_pop and ne_ring_count; `head` and `tail` are 32-bit counters that wrap. Each is one step
-- on the ring: a push holds its lock, and so does a pop of a ring with several consumers; a ring with
-- one consumer (`mpsc_pop` false) is popped without a lock, and only that thread moves `tail`. The
-- count loads `head` and then `tail`, without a lock: it is the count here where its caller owns one
-- side, or where neither moves in between.
pub mod Window
pub mod Fifo
pub mod Refine
pub mod Next
use ne.Base.{
  ℕ, ◌+◌, ◌-◌, ◌≡◌, Bool, not, ◌||◌, Option, none, some, leb, ltb, ◌==◌, if◌then◌else◌, bit_and,
  u32, sub32,
}

pub record Ring {ℓ} (A : Type ℓ) : Type ℓ where
  pub buf : ℕ → A
  pub cap : ℕ
  pub mask : ℕ
  pub head : ℕ
  pub tail : ℕ
  pub mpsc_pop : Bool

-- `buf[i] = x`
abbrev pub store {ℓ} : {A : Type ℓ} → (ℕ → A) → ℕ → A → (ℕ → A)
store buf i x j = if j == i then x else buf j

-- `memory` is whether the allocation and the locks succeed, `zeroed` what `calloc` fills in.
unfoldable pub ring_init {ℓ} : {A : Type ℓ} → Bool → A → ℕ → Bool → Option (Ring A)
ring_init memory zeroed cap mpsc =
    if cap == 0 || not (bit_and cap (cap - 1) == 0)
    then none
    else if memory
    then some (record {
      buf = λ i. zeroed;
      cap = cap;
      mask = cap - 1;
      head = 0;
      tail = 0;
      mpsc_pop = mpsc;
    })
    else none

unfoldable pub ring_push {ℓ} : {A : Type ℓ} → Ring A → A → Option (Ring A)
ring_push r x =
    if leb r.cap (sub32 r.head r.tail)
    then none
    else some (record r { buf = store r.buf (bit_and r.head r.mask) x; head = u32 (r.head + 1) })

unfoldable pub ring_push_pair {ℓ} : {A : Type ℓ} → Ring A → A → A → Option (Ring A)
ring_push_pair r x y =
    if ltb r.cap 2 || ltb (r.cap - 2) (sub32 r.head r.tail)
    then none
    else some (record r {
      buf = store (store r.buf (bit_and r.head r.mask) x) (bit_and (u32 (r.head + 1)) r.mask) y;
      head = u32 (r.head + 2);
    })

unfoldable pub ring_pop {ℓ} : {A : Type ℓ} → Ring A → Option (Ring A × A)
ring_pop r =
    if r.tail == r.head
    then none
    else some (record r { tail = u32 (r.tail + 1) }, r.buf (bit_and r.tail r.mask))

unfoldable pub ring_count {ℓ} : {A : Type ℓ} → Ring A → ℕ
ring_count r = sub32 r.head r.tail
