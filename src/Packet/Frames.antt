-- ===== src/Packet/Frames.antt =====
-- The pool as the sequence of its frames.
use ne.Base.{
  ℕ, zero, suc, ◌+◌, ◌-◌, ◌%◌, ◌^◌, ◌≤◌, ◌<◌, min, bit_and, ◌≡◌, refl, sym, ap, ap₂, ◌∙◌, List, [],
  ◌∷◌, ◌++◌, arith, ltb, if◌then◌else◌, length, u32, sub32,
}
use mathlib.Core.List.{append_assoc, append-nil}
use native.Mathlib.Nat.{mod-add-mod}
use ne.Packet.{at, first_of, store_all, pool_push, Pool, load_all, pool_pop}
use ne.Ring.Window.{window-snoc, window, length-window, window_mod}
use ne.Ring.Fifo.{mod-u32, below_word, slot}

-- A pool of `2 ^ k` slots.
pub record IsPool (k : ℕ) (p : Pool) : Type 0 where
  pub width : k < 32
  pub cap : p.cap ≡ 2 ^ k
  pub mask : p.mask ≡ 2 ^ k - 1
  pub head : p.head < 2 ^ 32
  pub tail : p.tail < 2 ^ 32
  pub count : sub32 p.head p.tail ≤ 2 ^ k

-- The frames in the pool, the oldest first.
abbrev pub frames : ℕ → Pool → List ℕ
frames k p = window (2 ^ k) p.buf p.tail (sub32 p.head p.tail)

-- What is loaded from a counter on is a window.
load_all-window :
    (k : ℕ) (buf : ℕ → ℕ) (mask tail n : ℕ)
    → k < 32
    → mask ≡ 2 ^ k - 1
    → load_all buf mask tail n ≡ window (2 ^ k) buf tail n
unfolding load_all
load_all-window k buf mask tail zero h m = refl
load_all-window k buf mask tail (suc n) h m =
    ap₂ (λ i l. buf i ∷ l) (slot k tail mask m)
      (load_all-window k buf mask (u32 (tail + 1)) n h m
        ∙ window_mod (2 ^ k) buf (u32 (tail + 1)) (tail + 1) n (mod-u32 k (tail + 1) h))

-- A window in two parts.
window_split :
    (c : ℕ) (buf : ℕ → ℕ) (t a b : ℕ)
    → window c buf t (a + b) ≡ window c buf t a ++ window c buf (t + a) b
window_split c buf t zero b = ap₂ (λ s n. window c buf s n) (omega arith) (omega arith)
window_split c buf t (suc a) b =
    let e : suc a + b ≡ suc (a + b) = omega arith in
    let f : t + 1 + a ≡ t + suc a = omega arith in
    ap (λ n. window c buf t n) e
    ∙ ap (λ l. buf (t % c) ∷ l)
        (window_split c buf (t + 1) a b ∙ ap (λ s. window c buf (t + 1) a ++ window c buf s b) f)

-- How many frames a pop takes.
abbrev pub taken : Pool → ℕ → ℕ
taken p n = if ltb n (sub32 p.head p.tail) then n else sub32 p.head p.tail

-- A pop of `n` frames from a pool of a power of two of slots takes the oldest `n`, or all if there are fewer, and leaves the others in
-- their order.
pub pool_pop_lem :
    (k n : ℕ) (p : Pool)
    → IsPool k p
    → (frames k p ≡ (pool_pop p n).1 ++ frames k (pool_pop p n).0)
      × (length (pool_pop p n).1 ≡ taken p n)
      × IsPool k (pool_pop p n).0
unfolding pool_pop
pool_pop_lem k n p h =
    let got = taken p n in
    let avail = sub32 p.head p.tail in
    let few : got ≤ avail = ground arith in
    let left : sub32 p.head (u32 (p.tail + got)) ≡ avail - got =
      omega (arith, few, h.head, h.tail, h.count, below_word k h.width) in
    let load = load_all-window k p.buf p.mask p.tail got h.width h.mask in
    let e : avail ≡ got + (avail - got) = omega (arith, few) in
    (
      ap (λ m. window (2 ^ k) p.buf p.tail m) e
          ∙ window_split (2 ^ k) p.buf p.tail got (avail - got)
          ∙ ap₂ (λ a b. a ++ b) (sym load)
              (sym (
                  window_mod (2 ^ k) p.buf (u32 (p.tail + got)) (p.tail + got) (avail - got)
                    (mod-u32 k (p.tail + got) h.width))
                ∙ ap (λ m. window (2 ^ k) p.buf (u32 (p.tail + got)) m) (sym left)),
      ap (λ l. length l) load ∙ length-window (2 ^ k) p.buf p.tail got,
      record {
        width = h.width;
        cap = h.cap;
        mask = h.mask;
        head = h.head;
        tail = omega arith;
        count = omega (arith, left, h.count);
      },
    )

-- The addresses that are stored from the head on come behind the others.
store_all-window :
    (k : ℕ) (addrs : List ℕ) (buf : ℕ → ℕ) (mask head t n : ℕ)
    → k < 32
    → mask ≡ 2 ^ k - 1
    → head % 2 ^ k ≡ (t + n) % 2 ^ k
    → n + length addrs ≤ 2 ^ k
    → window (2 ^ k) (store_all buf mask head addrs) t (n + length addrs)
      ≡ window (2 ^ k) buf t n ++ addrs
unfolding store_all
store_all-window k [] buf mask head t n h m e fits =
    ap (λ j. window (2 ^ k) buf t j) (omega arith) ∙ sym (append-nil (window (2 ^ k) buf t n))
store_all-window k (a ∷ addrs) buf mask head t n h m e fits =
    let buf' = at buf (bit_and head mask) a in
    let here : bit_and head mask ≡ (t + n) % 2 ^ k = slot k head mask m ∙ e in
    let next : u32 (head + 1) % 2 ^ k ≡ (t + suc n) % 2 ^ k =
      mod-u32 k (head + 1) h
      ∙ sym (mod-add-mod head (2 ^ k) 1)
      ∙ ap (λ r. (r + 1) % 2 ^ k) e
      ∙ mod-add-mod (t + n) (2 ^ k) 1
      ∙ ap (λ r. r % 2 ^ k) (omega arith) in
    ap (λ j. window (2 ^ k) (store_all buf' mask (u32 (head + 1)) addrs) t j) (omega arith)
    ∙ store_all-window k addrs buf' mask (u32 (head + 1)) t (suc n) h m next (omega arith)
    ∙ ap (λ l. l ++ addrs) (window-snoc (2 ^ k) buf a t n (bit_and head mask) (omega arith) here)
    ∙ append_assoc (window (2 ^ k) buf t n) (a ∷ []) addrs

length-first_of : (n : ℕ) (l : List ℕ) → n ≤ length l → length (first_of n l) ≡ n
length-first_of zero l h = refl
length-first_of (suc n) [] h = absurd (omega arith)
length-first_of (suc n) (a ∷ l) h = ap suc (length-first_of n l (omega arith))

-- A push on a pool of a power of two of slots appends as many of the frames as there is room for, in their order, and says how many.
pub pool_push_lem :
    (k : ℕ) (p : Pool) (addrs : List ℕ)
    → IsPool k p
    → (frames k (pool_push p addrs).0 ≡ frames k p ++ first_of (pool_push p addrs).1 addrs)
      × ((pool_push p addrs).1 ≡ min (length addrs) (2 ^ k - sub32 p.head p.tail))
      × IsPool k (pool_push p addrs).0
unfolding pool_push
pool_push_lem k p addrs h =
    let count = sub32 p.head p.tail in
    let word = below_word k h.width in
    let room : sub32 p.cap count ≡ 2 ^ k - count = omega (arith, h.cap, h.count, word) in
    let put = (pool_push p addrs).1 in
    let enough : (put ≤ length addrs)
        × (put ≤ 2 ^ k - count)
        × (put ≡ min (length addrs) (2 ^ k - count)) =
      (ground (arith, room), ground (arith, room), ground (arith, room)) in
    let len = length-first_of put addrs enough.0 in
    let grown : sub32 (u32 (p.head + put)) p.tail ≡ count + length (first_of put addrs) =
      omega (arith, len, enough, h.head, h.tail, h.count, word) in
    let head_at : p.head % 2 ^ k ≡ (p.tail + count) % 2 ^ k =
      (let e : p.head ≡ u32 (p.tail + count) = omega (arith, h.head, h.tail) in
        ap (λ a. a % 2 ^ k) e ∙ mod-u32 k (p.tail + count) h.width) in
    (
      ap (λ j. window (2 ^ k) (store_all p.buf p.mask p.head (first_of put addrs)) p.tail j) grown
          ∙ store_all-window k (first_of put addrs) p.buf p.mask p.head p.tail count h.width h.mask
              head_at (omega (arith, len, enough, h.count)),
      enough.2,
      record {
        width = h.width;
        cap = h.cap;
        mask = h.mask;
        head = omega arith;
        tail = h.tail;
        count = omega (arith, grown, len, enough, h.count);
      },
    )
