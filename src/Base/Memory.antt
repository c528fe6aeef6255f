-- ===== src/Base/Memory.antt =====
-- A buffer is the function from an index to the byte there, so that a write is an overlay. How far
-- a function reads or writes is a matter of theorems.
use Prim.Native.Nat.{ℕ, zero, suc, ◌+◌, ◌-◌, ◌<◌}
use mathlib.Core.Path.{◌≡◌}
use mathlib.Core.Bool.{Bool, ◌&&◌}
use mathlib.Core.List.{List, [], ◌∷◌}
use ne.Base.Tests.{ltb, leb, ◌==◌, if◌then◌else◌}
use ne.Base.Lists.{length, get_or}

abbrev pub Mem : Type 0
Mem = ℕ → ℕ

abbrev pub IsBytes : Mem → Type 0
IsBytes m = (i : ℕ) → m i < 256

-- `i` lies in the `n` bytes from `off`.
abbrev pub inside : ℕ → ℕ → ℕ → Bool
inside off n i = leb off i && ltb i (off + n)

-- `m[off] = v;`
abbrev pub poke : Mem → ℕ → ℕ → Mem
poke m off v i = if i == off then v else m i

-- `memcpy(m + off, src + from, n)`; with `src` the same buffer it is `memmove`.
abbrev pub copy : Mem → ℕ → Mem → ℕ → ℕ → Mem
copy m off src from n i = if inside off n i then src (from + (i - off)) else m i

-- The bytes of a list written at `off`.
abbrev pub put : Mem → ℕ → List ℕ → Mem
put m off xs i = if inside off (length xs) i then get_or xs (i - off) 0 else m i

-- The `n` bytes from `off`, as a list.
unfoldable pub slice : Mem → ℕ → ℕ → List ℕ
slice m off zero = []
slice m off (suc n) = m off ∷ slice m (off + 1) n

-- Two buffers agree on their first `n` bytes.
abbrev pub Agree : ℕ → Mem → Mem → Type 0
Agree n m m' = (i : ℕ) → i < n → m i ≡ m' i
