-- ===== src/Cpu.antt =====
-- src/core/util/cpu_map.c and cpu_map.h: the CPUs of the threads, and the check that they can be
-- used. What the program may run on (sched_getaffinity) is an argument, none when the call fails.
pub mod Roles
use ne.Base.{
  get_or, ◌>>=◌, ℕ, zero, suc, ◌+◌, ◌-◌, ◌*◌, ◌/◌, ◌%◌, ◌^◌, ◌≤◌, ◌<◌, min, bit_and, bit_or,
  bit_xor, ◌≡◌, refl, sym, ap, ap₂, ◌∙◌, ◌≢◌, ◌↔◌, ◌⊎◌, inl, inr, Bool, true, false, not, ◌&&◌,
  ◌||◌, Option, none, some, List, [], ◌∷◌, ◌++◌, arith, ltb, leb, ◌==◌, if◌then◌else◌, ==_iff,
  Bool-cases, Option-cases, length, u8, u16, u32, u64, sub32, sub64, shr, low_bits, be16, be32, Mem,
  IsBytes, inside, poke, copy, put, slice, Agree,
}

-- NE_CPU_RX_LAN, NE_CPU_TX, NE_CPU_CRYPTO, NE_CPU_RX_WAN
abbrev pub cpu_rx_lan_list : List ℕ
cpu_rx_lan_list = 0 ∷ []

abbrev pub cpu_tx_list : List ℕ
cpu_tx_list = 1 ∷ 2 ∷ 9 ∷ 10 ∷ []

abbrev pub cpu_crypto_list : List ℕ
cpu_crypto_list = 3 ∷ 4 ∷ 5 ∷ 6 ∷ 7 ∷ 8 ∷ []

abbrev pub cpu_rx_wan_list : List ℕ
cpu_rx_wan_list = 11 ∷ []

-- ne_cpu_rx_lan, ne_cpu_tx, ne_cpu_crypto and ne_cpu_rx_wan: an index out of range is 0.
unfoldable pub cpu_of : List ℕ → ℕ → ℕ
cpu_of cpus slot = get_or cpus (if ltb slot (length cpus) then slot else 0) 0

-- CPU_SETSIZE
abbrev pub cpu_setsize : ℕ
cpu_setsize = 1024

abbrev pub mark : (ℕ → Bool) → ℕ → (ℕ → Bool)
mark seen cpu c = c == cpu || seen c

-- validate_group, with the CPUs seen so far
unfoldable pub validate_group : List ℕ → (ℕ → Bool) → (ℕ → Bool) → Option (ℕ → Bool)
validate_group [] allowed seen = some seen
validate_group (cpu ∷ cpus) allowed seen =
    let rest = validate_group cpus allowed (mark seen cpu) in
    if leb cpu_setsize cpu || not (allowed cpu) then none else if seen cpu then none else rest

-- ne_cpu_map_validate
unfoldable pub cpu_map_validate : Option (ℕ → Bool) → Option (ℕ → Bool)
cpu_map_validate affinity = do
  allowed ← affinity
  a ← validate_group cpu_rx_lan_list allowed (λ c. false)
  b ← validate_group cpu_tx_list allowed a
  c ← validate_group cpu_crypto_list allowed b
  validate_group cpu_rx_wan_list allowed c
