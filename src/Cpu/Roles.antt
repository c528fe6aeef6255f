-- ===== src/Cpu/Roles.antt =====
-- The roles that the CPU map gives to each CPU, and its check.
use mathlib.Core.Path.{subst}
use ne.Base.{
  ◌>>=◌, fun_ext, ℕ, ◌<◌, ◌≡◌, refl, ap, ◌∙◌, ◌≢◌, ◌↔◌, inl, inr, Bool, true, false, not, ◌||◌,
  none, some, List, [], ◌∷◌, ◌++◌, arith, leb, ◌==◌, Bool-cases,
}
use ne.Cpu.{
  cpu_setsize, validate_group, mark, cpu_map_validate, cpu_rx_lan_list, cpu_tx_list,
  cpu_crypto_list, cpu_rx_wan_list,
}

abbrev pub is_in : ℕ → List ℕ → Bool
is_in c [] = false
is_in c (x ∷ xs) = c == x || is_in c xs

-- Each CPU of the group can be used, was not seen before, and is in the group once.
abbrev pub IsGroup : List ℕ → (ℕ → Bool) → (ℕ → Bool) → Type 0
IsGroup [] allowed seen = Unit {0}
IsGroup (cpu ∷ cpus) allowed seen =
    (cpu < cpu_setsize)
    × (allowed cpu ≡ true)
    × (seen cpu ≡ false)
    × (is_in cpu cpus ≡ false)
    × IsGroup cpus allowed seen

-- A CPU that is marked as seen may not come again.
unmark :
    (cpu : ℕ) (cpus : List ℕ) (allowed seen : ℕ → Bool)
    → IsGroup cpus allowed (mark seen cpu)
    → IsGroup cpus allowed seen × (is_in cpu cpus ≡ false)
unmark cpu [] allowed seen h = (tt, refl)
unmark cpu (x ∷ xs) allowed seen h = ground (arith, unmark cpu xs allowed seen h.4, h)

remark :
    (cpu : ℕ) (cpus : List ℕ) (allowed seen : ℕ → Bool)
    → IsGroup cpus allowed seen
    → is_in cpu cpus ≡ false
    → IsGroup cpus allowed (mark seen cpu)
remark cpu [] allowed seen h e = tt
remark cpu (x ∷ xs) allowed seen h e = ground (arith, remark cpu xs allowed seen h.4, h, e)

-- The check of a group passes if and only if each of its CPUs has a number below 1024, can be used,
-- was not seen in a group before, and is in the group once.
pub validate_group_iff :
    (cpus : List ℕ) (allowed seen : ℕ → Bool)
    → (validate_group cpus allowed seen ≢ none) ↔ IsGroup cpus allowed seen
unfolding validate_group
validate_group_iff [] allowed seen = (λ h. tt, λ h e. cc)
validate_group_iff (cpu ∷ cpus) allowed seen =
    let ih = validate_group_iff cpus allowed (mark seen cpu) in
    (
      λ h. ground (arith, ih.0, unmark cpu cpus allowed seen, h),
      λ h. ground (arith, ih.1, remark cpu cpus allowed seen h.4 h.3, h),
    )

-- The CPUs of all roles, in the order of the check.
abbrev pub all_cpus : List ℕ
all_cpus = cpu_rx_lan_list ++ (cpu_tx_list ++ (cpu_crypto_list ++ cpu_rx_wan_list))

validate_group-append :
    (xs ys : List ℕ) (allowed seen : ℕ → Bool)
    → validate_group (xs ++ ys) allowed seen
      ≡ (validate_group xs allowed seen >>= λ s. validate_group ys allowed s)
unfolding validate_group
validate_group-append [] ys allowed seen = refl
validate_group-append (x ∷ xs) ys allowed seen =
    elim (Bool-cases (leb cpu_setsize x || not (allowed x))) [
      | inl bad ↦ rw bad refl
      | inr good ↦ elim (Bool-cases (seen x)) [
        | inl again ↦ rw (good, again) refl
        | inr new ↦ rw (good, new) (validate_group-append xs ys allowed (mark seen x))
      ]
    ]

-- The check of the map is that of one group with the CPUs of all roles: when it passes, the program
-- may run on each of them, and none has two roles; and it passes whenever that is so.
pub cpu_map_validate_iff :
    (allowed : ℕ → Bool)
    → (cpu_map_validate (some allowed) ≢ none) ↔ IsGroup all_cpus allowed (λ c. false)
unfolding cpu_map_validate
cpu_map_validate_iff allowed =
    let late = cpu_crypto_list ++ cpu_rx_wan_list in
    let e =
      validate_group-append cpu_rx_lan_list (cpu_tx_list ++ late) allowed (λ c. false)
      ∙ ap (λ k. validate_group cpu_rx_lan_list allowed (λ c. false) >>= k)
          (fun_ext (λ s.
            validate_group-append cpu_tx_list late allowed s
            ∙ ap (λ k. validate_group cpu_tx_list allowed s >>= k)
                (fun_ext
                  (λ s'. validate_group-append cpu_crypto_list cpu_rx_wan_list allowed s')))) in
    subst (λ o. (o ≢ none) ↔ IsGroup all_cpus allowed (λ c. false)) e
      (validate_group_iff all_cpus allowed (λ c. false))
