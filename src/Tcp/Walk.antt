-- ===== src/Tcp/Walk.antt =====
-- What the clamp reads and writes, and its fuel.
use mathlib.Core.Path.{subst}
use ne.Tcp.{clamp_ip, clamp_at, mss_cap_of, clamp_tcp, clamp_mss, replace_word, lower_mss, walk}
use ne.Base.{
  ℕ, zero, suc, ◌+◌, ◌-◌, ◌*◌, ◌≤◌, ◌<◌, ◌≡◌, refl, sym, ap, ◌∙◌, ◌⊎◌, inl, inr, Bool, true, false,
  not, ◌&&◌, ◌||◌, Option, none, some, arith, ltb, leb, ◌==◌, if◌then◌else◌, Option-cases, shr,
  low_bits, Mem,
}
use ne.Eth.{ipv4_offset}
use ne.Eth.Laws.{ipv4_offset_iff}

-- Outside the bytes from `lo` to `hi` nothing differs.
abbrev Within : ℕ → ℕ → Mem → Mem → Type 0
Within lo hi m m' = (i : ℕ) → (i < lo) ⊎ (hi ≤ i) → m' i ≡ m i

lower_mss-Within :
    (pkt : Mem) (tcp off mss_cap opt_end : ℕ)
    → 20 ≤ off
    → off + 4 ≤ opt_end
    → Within (tcp + 16) (tcp + opt_end) pkt (lower_mss pkt tcp off mss_cap).0
unfolding lower_mss replace_word
lower_mss-Within pkt tcp off mss_cap opt_end h e i out = ground arith

-- A round of the walk, from its tests in their order.
abbrev round :
    Bool
    → Bool
    → Bool
    → Bool
    → Bool
    → (same low : Mem × ℕ) (nop next : Option (Mem × ℕ)) → Option (Mem × ℕ)
round b1 b2 b3 b4 b5 same low nop next =
    if b1
    then some same
    else if b2
    then some same
    else if b3
    then nop
    else if b4
    then some same
    else if b5
    then some low
    else next

injected : (P : Mem × ℕ → Type 0) {x y : Mem × ℕ} → some x ≡ some y → P x → P y
injected P {x} {y} e p = subst P (ground (arith, e)) p

round-answers :
    (P : Mem × ℕ → Type 0) (b1 b2 b3 b4 b5 : Bool) (same low r : Mem × ℕ)
    (nop next : Option (Mem × ℕ))
    → P same
    → (b5 ≡ true → P low)
    → (nop ≡ some r → P r)
    → (next ≡ some r → P r)
    → round b1 b2 b3 b4 b5 same low nop next ≡ some r
    → P r
round-answers P true b2 b3 b4 b5 same low r nop next p q f g e = injected P e p
round-answers P false true b3 b4 b5 same low r nop next p q f g e = injected P e p
round-answers P false false true b4 b5 same low r nop next p q f g e = f e
round-answers P false false false true b5 same low r nop next p q f g e = injected P e p
round-answers P false false false false true same low r nop next p q f g e = injected P e (q refl)
round-answers P false false false false false same low r nop next p q f g e = g e

walk-Within :
    (fuel : ℕ) (pkt : Mem) (tcp off opt_end mss_cap : ℕ) (r : Mem × ℕ)
    → 20 ≤ off
    → walk fuel pkt tcp off opt_end mss_cap ≡ some r
    → Within (tcp + 16) (tcp + opt_end) pkt r.0
unfolding walk
walk-Within zero pkt tcp off opt_end mss_cap r h e = λ i out. ground arith
walk-Within (suc fuel) pkt tcp off opt_end mss_cap r h e =
    let kind = pkt (tcp + off) in
    let olen = pkt (tcp + off + 1) in
    round-answers (λ x. Within (tcp + 16) (tcp + opt_end) pkt x.0) (leb opt_end (off + 1))
      (kind == 0) (kind == 1) (ltb olen 2 || ltb opt_end (off + olen))
      (kind == 2 && olen == 4 && leb (off + 4) opt_end) (pkt, 0) (lower_mss pkt tcp off mss_cap) r
      (walk fuel pkt tcp (off + 1) opt_end mss_cap) (walk fuel pkt tcp (off + olen) opt_end mss_cap)
      (λ i out. refl) (λ b. lower_mss-Within pkt tcp off mss_cap opt_end h (ground (arith, b)))
      (walk-Within fuel pkt tcp (off + 1) opt_end mss_cap r (omega arith))
      (walk-Within fuel pkt tcp (off + olen) opt_end mss_cap r (omega arith)) e

-- Two answers, and the same one.
abbrev Agrees : Option (Mem × ℕ) → Option (Mem × ℕ) → Type 0
Agrees a b = (r : Mem × ℕ) × (a ≡ some r) × (b ≡ some r)

round-Agrees :
    (b1 b2 b3 b4 b5 : Bool) (same low : Mem × ℕ) (nop nop' next next' : Option (Mem × ℕ))
    → (b1 ≡ false → Agrees nop nop')
    → (b1 ≡ false → b4 ≡ false → Agrees next next')
    → Agrees (round b1 b2 b3 b4 b5 same low nop next) (round b1 b2 b3 b4 b5 same low nop' next')
round-Agrees true b2 b3 b4 b5 same low nop nop' next next' f g = (same, refl, refl)
round-Agrees false true b3 b4 b5 same low nop nop' next next' f g = (same, refl, refl)
round-Agrees false false true b4 b5 same low nop nop' next next' f g = f refl
round-Agrees false false false true b5 same low nop nop' next next' f g = (same, refl, refl)
round-Agrees false false false false true same low nop nop' next next' f g = (low, refl, refl)
round-Agrees false false false false false same low nop nop' next next' f g = g refl refl

-- With a round of fuel for each byte of options, and one at least, the walk comes to its end before
-- the fuel is used up; and any other fuel that is so much gives the same answer.
pub walk_fuel :
    (fuel more : ℕ) (pkt : Mem) (tcp off opt_end mss_cap : ℕ)
    → 1 ≤ fuel
    → 1 ≤ more
    → opt_end ≤ off + fuel
    → opt_end ≤ off + more
    → (r : Mem × ℕ) × (walk fuel pkt tcp off opt_end mss_cap ≡ some r)
      × (walk more pkt tcp off opt_end mss_cap ≡ some r)
unfolding walk
walk_fuel zero more pkt tcp off opt_end mss_cap a b h k = absurd (omega arith)
walk_fuel (suc fuel) zero pkt tcp off opt_end mss_cap a b h k = absurd (omega arith)
walk_fuel (suc fuel) (suc more) pkt tcp off opt_end mss_cap a b h k =
    let kind = pkt (tcp + off) in
    let olen = pkt (tcp + off + 1) in
    let goes_on : leb opt_end (off + 1) ≡ false → (1 ≤ fuel) × (1 ≤ more) × (off + 1 < opt_end) =
      λ e. ground (arith, e) in
    round-Agrees (leb opt_end (off + 1)) (kind == 0) (kind == 1)
      (ltb olen 2 || ltb opt_end (off + olen)) (kind == 2 && olen == 4 && leb (off + 4) opt_end)
      (pkt, 0) (lower_mss pkt tcp off mss_cap) (walk fuel pkt tcp (off + 1) opt_end mss_cap)
      (walk more pkt tcp (off + 1) opt_end mss_cap) (walk fuel pkt tcp (off + olen) opt_end mss_cap)
      (walk more pkt tcp (off + olen) opt_end mss_cap)
      (λ e.
        let on = goes_on e in
        walk_fuel fuel more pkt tcp (off + 1) opt_end mss_cap on.0 on.1 (omega arith) (omega arith))
      (λ e f.
        let on = goes_on e in
        let long : 2 ≤ olen = ground (arith, f) in
        walk_fuel fuel more pkt tcp (off + olen) opt_end mss_cap on.0 on.1 (omega arith)
          (omega arith))

-- The early returns in front of the walk, and in front of the TCP header.
walk_or_same :
    (a b c : Bool) (same r : Mem × ℕ) (walked : Option (Mem × ℕ))
    → (if a then some same else if b then none else if c then none else walked) ≡ some r
    → (same ≡ r) ⊎ ((b ≡ false) × (walked ≡ some r))
walk_or_same true b c same r walked e = ground arith
walk_or_same false true c same r walked e = ground arith
walk_or_same false false true same r walked e = ground arith
walk_or_same false false false same r walked e = inr (refl, e)

past_guards :
    (a b c d : Bool) (o : Option (Mem × ℕ)) (r : Mem × ℕ)
    → (if a then none else if b then none else if c then none else if d then none else o) ≡ some r
    → (d ≡ false) × (o ≡ some r)
past_guards true b c d o r e = ground arith
past_guards false true c d o r e = ground arith
past_guards false false true d o r e = ground arith
past_guards false false false true o r e = ground arith
past_guards false false false false o r e = ground arith

guarded :
    (a : Bool) {o : Option (Mem × ℕ)} {r : Mem × ℕ} → (if a then none else o) ≡ some r → o ≡ some r
guarded true e = ground arith
guarded false e = e

none-some : {r : Mem × ℕ} → ¬ (◌≡◌ {A = Option (Mem × ℕ)} none (some r))
none-some e = ground arith

both_fit : (n lo len hi : ℕ) → (ltb n lo || ltb len hi) ≡ false → (lo ≤ n) × (hi ≤ len)
both_fit n lo len hi e = ground arith

further_out :
    (i lo hi lo' hi' : ℕ) → lo ≤ lo' → hi' ≤ hi → (i < lo) ⊎ (hi ≤ i) → (i < lo') ⊎ (hi' ≤ i)
further_out i lo hi lo' hi' a b h = ground arith

clamp_tcp-inside :
    (pkt pkt' : Mem) (pkt_len l3_off ihl path_mtu wire_overhead changed i : ℕ)
    → clamp_tcp pkt pkt_len l3_off ihl path_mtu wire_overhead ≡ some (pkt', changed)
    → (i < l3_off + ihl + 16) ⊎ (pkt_len ≤ i)
    → pkt' i ≡ pkt i
unfolding clamp_tcp
clamp_tcp-inside pkt pkt' pkt_len l3_off ihl path_mtu wire_overhead changed i e out =
    let tcp = l3_off + ihl in
    let data_off = low_bits (shr (pkt (tcp + 12)) 4) 4 * 4 in
    let cap = mss_cap_of (path_mtu - ihl - 20 - wire_overhead) in
    elim (walk_or_same (low_bits (shr (pkt (tcp + 13)) 1) 1 == 0)
      (ltb data_off 20 || ltb pkt_len (tcp + data_off)) (leb path_mtu (ihl + 20 + wire_overhead))
      (pkt, 0) (pkt', changed) (walk 40 pkt tcp 20 data_off cap) e) [
        | inl same ↦ sym (ap (λ (r : Mem × ℕ). r.0 i) same)
        | inr (fits, walked) ↦
            let h = (both_fit data_off 20 pkt_len (tcp + data_off) fits).1 in
            let o =
              further_out i (tcp + 16) pkt_len (tcp + 16) (tcp + data_off) (omega arith) h out in
            walk-Within 40 pkt tcp 20 data_off cap (pkt', changed) (omega arith) walked i o
      ]

clamp_ip-guards :
    (pkt : Mem) (pkt_len path_mtu wire_overhead o : ℕ) (r : Mem × ℕ)
    → clamp_ip pkt pkt_len path_mtu wire_overhead o ≡ some r
    → (20 ≤ low_bits (pkt o) 4 * 4)
      × (clamp_tcp pkt pkt_len o (low_bits (pkt o) 4 * 4) path_mtu wire_overhead ≡ some r)
unfolding clamp_ip
clamp_ip-guards pkt pkt_len path_mtu wire_overhead o r e =
    let ihl = low_bits (pkt o) 4 * 4 in
    let c =
      past_guards (ltb pkt_len (o + 20)) (not (shr (pkt o) 4 == 4)) (not (pkt (o + 9) == 6))
        (ltb ihl 20 || ltb pkt_len (o + ihl + 20))
        (clamp_tcp pkt pkt_len o ihl path_mtu wire_overhead) r e in
    ((both_fit ihl 20 pkt_len (o + ihl + 20) c.0).0, c.1)

-- A clamp that succeeds leaves every byte behind the packet's end, and every byte before the checksum
-- of the TCP header, which lies behind an IPv4 header of any length, as it was.
pub clamp_mss-inside :
    (pkt pkt' : Mem) (pkt_len path_mtu wire_overhead changed i : ℕ)
    → clamp_mss pkt pkt_len path_mtu wire_overhead ≡ some (pkt', changed)
    → (i < 14 + low_bits (pkt 14) 4 * 4 + 16) ⊎ (pkt_len ≤ i)
    → pkt' i ≡ pkt i
unfolding clamp_mss
clamp_mss-inside pkt pkt' pkt_len path_mtu wire_overhead changed i e out =
    let e1 = guarded (ltb path_mtu 576) e in
    elim (Option-cases (ipv4_offset pkt pkt_len)) [
      | inl missing ↦
          absurd
            (none-some (sym (ap (λ o. clamp_at pkt pkt_len path_mtu wire_overhead o) missing) ∙ e1))
      | inr (o, f) ↦
          let at : o ≡ 14 = ((ipv4_offset_iff pkt pkt_len o).0 f).0 in
          let ihl = low_bits (pkt o) 4 * 4 in
          let (h, e') =
            clamp_ip-guards pkt pkt_len path_mtu wire_overhead o (pkt', changed)
              (sym (ap (λ o. clamp_at pkt pkt_len path_mtu wire_overhead o) f) ∙ e1) in
          let same : o + ihl + 16 ≡ 14 + low_bits (pkt 14) 4 * 4 + 16 =
            ap (λ k. k + low_bits (pkt k) 4 * 4 + 16) at in
          let out' =
            further_out i (14 + low_bits (pkt 14) 4 * 4 + 16) pkt_len (o + ihl + 16) pkt_len
              (omega (arith, same)) (omega arith) out in
          clamp_tcp-inside pkt pkt' pkt_len o ihl path_mtu wire_overhead changed i e' out'
    ]
