-- ===== src/Forwarder/Undo.antt =====
-- The rings that forwarder_cleanup destroys.
use ne.Forwarder.Setup.{
  RingId, local_to_mid, wan_to_mid, mid_to_local, mid_to_wan, same_ring, Held, hold, destroy_row,
  destroy_side, destroy_workers, max_interfaces,
}
use ne.Forwarder.{crypto_workers}
use mathlib.Core.Path.{subst}
use native.Mathlib.Decide.{dec_lt}
use ne.Base.{
  ℕ, zero, suc, ◌+◌, ◌≤◌, ◌<◌, ◌≡◌, ap, ◌∙◌, inl, inr, true, false, arith, ==_iff, Bool-cases,
}

-- The rings that the program has room for.
abbrev pub InRange : RingId → Type 0
InRange (local_to_mid w) = w < crypto_workers
InRange (wan_to_mid w) = w < crypto_workers
InRange (mid_to_local i w) = (i < max_interfaces) × (w < crypto_workers)
InRange (mid_to_wan i w) = (i < max_interfaces) × (w < crypto_workers)

abbrev pub Within : Held → Type 0
Within h = (x : RingId) → h.rings x ≡ true → InRange x

same-eq : (P : RingId → Type 0) (id x : RingId) → same_ring id x ≡ true → P id → P x
same-eq P (local_to_mid w) (local_to_mid v) e p =
    subst (λ k. P (local_to_mid k)) ((==_iff w v).0 e) p
same-eq P (wan_to_mid w) (wan_to_mid v) e p = subst (λ k. P (wan_to_mid k)) ((==_iff w v).0 e) p
same-eq P (mid_to_local i w) (mid_to_local j v) e p =
    let a : i ≡ j = ground (arith, e) in
    let b : w ≡ v = ground (arith, e) in
    subst (λ k. P (mid_to_local j k)) b (subst (λ k. P (mid_to_local k w)) a p)
same-eq P (mid_to_wan i w) (mid_to_wan j v) e p =
    let a : i ≡ j = ground (arith, e) in
    let b : w ≡ v = ground (arith, e) in
    subst (λ k. P (mid_to_wan j k)) b (subst (λ k. P (mid_to_wan k w)) a p)
same-eq P (local_to_mid w) (wan_to_mid v) e p = cc
same-eq P (local_to_mid w) (mid_to_local j v) e p = cc
same-eq P (local_to_mid w) (mid_to_wan j v) e p = cc
same-eq P (wan_to_mid w) (local_to_mid v) e p = cc
same-eq P (wan_to_mid w) (mid_to_local j v) e p = cc
same-eq P (wan_to_mid w) (mid_to_wan j v) e p = cc
same-eq P (mid_to_local i w) (local_to_mid v) e p = cc
same-eq P (mid_to_local i w) (wan_to_mid v) e p = cc
same-eq P (mid_to_local i w) (mid_to_wan j v) e p = cc
same-eq P (mid_to_wan i w) (local_to_mid v) e p = cc
same-eq P (mid_to_wan i w) (wan_to_mid v) e p = cc
same-eq P (mid_to_wan i w) (mid_to_local j v) e p = cc

-- A ring of the program more.
pub hold-Within : (h : Held) (id : RingId) → InRange id → Within h → Within (hold h id true)
hold-Within h id p within x e = elim (Bool-cases (same_ring id x)) [
  | inl same ↦ same-eq InRange id x same p
  | inr other ↦ within x (ground (arith, e, other))
]

-- One ring less.
hold_off :
    (h : Held) (id x : RingId)
    → (hold h id false).rings x ≡ true
    → (h.rings x ≡ true) × (same_ring id x ≡ false)
hold_off h id x e = ground (arith, e)

destroy_row_lem :
    (ring : ℕ → RingId) (left w : ℕ) (h : Held) (x : RingId)
    → (destroy_row ring left w h).rings x ≡ true
    → (h.rings x ≡ true) × ((k : ℕ) → w ≤ k → k < w + left → same_ring (ring k) x ≡ false)
unfolding destroy_row
destroy_row_lem ring zero w h x e = (e, λ k le lt. absurd (omega arith))
destroy_row_lem ring (suc left) w h x e =
    let (before, later) = destroy_row_lem ring left (w + 1) (hold h (ring w) false) x e in
    let (held, other) = hold_off h (ring w) x before in
    (
      held,
      λ k le lt. elim (dec_lt w k) [
        | yes p ↦ later k (omega arith) (omega arith)
        | no p ↦ ap (λ j. same_ring (ring j) x) {x = k} {y = w} (omega arith) ∙ other
      ],
    )

pub destroy_side_lem :
    (ring : ℕ → ℕ → RingId) (left i : ℕ) (h : Held) (x : RingId)
    → (destroy_side ring left i h).rings x ≡ true
    → (h.rings x ≡ true)
      × ((j k : ℕ) → i ≤ j → j < i + left → k < crypto_workers → same_ring (ring j k) x ≡ false)
unfolding destroy_side
destroy_side_lem ring zero i h x e = (e, λ j k le lt q. absurd (omega arith))
destroy_side_lem ring (suc left) i h x e =
    let (before, later) =
      destroy_side_lem ring left (i + 1) (destroy_row (ring i) crypto_workers 0 h) x e in
    let (held, row) = destroy_row_lem (ring i) crypto_workers 0 h x before in
    (
      held,
      λ j k le lt q. elim (dec_lt i j) [
        | yes p ↦ later j k (omega arith) (omega arith) q
        | no p ↦
            ap (λ l. same_ring (ring l k) x) {x = j} {y = i} (omega arith)
            ∙ row k (omega arith) (omega arith)
      ],
    )

pub destroy_workers_lem :
    (left w : ℕ) (h : Held) (x : RingId)
    → (destroy_workers left w h).rings x ≡ true
    → (h.rings x ≡ true)
      × ((k : ℕ)
          → w ≤ k
          → k < w + left
          → (same_ring (local_to_mid k) x ≡ false) × (same_ring (wan_to_mid k) x ≡ false))
unfolding destroy_workers
destroy_workers_lem zero w h x e = (e, λ k le lt. absurd (omega arith))
destroy_workers_lem (suc left) w h x e =
    let h1 = hold h (local_to_mid w) false in
    let (before, later) = destroy_workers_lem left (w + 1) (hold h1 (wan_to_mid w) false) x e in
    let (b1, o1) = hold_off h1 (wan_to_mid w) x before in
    let (held, o2) = hold_off h (local_to_mid w) x b1 in
    (
      held,
      λ k le lt. elim (dec_lt w k) [
        | yes p ↦ later k (omega arith) (omega arith)
        | no p ↦ (
          ap (λ l. same_ring (local_to_mid l) x) {x = k} {y = w} (omega arith) ∙ o2,
          ap (λ l. same_ring (wan_to_mid l) x) {x = k} {y = w} (omega arith) ∙ o1,
        )
      ],
    )
