-- ===== src/Forwarder/Slots.antt =====
-- The transmit slots in use, and the queues of the interfaces.
use ne.Base.{
  ℕ, zero, suc, ◌+◌, ◌≤◌, ◌<◌, min, ◌≡◌, refl, sym, ap, ◌∙◌, ◌⊎◌, inl, inr, Bool, true, false, ◌&&◌,
  none, some, arith, ltb, if◌then◌else◌, Bool-cases,
}
use mathlib.Core.Path.{subst}
use ne.Tx.Slot.{primary_eq}
use native.Mathlib.Decide.{dec_lt}
use ne.Forwarder.{slots_loop, active_tx_slots}
use ne.Tx.{Port, tx_slots, primary_loop}

abbrev chosen_slots : ℕ × Bool → ℕ
chosen_slots r = if r.1 && ltb 0 r.0 then r.0 else 1

chosen_positive : (r : ℕ × Bool) → 0 < chosen_slots r
chosen_positive r = ground arith

chosen_found : (r : ℕ × Bool) → r.1 ≡ true → 0 < r.0 → chosen_slots r ≡ r.0
chosen_found r e h = ground (arith, e, h)

chosen_at_least : (r : ℕ × Bool) → r.1 ≡ true → r.0 ≤ chosen_slots r
chosen_at_least r e = ground (arith, e)

chosen_least :
    (r : ℕ × Bool) (nq : ℕ) → r.0 ≤ tx_slots → r.0 ≤ nq → 0 < nq → chosen_slots r ≤ min nq tx_slots
chosen_least r nq h k p = ground (arith, h, k, p)

module _ {Q : Type 0} where
  -- A live interface has no more than `n` queues.
  abbrev pub HasFew : Port Q → ℕ → Type 0
  HasFew port n =
      (j : ℕ) × (j < port.count) × (port.live j ≡ true) × ((port.ifaces j).queue_count ≤ n)

  -- The fewest queues of the interfaces from `i` on.
  record Fewest (port : Port Q) (left i : ℕ) (s r : ℕ × Bool) : Type 0 where
    less : r.0 ≤ s.0
    kept : s.1 ≡ true → r.1 ≡ true
    attained : (r.0 ≡ s.0) ⊎ HasFew port r.0
    bound :
        (j : ℕ)
        → i ≤ j
        → j < i + left
        → port.live j ≡ true
        → (r.0 ≤ (port.ifaces j).queue_count) × (r.1 ≡ true)

  -- One round of the loop.
  abbrev after_one : Port Q → ℕ → ℕ × Bool → ℕ × Bool
  after_one port i (slots, found) =
      let nq = (port.ifaces i).queue_count in
      let fewer : ℕ × Bool = (if ltb nq slots then nq else slots, true) in
      if port.live i then fewer else (slots, found)

  after_one-less : (port : Port Q) (i : ℕ) (s : ℕ × Bool) → (after_one port i s).0 ≤ s.0
  after_one-less port i s = ground arith

  after_one-kept :
      (port : Port Q) (i : ℕ) (s : ℕ × Bool) → s.1 ≡ true → (after_one port i s).1 ≡ true
  after_one-kept port i s e = ground (arith, e)

  after_one-attained :
      (port : Port Q) (i : ℕ) (s : ℕ × Bool)
      → i < port.count
      → ((after_one port i s).0 ≡ s.0) ⊎ HasFew port (after_one port i s).0
  after_one-attained port i s lt = elim (Bool-cases (port.live i)) [
    | inr dead ↦ inl (ground (arith, dead))
    | inl live ↦ elim (dec_lt (port.ifaces i).queue_count s.0) [
      | yes less ↦ inr (i, lt, live, ground (arith, live, less))
      | no more ↦ inl (ground (arith, live, more))
    ]
  ]

  after_one-bound :
      (port : Port Q) (i : ℕ) (s : ℕ × Bool)
      → port.live i ≡ true
      → ((after_one port i s).0 ≤ (port.ifaces i).queue_count) × ((after_one port i s).1 ≡ true)
  after_one-bound port i s l = ground (arith, l)

  slots_loop-Fewest :
      (port : Port Q) (left i : ℕ) (s : ℕ × Bool)
      → i + left ≤ port.count
      → Fewest port left i s (slots_loop left i port s)
  unfolding slots_loop
  slots_loop-Fewest port zero i s in_range = record {
    less = omega arith;
    kept = λ e. e;
    attained = inl refl;
    bound = λ j le lt l. absurd (omega arith);
  }
  slots_loop-Fewest port (suc left) i s in_range =
      let next = after_one port i s in
      let ih = slots_loop-Fewest port left (i + 1) next (omega arith) in
      record {
        less = omega (arith, ih.less, after_one-less port i s);
        kept = λ e. ih.kept (after_one-kept port i s e);
        attained = elim ih.attained [
          | inr few ↦ inr few
          | inl same ↦ elim (after_one-attained port i s (omega arith)) [
            | inl before ↦ inl (same ∙ before)
            | inr (j, lt, live, few) ↦ inr (j, lt, live, omega (arith, few, same))
          ]
        ];
        bound = λ j le lt l. elim (dec_lt i j) [
          | yes later ↦ ih.bound j (omega arith) (omega arith) l
          | no here ↦
              let e : i ≡ j = omega arith in
              let both = after_one-bound port i s (subst (λ k. port.live k ≡ true) (sym e) l) in
              subst
                (λ k.
                  ((slots_loop left (i + 1) port next).0 ≤ (port.ifaces k).queue_count)
                  × ((slots_loop left (i + 1) port next).1 ≡ true))
                e (omega (arith, ih.less, both.0), ih.kept both.1)
        ];
      }

  -- For each live interface, of either side, that has a queue: at least one slot is in use, and not
  -- more than four, nor more than the interface has queues; either four are in use, or some live
  -- interface has no more queues than slots are in use; and a slot finds a queue of the interface, the
  -- one with the slot's number, exactly when that number is below four and below the number of queues.
  pub active_tx_slots_lem :
      (lan wan port : Port Q) (i s : ℕ)
      → (port ≡ lan) ⊎ (port ≡ wan)
      → i < port.count
      → port.live i ≡ true
      → 0 < (port.ifaces i).queue_count
      → let nq = (port.ifaces i).queue_count in
        let active = active_tx_slots lan wan in
        (0 < active)
        × (active ≤ min nq tx_slots)
        × ((active ≡ tx_slots) ⊎ HasFew lan active ⊎ HasFew wan active)
        × (primary_loop nq 0 s nq ≡ (if ltb s (min nq tx_slots) then some s else none))
  unfolding active_tx_slots
  active_tx_slots_lem lan wan port i s side lt l some_queue =
      let start : ℕ × Bool = (tx_slots, false) in
      let a = slots_loop-Fewest lan lan.count 0 start (omega arith) in
      let mid = slots_loop lan.count 0 lan start in
      let b = slots_loop-Fewest wan wan.count 0 mid (omega arith) in
      let r = slots_loop wan.count 0 wan mid in
      let bound : (r.0 ≤ (port.ifaces i).queue_count) × (r.1 ≡ true) = elim side [
        | inl e ↦
            let (q, f) =
              a.bound i (omega arith) (omega (arith, lt, ap (λ (x : Port Q). x.count) e))
                (subst (λ x. x.live i ≡ true) e l) in
            (
              subst (λ x. r.0 ≤ (x.ifaces i).queue_count) (sym e) (omega (arith, b.less, q)),
              b.kept f,
            )
        | inr e ↦
            let (q, f) =
              b.bound i (omega arith) (omega (arith, lt, ap (λ (x : Port Q). x.count) e))
                (subst (λ x. x.live i ≡ true) e l) in
            (subst (λ x. r.0 ≤ (x.ifaces i).queue_count) (sym e) q, f)
      ] in
      let least = chosen_at_least r bound.1 in
      (
        chosen_positive r,
        chosen_least r (port.ifaces i).queue_count (omega (arith, a.less, b.less)) bound.0
            some_queue,
        elim b.attained [
          | inr (j, p, q, few) ↦ inr (inr (j, p, q, omega (arith, few, least)))
          | inl same ↦ elim a.attained [
            | inr (j, p, q, few) ↦ inr (inl (j, p, q, omega (arith, few, least, same)))
            | inl four ↦ inl (chosen_found r bound.1 (omega (arith, same, four)) ∙ same ∙ four)
          ]
        ],
        primary_eq s (port.ifaces i).queue_count,
      )
