-- ===== src/Forwarder/StartAll.antt =====
-- What forwarder_run creates and waits for, from its four loops of thread creation.
use ne.Forwarder.Created.{
  group, threads, all_created, first_created, first-all, first-append, first-stops, all-append,
  start_group, join_loop-group,
}
use mathlib.Core.List.{append-nil}
use ne.Base.{
  length-append, ℕ, zero, suc, ◌+◌, ◌≡◌, refl, sym, ap, ap₂, ◌∙◌, ◌↔◌, ◌⊎◌, inl, inr, Bool, true,
  false, List, [], ◌++◌, arith, Bool-cases, length,
}
use ne.Forwarder.Threads.{
  Thread, local_rx, tx, crypto, wan_rx, Control, forwarder_stop, Started, start_loop, join_loop,
  joins, Run, join_started, join_all, start_all,
}
use ne.Forwarder.{crypto_workers}
use ne.Tx.{tx_slots}

length-group : (thread : ℕ → Thread) (left w : ℕ) → length (group thread left w) ≡ left
length-group thread zero w = refl
length-group thread (suc left) w = ap suc (length-group thread left (w + 1))

length-both :
    (xs ys : List Thread) (m k : ℕ) → length xs ≡ m → length ys ≡ k → length (xs ++ ys) ≡ m + k
length-both xs ys m k p q = omega (arith, length-append xs ys, p, q)

length-threads : (a b e : ℕ) → length (threads a b e) ≡ a + b + crypto_workers + e
length-threads a b e =
    length-both _ _ _ _
      (length-both _ _ _ _ (length-both _ _ _ _ (length-group local_rx a 0) (length-group tx b 0))
        (length-group crypto crypto_workers 0))
      (length-group wan_rx e 0)

-- The joins, from what each of the four loops joins.
joins-eq :
    (s : Started) (w x y z : List Thread)
    → join_loop local_rx s.local_rx_started 0 ≡ w
    → join_loop tx s.tx_started 0 ≡ x
    → join_loop crypto s.crypto_started 0 ≡ y
    → join_loop wan_rx s.wan_rx_started 0 ≡ z
    → joins s ≡ w ++ x ++ y ++ z
unfolding joins
joins-eq s w x y z p q r u = ap₂ ◌++◌ (ap₂ ◌++◌ (ap₂ ◌++◌ p q) r) u

none_joined : (thread : ℕ → Thread) → join_loop thread 0 0 ≡ []
unfolding join_loop
none_joined thread = refl

-- A thread cannot be created: those in front of it are joined, and no other, and the program stops.
pub record Undone (create : Thread → Bool) (c : Control) (lan_rx active wan_rx_active : ℕ) (r : Run)
    : Type 0 where
  pub missing : all_created create (threads lan_rx active wan_rx_active) ≡ false
  pub joined : r.joined ≡ first_created create (threads lan_rx active wan_rx_active)
  pub stopped : r.control ≡ forwarder_stop c

-- All threads are created. Those that are joined are the same with all four transmit threads, which
-- is the same list only if all transmit slots are in use.
pub record Done (create : Thread → Bool) (c : Control) (lan_rx active wan_rx_active : ℕ) (r : Run)
    : Type 0 where
  pub all : all_created create (threads lan_rx active wan_rx_active) ≡ true
  pub joined : r.joined ≡ threads lan_rx tx_slots wan_rx_active
  pub joined_iff : (r.joined ≡ threads lan_rx active wan_rx_active) ↔ (active ≡ tx_slots)
  pub untouched : r.control ≡ c

slots_full : (a b e : ℕ) → (threads a tx_slots e ≡ threads a b e) ↔ (b ≡ tx_slots)
slots_full a b e = (
  λ same.
      let l = sym (length-threads a tx_slots e) ∙ ap length same ∙ length-threads a b e in
      omega (arith, l),
  λ full. ap (λ k. threads a k e) (sym full),
)

module _ (create : Thread → Bool) (c : Control) (a b e : ℕ) where
  abbrev first_of : List Thread → List Thread
  first_of ts = first_created create ts

  abbrev g1 : List Thread
  g1 = group local_rx a 0

  abbrev g2 : List Thread
  g2 = group tx b 0

  abbrev g3 : List Thread
  g3 = group crypto crypto_workers 0

  abbrev g4 : List Thread
  g4 = group wan_rx e 0

  stop-Undone :
      (s : Started)
      → all_created create (threads a b e) ≡ false
      → joins s ≡ first_of (threads a b e)
      → Undone create c a b e (join_started c s)
  unfolding join_started
  stop-Undone s missing same = record { missing = missing; joined = same; stopped = refl }

  end-Done :
      (s : Started)
      → all_created create (threads a b e) ≡ true
      → join_loop local_rx s.local_rx_started 0 ≡ g1
      → join_loop wan_rx s.wan_rx_started 0 ≡ g4
      → Done create c a b e (join_all c s)
  unfolding join_all
  end-Done s all p q =
      let same =
        joins-eq (record s { tx_started = tx_slots; crypto_started = crypto_workers }) g1
          (group tx tx_slots 0) g3 g4 p (join_loop-group tx tx_slots 0)
          (join_loop-group crypto crypto_workers 0) q in
      let full = slots_full a b e in
      record {
        all = all;
        joined = same;
        joined_iff = (λ x. full.0 (sym same ∙ x), λ x. same ∙ full.1 x);
        untouched = refl;
      }

  -- The case in which only the last loop can fail.
  last :
      (k1 k2 k3 k4 : ℕ)
      → start_loop (λ w. create (local_rx w)) a 0 ≡ (k1, all_created create g1)
      → start_loop (λ w. create (tx w)) b 0 ≡ (k2, all_created create g2)
      → start_loop (λ w. create (crypto w)) crypto_workers 0 ≡ (k3, all_created create g3)
      → start_loop (λ w. create (wan_rx w)) e 0 ≡ (k4, all_created create g4)
      → join_loop local_rx k1 0 ≡ first_of g1
      → join_loop tx k2 0 ≡ first_of g2
      → join_loop crypto k3 0 ≡ first_of g3
      → join_loop wan_rx k4 0 ≡ first_of g4
      → all_created create g1 ≡ true
      → all_created create g2 ≡ true
      → all_created create g3 ≡ true
      → Undone create c a b e (start_all create c a b e)
        ⊎ Done create c a b e (start_all create c a b e)
  unfolding start_all
  last k1 k2 k3 k4 n1 n2 n3 n4 j1 j2 j3 j4 t1 t2 t3 =
      let g12 = g1 ++ g2 in
      let g123 = g12 ++ g3 in
      let s : Started = record {
        local_rx_started = k1;
        tx_started = k2;
        crypto_started = k3;
        wan_rx_started = k4;
      } in
      let t123 = all-append create g12 g3 (all-append create g1 g2 t1 ∙ t2) ∙ t3 in
      let p1 = j1 ∙ first-all create g1 t1 in
      elim (Bool-cases (all_created create g4)) [
        | inr f4 ↦
            let same =
              joins-eq s g1 g2 g3 (first_of g4) p1 (j2 ∙ first-all create g2 t2)
                (j3 ∙ first-all create g3 t3) j4 in
            inl (
              rw
                (
                  n1 ∙ ap (λ x. (k1, x)) t1,
                  n2 ∙ ap (λ x. (k2, x)) t2,
                  n3 ∙ ap (λ x. (k3, x)) t3,
                  n4 ∙ ap (λ x. (k4, x)) f4,
                )
                (stop-Undone s (all-append create g123 g4 t123 ∙ f4)
                  (same ∙ sym (first-append create g123 g4 t123))))
        | inl t4 ↦ inr (
            rw
              (
                n1 ∙ ap (λ x. (k1, x)) t1,
                n2 ∙ ap (λ x. (k2, x)) t2,
                n3 ∙ ap (λ x. (k3, x)) t3,
                n4 ∙ ap (λ x. (k4, x)) t4,
              )
              (end-Done s (all-append create g123 g4 t123 ∙ t4) p1 (j4 ∙ first-all create g4 t4)))
      ]

  -- What the four loops lead to.
  pub start_all_lem :
      Undone create c a b e (start_all create c a b e)
      ⊎ Done create c a b e (start_all create c a b e)
  unfolding start_all
  start_all_lem =
      let (k1, n1, j1) = start_group create local_rx a in
      let (k2, n2, j2) = start_group create tx b in
      let (k3, n3, j3) = start_group create crypto crypto_workers in
      let (k4, n4, j4) = start_group create wan_rx e in
      let g12 = g1 ++ g2 in
      let g123 = g12 ++ g3 in
      let empty = none_joined in
      elim (Bool-cases (all_created create g1)) [
        | inr f1 ↦
            let s1 = first-stops create g1 g2 f1 in
            let s2 = first-stops create g12 g3 s1.1 in
            let s3 = first-stops create g123 g4 s2.1 in
            let same =
              joins-eq (counted k1 0 0 0) (first_of g1) [] [] [] j1 (empty tx) (empty crypto)
                (empty wan_rx) in
            inl (
              rw (n1 ∙ ap (λ x. (k1, x)) f1) (
                stop-Undone (counted k1 0 0 0) s3.1
                  (same ∙ nils (first_of g1) ∙ sym (s3.0 ∙ s2.0 ∙ s1.0))))
        | inl t1 ↦ elim (Bool-cases (all_created create g2)) [
          | inr f2 ↦
              let s2 = first-stops create g12 g3 (all-append create g1 g2 t1 ∙ f2) in
              let s3 = first-stops create g123 g4 s2.1 in
              let same =
                joins-eq (counted k1 k2 0 0) g1 (first_of g2) [] [] (j1 ∙ first-all create g1 t1) j2
                  (empty crypto) (empty wan_rx) in
              inl (
                rw (n1 ∙ ap (λ x. (k1, x)) t1, n2 ∙ ap (λ x. (k2, x)) f2)
                  (stop-Undone (counted k1 k2 0 0) s3.1 (
                    same
                    ∙ append-nil ((g1 ++ first_of g2) ++ [])
                    ∙ append-nil (g1 ++ first_of g2)
                    ∙ sym (s3.0 ∙ s2.0 ∙ first-append create g1 g2 t1))))
          | inl t2 ↦
              let t12 = all-append create g1 g2 t1 ∙ t2 in
              elim (Bool-cases (all_created create g3)) [
                | inr f3 ↦
                    let s3 = first-stops create g123 g4 (all-append create g12 g3 t12 ∙ f3) in
                    let same =
                      joins-eq (counted k1 k2 k3 0) g1 g2 (first_of g3) []
                        (j1 ∙ first-all create g1 t1) (j2 ∙ first-all create g2 t2) j3
                        (empty wan_rx) in
                    inl (
                      rw
                        (
                          n1 ∙ ap (λ x. (k1, x)) t1,
                          n2 ∙ ap (λ x. (k2, x)) t2,
                          n3 ∙ ap (λ x. (k3, x)) f3,
                        )
                        (stop-Undone (counted k1 k2 k3 0) s3.1 (
                          same
                          ∙ append-nil (g12 ++ first_of g3)
                          ∙ sym (s3.0 ∙ first-append create g12 g3 t12))))
                | inl t3 ↦ last k1 k2 k3 k4 n1 n2 n3 n4 j1 j2 j3 j4 t1 t2 t3
              ]
        ]
      ]
    where
      counted : ℕ → ℕ → ℕ → ℕ → Started
      counted p q r u = record {
        local_rx_started = p;
        tx_started = q;
        crypto_started = r;
        wan_rx_started = u;
      }

      nils : (xs : List Thread) → ((xs ++ []) ++ []) ++ [] ≡ xs
      nils xs = append-nil ((xs ++ []) ++ []) ∙ append-nil (xs ++ []) ∙ append-nil xs
