-- ===== src/Umem/Refilled.antt =====
-- The frames that are given to the kernel for receiving.
use mathlib.Core.Path.{subst}
use ne.Tx.{Producer, IsProducer}
use mathlib.Core.List.{append_assoc, Perm, perm_append_comm}
use ne.Umem.{Filling, hand_over, refill_fq_queue, prefill_queue, batch_size}
use ne.Base.{
  length-append, ℕ, zero, suc, ◌+◌, ◌-◌, ◌^◌, ◌≤◌, ◌<◌, ◌≡◌, refl, sym, ap, ap₂, ◌∙◌, inl, inr,
  ◌||◌, List, ◌++◌, arith, ltb, ◌==◌, if◌then◌else◌, Bool-cases, length,
}
use ne.Packet.Room.{pool_push_all, length-frames}
use ne.Packet.Frames.{IsPool, frames, pool_pop_lem}
use ne.Packet.{pool_pop}
use mathlib.Core.List.Perm

same_frames : {a b : List ℕ} → a ≡ b → Perm a b
same_frames {a} e = subst (Perm a) e (Perm.refl a)

module _ {F : Type 0} (p : Producer F ℕ) (handed : F → List ℕ) (lib : IsProducer p handed) where
  -- The frames in the fill ring and in the pool together.
  abbrev pub held : ℕ → Filling F → List ℕ
  held k f = handed f.fq ++ frames k f.pool

  hand_over-keeps :
      (k : ℕ) (f : Filling F) (addrs : List ℕ)
      → IsPool k f.pool
      → length (frames k f.pool) + length addrs ≤ 2 ^ k
      → Perm (held k (hand_over p f addrs).0) (handed f.fq ++ (addrs ++ frames k f.pool))
        × IsPool k (hand_over p f addrs).0.pool
  unfolding hand_over
  hand_over-keeps k f addrs h room =
      let granted = (p.reserve f.fq (length addrs)).1 in
      let fq' = (p.reserve f.fq (length addrs)).0 in
      let kept = lib.reserve_keeps f.fq (length addrs) in
      elim (Bool-cases (granted == length addrs)) [
        | inl yes_all ↦ rw yes_all (
          same_frames (
              ap (λ l. l ++ frames k f.pool)
                (lib.submit_appends fq' addrs ∙ ap (λ l. l ++ addrs) kept)
              ∙ append_assoc (handed f.fq) addrs (frames k f.pool)),
          h,
        )
        | inr refused ↦
            let (back, all, h') = pool_push_all k f.pool addrs h room in
            rw refused (
              Perm.trans (same_frames (ap₂ (λ a b. a ++ b) kept back))
                  (Perm.append_left (handed f.fq) (perm_append_comm (frames k f.pool) addrs)),
              h',
            )
      ]

  -- Frames are taken from the pool and offered to the fill ring.
  offered-keeps :
      (k n : ℕ) (f : Filling F) (fq' : F)
      → handed fq' ≡ handed f.fq
      → IsPool k f.pool
      → let (pool', addrs) = pool_pop f.pool n in
        let f' : Filling F = record { fq = fq'; pool = pool' } in
        Perm (held k (hand_over p f' addrs).0) (held k f) × IsPool k (hand_over p f' addrs).0.pool
  offered-keeps k n f fq' e h =
      let (pool', addrs) = pool_pop f.pool n in
      let (parts, many, h') = pool_pop_lem k n f.pool h in
      let f' : Filling F = record { fq = fq'; pool = pool' } in
      let len = ap length parts ∙ length-append addrs (frames k pool') in
      let (kept, h'') =
        hand_over-keeps k f' addrs h' (omega (arith, len, length-frames k f.pool, h.count)) in
      (Perm.trans kept (same_frames (ap₂ (λ a b. a ++ b) e (sym parts))), h'')

  -- With the fill ring as documented and a valid pool, a refill leaves the frames of the ring and
  -- the pool together as they were, up to their order, and a valid pool.
  pub refill_fq_queue_lem :
      (k : ℕ) (f : Filling F)
      → IsPool k f.pool
      → Perm (held k (refill_fq_queue p f)) (held k f) × IsPool k (refill_fq_queue p f).pool
  unfolding refill_fq_queue
  refill_fq_queue_lem k f h =
      let (fq', free_slots) = p.nb_free f.fq batch_size in
      let kept = lib.nb_free_keeps f.fq batch_size in
      let want = if ltb batch_size free_slots then batch_size else free_slots in
      elim (Bool-cases (free_slots == 0 || length (pool_pop f.pool want).1 == 0)) [
        | inl nothing ↦ rw nothing (same_frames (ap (λ l. l ++ frames k f.pool) kept), h)
        | inr go ↦ rw go (offered-keeps k want f fq' kept h)
      ]

  prefill-keeps :
      (k fuel want : ℕ) (f : Filling F)
      → IsPool k f.pool
      → Perm (held k (prefill_queue p fuel f want)) (held k f)
        × IsPool k (prefill_queue p fuel f want).pool
  unfolding prefill_queue
  prefill-keeps k zero want f h = (Perm.refl (held k f), h)
  prefill-keeps k (suc fuel) want f h =
      let n = if ltb batch_size want then batch_size else want in
      let (pool', addrs) = pool_pop f.pool n in
      let t = hand_over p (record f { pool = pool' }) addrs in
      let (kept, h') = offered-keeps k n f f.fq refl h in
      elim (Bool-cases (want == 0 || length addrs == 0)) [
        | inl nothing ↦ rw nothing (Perm.refl (held k f), h)
        | inr go ↦ elim (Bool-cases t.1) [
          | inl out ↦
              let (more, h'') = prefill-keeps k fuel (want - length addrs) t.0 h' in
              rw (go, out) (Perm.trans more kept, h'')
          | inr refused ↦ rw (go, refused) (kept, h')
        ]
      ]

  prefill-fuel :
      (fuel fuel' want : ℕ) (f : Filling F)
      → want < fuel
      → want < fuel'
      → prefill_queue p fuel f want ≡ prefill_queue p fuel' f want
  unfolding prefill_queue
  prefill-fuel zero fuel' want f h h' = absurd (omega arith)
  prefill-fuel (suc fuel) zero want f h h' = absurd (omega arith)
  prefill-fuel (suc fuel) (suc fuel') want f h h' =
      let n = if ltb batch_size want then batch_size else want in
      let (pool', addrs) = pool_pop f.pool n in
      let t = hand_over p (record f { pool = pool' }) addrs in
      elim (Bool-cases (want == 0 || length addrs == 0)) [
        | inl nothing ↦ rw nothing refl
        | inr go ↦
            let both : (0 < want) × (0 < length addrs) = ground (arith, go) in
            rw go (
              ap (λ r. if t.1 then r else t.0)
                (prefill-fuel fuel fuel' (want - length addrs) t.0 (omega (arith, both))
                  (omega (arith, both))))
      ]

  -- With the fill ring as documented and a valid pool, the first filling leaves the frames of the
  -- ring and the pool together as they were, up to their order, and a valid pool; more rounds than
  -- the frames that are wanted make no difference.
  pub prefill_queue_lem :
      (k fuel want : ℕ) (f : Filling F)
      → IsPool k f.pool
      → want < fuel
      → Perm (held k (prefill_queue p fuel f want)) (held k f)
        × IsPool k (prefill_queue p fuel f want).pool
        × (prefill_queue p fuel f want ≡ prefill_queue p (suc want) f want)
  prefill_queue_lem k fuel want f h enough =
      let (kept, h') = prefill-keeps k fuel want f h in
      (kept, h', prefill-fuel fuel (suc want) want f enough (omega arith))
