-- ===== src/Forwarder/Opened.antt =====
-- What is open when forwarder_init returns.
use ne.Forwarder.Setup.{
  RingId, local_to_mid, wan_to_mid, mid_to_local, mid_to_wan, same_ring, Held, init_workers,
  init_side, init_rings, destroy_side, destroy_workers, max_interfaces, forwarder_cleanup, Answers,
  forwarder_init,
}
use ne.Forwarder.{crypto_workers}
use ne.Idle.{idle_init, idle_shutdown}
use ne.Forwarder.Made.{
  Extends, Extends-trans, same_refl, init_side-Extends, init_workers-Extends, init_side_lem,
  init_workers_lem,
}
use ne.Forwarder.Undo.{InRange, Within, destroy_side_lem, destroy_workers_lem}
use ne.Base.{
  ℕ, ◌+◌, ◌≤◌, ◌<◌, min, ◌≡◌, refl, ◌⊎◌, inl, inr, Bool, true, false, not, ◌||◌, arith, ◌==◌,
  if◌then◌else◌, Bool-cases,
}

-- The rings that the threads use, for these numbers of interfaces.
abbrev pub Wanted : ℕ → ℕ → RingId → Type 0
Wanted lan wan (local_to_mid w) = w < crypto_workers
Wanted lan wan (wan_to_mid w) = w < crypto_workers
Wanted lan wan (mid_to_local i w) = (i < min lan max_interfaces) × (w < crypto_workers)
Wanted lan wan (mid_to_wan i w) = (i < min wan max_interfaces) × (w < crypto_workers)

-- No interface is open, and no ring has a buffer.
pub record IsClosed (h : Held) : Type 0 where
  pub pair : h.pair_open ≡ false
  pub rings : (x : RingId) → h.rings x ≡ false

pub record IsOpen (lan wan : ℕ) (h : Held) : Type 0 where
  pub pair : h.pair_open ≡ true
  pub runs : h.running ≡ true
  pub rings : (x : RingId) → Wanted lan wan x → h.rings x ≡ true

never : (x : RingId) (h : Held) → ¬ (h.rings x ≡ true) → h.rings x ≡ false
never x h nothing_held = elim (Bool-cases (h.rings x)) [
  | inl yes_held ↦ absurd (nothing_held yes_held)
  | inr off ↦ off
]

not_both : (b : Bool) → b ≡ true → b ≡ false → ⊥
not_both b p q = cc

cleanup-IsClosed : (h : Held) → Within h → IsClosed (forwarder_cleanup h)
unfolding forwarder_cleanup
cleanup-IsClosed h within = record {
  pair = refl;
  rings = λ x. never x (destroy_side mid_to_local max_interfaces 0 h2) (gone x);
}
  where
    h1 : Held
    h1 = destroy_workers crypto_workers 0 h

    h2 : Held
    h2 = destroy_side mid_to_wan max_interfaces 0 h1

    free :
        (x : RingId)
        → InRange x
        → ((k : ℕ)
            → 0 ≤ k
            → k < 0 + crypto_workers
            → (same_ring (local_to_mid k) x ≡ false) × (same_ring (wan_to_mid k) x ≡ false))
        → ((j k : ℕ)
            → 0 ≤ j
            → j < 0 + max_interfaces
            → k < crypto_workers
            → same_ring (mid_to_wan j k) x ≡ false)
        → ((j k : ℕ)
            → 0 ≤ j
            → j < 0 + max_interfaces
            → k < crypto_workers
            → same_ring (mid_to_local j k) x ≡ false)
        → ⊥
    free (local_to_mid w) p a b c =
        not_both _ (same_refl (local_to_mid w)) (a w (omega arith) (omega (arith, p))).0
    free (wan_to_mid w) p a b c =
        not_both _ (same_refl (wan_to_mid w)) (a w (omega arith) (omega (arith, p))).1
    free (mid_to_local i w) p a b c =
        not_both _ (same_refl (mid_to_local i w)) (c i w (omega arith) (omega (arith, p)) p.1)
    free (mid_to_wan i w) p a b c =
        not_both _ (same_refl (mid_to_wan i w)) (b i w (omega arith) (omega (arith, p)) p.1)

    gone : (x : RingId) → (destroy_side mid_to_local max_interfaces 0 h2).rings x ≡ true → ⊥
    gone x e =
        let (e2, c) = destroy_side_lem mid_to_local max_interfaces 0 h2 x e in
        let (e1, b) = destroy_side_lem mid_to_wan max_interfaces 0 h1 x e2 in
        let (e0, a) = destroy_workers_lem crypto_workers 0 h x e1 in free x (within x e0) a b c

all_made :
    (memory : RingId → Bool) (lan wan : ℕ) (h : Held)
    → let workers = init_workers memory crypto_workers 0 h in
      let locals = init_side memory mid_to_local (min lan max_interfaces) 0 workers.0 in
      let wans = init_side memory mid_to_wan (min wan max_interfaces) 0 locals.0 in
      ((j k : ℕ) → j < 0 + min lan max_interfaces → k < crypto_workers → InRange (mid_to_local j k))
      → ((j k : ℕ) → j < 0 + min wan max_interfaces → k < crypto_workers → InRange (mid_to_wan j k))
      → Extends workers.0 locals.0
      → Extends locals.0 wans.0
      → workers.1 ≡ true
      → locals.1 ≡ true
      → wans.1 ≡ true
      → (x : RingId) → Wanted lan wan x
      → wans.0.rings x ≡ true
all_made memory lan wan h lr wr e2 e3 ok1 ok2 ok3 (local_to_mid w) p = e3.kept (local_to_mid w) (
    e2.kept (local_to_mid w)
      (init_workers_lem memory crypto_workers 0 h (omega arith) ok1 w (omega arith)
        (omega (arith, p))).0)
all_made memory lan wan h lr wr e2 e3 ok1 ok2 ok3 (wan_to_mid w) p = e3.kept (wan_to_mid w) (
    e2.kept (wan_to_mid w)
      (init_workers_lem memory crypto_workers 0 h (omega arith) ok1 w (omega arith)
        (omega (arith, p))).1)
all_made memory lan wan h lr wr e2 e3 ok1 ok2 ok3 (mid_to_local i w) p =
    e3.kept (mid_to_local i w) (
      init_side_lem memory mid_to_local (min lan max_interfaces) 0
        (init_workers memory crypto_workers 0 h).0 lr ok2 i w (omega arith) (omega (arith, p)) p.1)
all_made memory lan wan h lr wr e2 e3 ok1 ok2 ok3 (mid_to_wan i w) p =
    init_side_lem memory mid_to_wan (min wan max_interfaces) 0
      (init_side memory mid_to_local (min lan max_interfaces) 0
        (init_workers memory crypto_workers 0 h).0).0
      wr ok3 i w (omega arith) (omega (arith, p)) p.1

init_rings_lem :
    (memory : RingId → Bool) (lan wan : ℕ) (h : Held)
    → let (r, ok) = init_rings memory (min lan max_interfaces) (min wan max_interfaces) h in
      Extends h r
      × ((ok ≡ false) ⊎ ((ok ≡ true) × ((x : RingId) → Wanted lan wan x → r.rings x ≡ true)))
unfolding init_rings
init_rings_lem memory lan wan h =
    let workers = init_workers memory crypto_workers 0 h in
    let ext1 = init_workers-Extends memory crypto_workers 0 h (omega arith) in
    let l = min lan max_interfaces in
    let v = min wan max_interfaces in
    let locals = init_side memory mid_to_local l 0 workers.0 in
    let lrange : (j k : ℕ) → j < 0 + l → k < crypto_workers → InRange (mid_to_local j k) =
      λ j k p q. (omega arith, q) in
    let more2 = init_side-Extends memory mid_to_local l 0 workers.0 lrange in
    let ext2 = Extends-trans h workers.0 locals.0 ext1 more2 in
    let wans = init_side memory mid_to_wan v 0 locals.0 in
    let wrange : (j k : ℕ) → j < 0 + v → k < crypto_workers → InRange (mid_to_wan j k) =
      λ j k p q. (omega arith, q) in
    let more3 = init_side-Extends memory mid_to_wan v 0 locals.0 wrange in
    let ext3 = Extends-trans h locals.0 wans.0 ext2 more3 in
    elim (Bool-cases workers.1) [
      | inr fails ↦ rw fails (ext1, inl refl)
      | inl ok1 ↦ elim (Bool-cases locals.1) [
        | inr fails ↦ rw (ok1, fails) (ext2, inl refl)
        | inl ok2 ↦ elim (Bool-cases wans.1) [
          | inr fails ↦ rw (ok1, ok2, fails) (ext3, inl refl)
          | inl ok3 ↦
              rw (ok1, ok2, ok3)
                (ext3, inr (refl, all_made memory lan wan h lrange wrange more2 more3 ok1 ok2 ok3))
        ]
      ]
    ]

-- The tests of forwarder_init, in their order.
steps :
    (P : Held × Bool → Type 0) (b1 b2 b3 b4 b5 : Bool) (r1 r2 r3 r4 r5 r6 : Held × Bool)
    → P r1
    → P r2
    → P r3
    → P r4
    → (b5 ≡ true → P r5)
    → P r6
    → P (
        if b1
        then r1
        else if b2
        then r2
        else if not b3
        then r3
        else if b4
        then r4
        else if b5
        then r5
        else r6)
steps P true b2 b3 b4 b5 r1 r2 r3 r4 r5 r6 p1 p2 p3 p4 p5 p6 = p1
steps P false true b3 b4 b5 r1 r2 r3 r4 r5 r6 p1 p2 p3 p4 p5 p6 = p2
steps P false false false b4 b5 r1 r2 r3 r4 r5 r6 p1 p2 p3 p4 p5 p6 = p3
steps P false false true true b5 r1 r2 r3 r4 r5 r6 p1 p2 p3 p4 p5 p6 = p4
steps P false false true false true r1 r2 r3 r4 r5 r6 p1 p2 p3 p4 p5 p6 = p5 refl
steps P false false true false false r1 r2 r3 r4 r5 r6 p1 p2 p3 p4 p5 p6 = p6

-- When it is called with nothing open, forwarder_init fails with nothing open: no interface, and no
-- ring with a buffer, whichever of its calls fails, or whenever a stop is seen. If it succeeds, the
-- interfaces are open and so are all rings that the threads use, and the program runs.
pub forwarder_init_lem :
    (a : Answers) (lan wan : ℕ) (h : Held)
    → IsClosed h
    → let (r, ok) = forwarder_init a lan wan h in
      ((ok ≡ false) × IsClosed r) ⊎ ((ok ≡ true) × IsOpen lan wan r)
unfolding forwarder_init
forwarder_init_lem a lan wan h closed =
    let cleared : Held = record {
      idle = idle_init a.busy a.made h.idle;
      pair_open = false;
      rings = λ id. false;
      running = h.running;
    } in
    let opened : Held = record cleared { pair_open = true } in
    let (ext, result) = init_rings_lem a.memory lan wan opened in
    let nothing_yet : Within opened = λ x e. absurd (not_both false e refl) in
    let r = init_rings a.memory (min lan max_interfaces) (min wan max_interfaces) opened in
    let done : r.1 ≡ true → IsOpen lan wan (record r.0 { running = true }) = λ ok. record {
      pair = ext.pair;
      runs = refl;
      rings = elim result [ inl fails ↦ absurd (not_both r.1 ok fails) | inr (good, all) ↦ all ];
    } in
    let shut : Held = record cleared { idle = idle_shutdown cleared.idle } in
    steps (λ p. ((p.1 ≡ false) × IsClosed p.0) ⊎ ((p.1 ≡ true) × IsOpen lan wan p.0))
      (lan == 0 || a.stop_first) (a.stop_second || not a.crypto_ok) a.pair_ok
      (not a.attach_ok || a.stop_third) r.1 (h, false) (cleared, false) (shut, false)
      (forwarder_cleanup opened, false) (record r.0 { running = true }, true)
      (forwarder_cleanup r.0, false) (inl (refl, closed))
      (inl (refl, record { pair = refl; rings = λ x. refl }))
      (inl (refl, record { pair = refl; rings = λ x. refl }))
      (inl (refl, cleanup-IsClosed opened nothing_yet)) (λ ok. inr (refl, done ok))
      (inl (refl, cleanup-IsClosed r.0 (ext.within nothing_yet)))
