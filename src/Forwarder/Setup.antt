-- ===== src/Forwarder/Setup.antt =====
-- forwarder_init and forwarder_cleanup of src/core/forwarder/forwarder.c: what is open, and which
-- rings have their buffer. What the calls answer that open interfaces, attach programs and allocate
-- is a parameter, as are the times at which a stop is seen. The interfaces' names are left out.
use ne.Forwarder.{crypto_workers}
use ne.Idle.{State, idle_init, idle_shutdown}
use ne.Base.{ℕ, zero, suc, ◌+◌, min, Bool, true, false, not, ◌&&◌, ◌||◌, ◌==◌, if◌then◌else◌}

-- The rings of `struct forwarder`.
pub data RingId : Type 0 where
  local_to_mid : ℕ → RingId
  wan_to_mid : ℕ → RingId
  mid_to_local : ℕ → ℕ → RingId
  mid_to_wan : ℕ → ℕ → RingId

abbrev pub same_ring : RingId → RingId → Bool
same_ring (local_to_mid w) (local_to_mid v) = w == v
same_ring (wan_to_mid w) (wan_to_mid v) = w == v
same_ring (mid_to_local i w) (mid_to_local j v) = i == j && w == v
same_ring (mid_to_wan i w) (mid_to_wan j v) = i == j && w == v
same_ring _ _ = false

-- What the process holds: descriptors, interfaces, and the rings' buffers; and the flag `running`.
pub record Held : Type 0 where
  pub idle : State
  pub pair_open : Bool
  pub rings : RingId → Bool
  pub running : Bool

abbrev pub hold : Held → RingId → Bool → Held
hold h id on = record h { rings = λ x. if same_ring id x then on else h.rings x }

-- Loops of ne_ring_init, until one fails; `memory` is whether it succeeds.
unfoldable pub init_workers : (RingId → Bool) → ℕ → ℕ → Held → Held × Bool
init_workers memory zero w h = (h, true)
init_workers memory (suc left) w h =
    let h1 = hold h (local_to_mid w) true in
    let h2 = hold h1 (wan_to_mid w) true in
    let rest = init_workers memory left (w + 1) h2 in
    if not (memory (local_to_mid w))
    then (h, false)
    else if not (memory (wan_to_mid w))
    then (h1, false)
    else rest

unfoldable pub init_row : (RingId → Bool) → (ℕ → RingId) → ℕ → ℕ → Held → Held × Bool
init_row memory ring zero w h = (h, true)
init_row memory ring (suc left) w h =
    let rest = init_row memory ring left (w + 1) (hold h (ring w) true) in
    if memory (ring w) then rest else (h, false)

unfoldable pub init_side : (RingId → Bool) → (ℕ → ℕ → RingId) → ℕ → ℕ → Held → Held × Bool
init_side memory ring zero i h = (h, true)
init_side memory ring (suc left) i h =
    let (h', ok) = init_row memory (ring i) crypto_workers 0 h in
    let rest = init_side memory ring left (i + 1) h' in if ok then rest else (h', false)

-- Loops of ne_ring_destroy.
unfoldable pub destroy_row : (ℕ → RingId) → ℕ → ℕ → Held → Held
destroy_row ring zero w h = h
destroy_row ring (suc left) w h = destroy_row ring left (w + 1) (hold h (ring w) false)

unfoldable pub destroy_side : (ℕ → ℕ → RingId) → ℕ → ℕ → Held → Held
destroy_side ring zero i h = h
destroy_side ring (suc left) i h =
    destroy_side ring left (i + 1) (destroy_row (ring i) crypto_workers 0 h)

unfoldable pub destroy_workers : ℕ → ℕ → Held → Held
destroy_workers zero w h = h
destroy_workers (suc left) w h =
    destroy_workers left (w + 1) (hold (hold h (local_to_mid w) false) (wan_to_mid w) false)

-- MAX_INTERFACES
abbrev pub max_interfaces : ℕ
max_interfaces = 16

unfoldable pub forwarder_cleanup : Held → Held
forwarder_cleanup h =
    let h1 = destroy_workers crypto_workers 0 h in
    let h2 = destroy_side mid_to_wan max_interfaces 0 h1 in
    let h3 = destroy_side mid_to_local max_interfaces 0 h2 in
    record h3 { pair_open = false; idle = idle_shutdown h3.idle }

-- What is answered to forwarder_init: whether a stop is seen at each of its three looks; the
-- environment and the event descriptors; and whether packet_crypto_init, ne_pair_open, xdp_attach_all
-- and each ne_ring_init succeed.
pub record Answers : Type 0 where
  pub stop_first : Bool
  pub stop_second : Bool
  pub stop_third : Bool
  pub busy : Bool
  pub made : ℕ → Bool
  pub crypto_ok : Bool
  pub pair_ok : Bool
  pub attach_ok : Bool
  pub memory : RingId → Bool

-- The loops that make the rings, from where the programs are attached.
unfoldable pub init_rings : (RingId → Bool) → ℕ → ℕ → Held → Held × Bool
init_rings memory local_count wan_count h =
    let (h1, workers) = init_workers memory crypto_workers 0 h in
    let (h2, locals) = init_side memory mid_to_local local_count 0 h1 in
    let (h3, wans) = init_side memory mid_to_wan wan_count 0 h2 in
    if not workers then (h1, false) else if not locals then (h2, false) else (h3, wans)

-- The counts are those of the configuration, a negative one is 0. The answer is whether it succeeds.
unfoldable pub forwarder_init : Answers → ℕ → ℕ → Held → Held × Bool
forwarder_init a local_count wan_count h =
    let cleared : Held = record {
      idle = idle_init a.busy a.made h.idle;
      pair_open = false;
      rings = λ id. false;
      running = h.running;
    } in
    let opened : Held = record cleared { pair_open = true } in
    let (h', ok) =
      init_rings a.memory (min local_count max_interfaces) (min wan_count max_interfaces) opened in
    if local_count == 0 || a.stop_first
    then (h, false)
    else if a.stop_second || not a.crypto_ok
    then (cleared, false)
    else if not a.pair_ok
    then (record cleared { idle = idle_shutdown cleared.idle }, false)
    else if not a.attach_ok || a.stop_third
    then (forwarder_cleanup opened, false)
    else if ok
    then (record h' { running = true }, true)
    else (forwarder_cleanup h', false)
