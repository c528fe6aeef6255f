-- ===== src/Forwarder/Hub.antt =====
-- What a receive thread does with a batch, and a round of a crypto worker: local_rx_thread,
-- wan_rx_thread and crypto_worker_thread of src/core/forwarder/forwarder.c, with
-- dataplane_wan_needs_mid. dataplane_local_needs_mid always answers 1, so that the direct branch of
-- local_rx_thread is never taken.
use ne.Forwarder.{crypto_workers}
use ne.L2.Reassembly.{frag_gc}
use ne.Crypto.{Scrypt}
use ne.Idle.{idle_wake}
use ne.Route.Assign.{pick_local_worker, pick_tx_slot, pick_wan_worker}
use ne.Dataplane.Ingress.{process_wan}
use ne.Dataplane.Egress.{process_local}
use ne.Dataplane.{Forwarder, Env, free_packet}
use ne.Packet.{Packet}
use ne.Ring.{Ring, ring_push, ring_pop, store}
use ne.Base.{
  ℕ, ◌+◌, Bool, true, false, ◌||◌, Option, none, some, List, [], ◌∷◌, ltb, leb, if◌then◌else◌, u8,
  u32, Mem,
}
use ne.Idle
use ne.Eth
use ne.Route

-- The forwarder with the rings that lead to the workers. The thread-locals in it are those of the
-- thread that runs; a receive thread is not bound to a worker.
pub record Hub : Type 0 where
  pub fwd : Forwarder
  pub local_to_mid : ℕ → Ring Packet
  pub wan_to_mid : ℕ → Ring Packet
  pub idle : Idle.State

-- ne_packet_data: the memory from the first frame on.
abbrev pub packet_data : Forwarder → Packet → Mem
packet_data fwd pkt i = fwd.mem (pkt.seg_addr 0 + i)

-- A packet for worker `w` of a side: the ring with it, and the worker woken, or its frames freed.
unfoldable pub placed :
    Hub → (ℕ → Ring Packet) → ℕ → Packet → Option (Ring Packet) → Hub × (ℕ → Ring Packet)
placed hub rings w job none = (record hub { fwd = free_packet hub.fwd job }, rings)
placed hub rings w job (some ring) =
    (record hub { idle = idle_wake hub.idle w }, store rings w ring)

unfoldable pub to_worker : Hub → (ℕ → Ring Packet) → ℕ → Packet → Hub × (ℕ → Ring Packet)
to_worker hub rings w job = placed hub rings w job (ring_push (rings w) job)

-- The body of the loop of local_rx_thread
unfoldable pub dispatch_local : Hub → Packet → Hub
dispatch_local hub pkt =
    let (route', way) = pick_local_worker hub.fwd.route (packet_data hub.fwd pkt) pkt.len in
    let routed : Forwarder = record hub.fwd { route = route' } in
    let job : Packet = record pkt { tx_slot = u8 way.tx_slot } in
    let (hub', rings') =
      to_worker (record hub { fwd = routed }) hub.local_to_mid way.worker_idx job in
    record hub' { local_to_mid = rings' }

unfoldable pub dispatch_all : Hub → List Packet → Hub
dispatch_all hub [] = hub
dispatch_all hub (pkt ∷ pkts) = dispatch_all (dispatch_local hub pkt) pkts

module _ {Ctx : Type 0} (S : Scrypt Ctx) (env : Env) (buf aux : Mem) where
  -- The body of the loop of wan_rx_thread
  unfoldable pub dispatch_wan : Hub → Packet → Hub
  dispatch_wan hub pkt =
      let bytes = packet_data hub.fwd pkt in
      let freed : Hub = record hub { fwd = free_packet hub.fwd pkt } in
      let slot = pick_tx_slot hub.fwd.route bytes pkt.len in
      let bound : Forwarder = record hub.fwd {
        route = Route.out_ring_bind hub.fwd.route (some slot);
      } in
      let direct : Hub = record hub { fwd = process_wan S env bound pkt buf aux } in
      let passed_on : ℕ → Hub = λ w.
        (let (hub', rings') = to_worker hub hub.wan_to_mid w pkt in
          record hub' { wan_to_mid = rings' }) in
      if Eth.has_marker bytes pkt.len
      then elim (pick_wan_worker bytes pkt.len) [
        | none ↦ freed
        | some w ↦ if leb crypto_workers w then freed else passed_on w
      ]
      else direct

  -- The two halves of a round of crypto_worker_thread, and whether they had work.
  unfoldable pub take_wan : ℕ → Hub → Hub × Bool
  take_wan w hub = elim (ring_pop (hub.wan_to_mid w)) [
    | none ↦ (hub, false)
    | some (ring, job) ↦ (
      record hub {
        fwd = process_wan S env hub.fwd job buf aux;
        wan_to_mid = store hub.wan_to_mid w ring;
      },
      true,
    )
  ]

  unfoldable pub take_local : ℕ → Hub → Hub × Bool
  take_local w hub = elim (ring_pop (hub.local_to_mid w)) [
    | none ↦ (hub, false)
    | some (ring, job) ↦
        let bound : Forwarder = record hub.fwd {
          route = Route.out_ring_bind hub.fwd.route (some job.tx_slot);
        } in
        (
          record hub {
            fwd = process_local S env bound job buf aux;
            local_to_mid = store hub.local_to_mid w ring;
          },
          true,
        )
  ]

  -- The collector runs every 2048 rounds.
  unfoldable pub gc_round : ℕ → ℕ → Hub → Hub × ℕ
  gc_round w tick hub =
      let swept : Hub = record hub {
        fwd = record hub.fwd { tables = frag_gc hub.fwd.tables w env.now };
      } in
      if ltb (u32 (tick + 1)) 2048 then (hub, u32 (tick + 1)) else (swept, 0)

  -- A round, up to the idling: the state, the tick, and whether there was work.
  unfoldable pub crypto_round : ℕ → ℕ → Hub → Hub × ℕ × Bool
  crypto_round w tick hub =
      let (a, from_wan) = take_wan w hub in
      let (b, from_local) = take_local w a in
      let (c, tick') = gc_round w tick b in (c, tick', from_wan || from_local)
