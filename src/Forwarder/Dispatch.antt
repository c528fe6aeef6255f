-- ===== src/Forwarder/Dispatch.antt =====
-- The packets of a flow, from a receive thread to the ring of a worker.
use mathlib.Core.Path.{subst}
use ne.Base.{
  length-append, ℕ, ◌+◌, ◌^◌, ◌<◌, ◌≡◌, sym, ap, ap₂, ◌∙◌, none, some, [], ◌∷◌, ◌++◌, arith, length,
  u8, Mem,
}
use mathlib.Core.List.{append_assoc}
use ne.Forwarder.Hub.{Hub, packet_data, dispatch_local, dispatch_all, to_worker, placed}
use ne.Flow.{RouteKey, key_parse}
use ne.Route.Sticky.{get_key-again}
use ne.Route.{State, FlowRoute}
use ne.Route.Assign.{pick_local_worker, flow_route_get, get_key}
use ne.Dataplane.{Forwarder}
use ne.Packet.{Packet}
use ne.Ring.Fifo.{IsRing, contents}
use ne.Ring.Next.{ring_push-next}
use ne.Ring.{Ring, store}

-- Where a LAN packet goes.
abbrev pub way_of : Hub → Packet → FlowRoute
way_of hub pkt = (pick_local_worker hub.fwd.route (packet_data hub.fwd pkt) pkt.len).1

-- A packet with the transmit slot of its way.
abbrev pub routed : FlowRoute → Packet → Packet
routed way pkt = record pkt { tx_slot = u8 way.tx_slot }

pick_known :
    (st : State) (key : RouteKey) (m : Mem) (l : ℕ)
    → key_parse m l ≡ some key
    → pick_local_worker st m l ≡ get_key st key none
unfolding pick_local_worker flow_route_get
pick_known st key m l e = ground (arith, e)

-- A packet of a flow gets the way that the packet before it got.
pick_local_worker-again :
    (st : State) (key : RouteKey) (m1 m2 : Mem) (l1 l2 : ℕ)
    → key_parse m1 l1 ≡ some key
    → key_parse m2 l2 ≡ some key
    → pick_local_worker (pick_local_worker st m1 l1).0 m2 l2 ≡ pick_local_worker st m1 l1
pick_local_worker-again st key m1 m2 l1 l2 e1 e2 =
    let a = pick_known st key m1 l1 e1 in
    ap (λ (p : State × FlowRoute). pick_local_worker p.0 m2 l2) a
    ∙ pick_known (get_key st key none).0 key m2 l2 e2
    ∙ get_key-again st key none none
    ∙ sym a

module _ (k : ℕ) (hub : Hub) (pkt : Packet) where
  -- With room in the worker's ring the packet is put in, and the frames stay as they are.
  record Accepted : Type 0 where
    ring : Ring Packet
    put :
        (dispatch_local hub pkt).local_to_mid
        ≡ store hub.local_to_mid (way_of hub pkt).worker_idx ring
    holds :
        contents k ring
        ≡ contents k (hub.local_to_mid (way_of hub pkt).worker_idx)
          ++ (routed (way_of hub pkt) pkt ∷ [])
    valid : IsRing k ring
    mem : (dispatch_local hub pkt).fwd.mem ≡ hub.fwd.mem
    route :
        (dispatch_local hub pkt).fwd.route
        ≡ (pick_local_worker hub.fwd.route (packet_data hub.fwd pkt) pkt.len).0

  dispatch_local-Accepted :
      IsRing k (hub.local_to_mid (way_of hub pkt).worker_idx)
      → length (contents k (hub.local_to_mid (way_of hub pkt).worker_idx)) < 2 ^ k
      → Accepted
  unfolding dispatch_local to_worker placed
  dispatch_local-Accepted h free =
      let way = way_of hub pkt in
      let (ring, e, f, h') =
        ring_push-next k (hub.local_to_mid way.worker_idx) h (routed way pkt) free in
      let fwd' : Forwarder = record hub.fwd {
        route = (pick_local_worker hub.fwd.route (packet_data hub.fwd pkt) pkt.len).0;
      } in
      let hub' : Hub = record hub { fwd = fwd' } in
      let t = ap (placed hub' hub.local_to_mid way.worker_idx (routed way pkt)) e in
      record {
        ring = ring;
        put = ap (λ (p : Hub × (ℕ → Ring Packet)). p.1) t;
        holds = f;
        valid = h';
        mem = ap (λ (p : Hub × (ℕ → Ring Packet)). p.0.fwd.mem) t;
        route = ap (λ (p : Hub × (ℕ → Ring Packet)). p.0.fwd.route) t;
      }

-- What a worker's ring holds behind an accepted packet.
ring_after :
    (k : ℕ) (hub : Hub) (pkt : Packet) (a : Accepted k hub pkt)
    → (dispatch_local hub pkt).local_to_mid (way_of hub pkt).worker_idx ≡ a.ring
ring_after k hub pkt a =
    let w = (way_of hub pkt).worker_idx in
    let here : store hub.local_to_mid w a.ring w ≡ a.ring = ground arith in
    ap (λ f. f w) a.put ∙ here

-- Two packets of one flow from the LAN, in whatever direction it was first seen, go to one worker:
-- when its ring has room for two, both are in it, in their order, behind what it held, and both have
-- the transmit slot of the flow.
pub dispatch_local-in_order :
    (k : ℕ) (hub : Hub) (key : RouteKey) (p1 p2 : Packet)
    → key_parse (packet_data hub.fwd p1) p1.len ≡ some key
    → key_parse (packet_data hub.fwd p2) p2.len ≡ some key
    → IsRing k (hub.local_to_mid (way_of hub p1).worker_idx)
    → length (contents k (hub.local_to_mid (way_of hub p1).worker_idx)) + 1 < 2 ^ k
    → let way = way_of hub p1 in
      contents k ((dispatch_all hub (p1 ∷ p2 ∷ [])).local_to_mid way.worker_idx)
      ≡ contents k (hub.local_to_mid way.worker_idx) ++ (routed way p1 ∷ routed way p2 ∷ [])
unfolding dispatch_all
dispatch_local-in_order k hub key p1 p2 e1 e2 h free =
    let way = way_of hub p1 in
    let w = way.worker_idx in
    let a = dispatch_local-Accepted k hub p1 h (omega (arith, free)) in
    let hub1 = dispatch_local hub p1 in
    let again =
      pick_local_worker-again hub.fwd.route key (packet_data hub.fwd p1) (packet_data hub.fwd p2)
        p1.len p2.len e1 e2 in
    let same : way_of hub1 p2 ≡ way =
      ap₂ (λ r (m : Mem). (pick_local_worker r (λ i. m (p2.seg_addr 0 + i)) p2.len).1) a.route a.mem
      ∙ ap (λ (p : State × FlowRoute). p.1) again in
    let at_ring : hub1.local_to_mid (way_of hub1 p2).worker_idx ≡ a.ring =
      ap (λ (v : FlowRoute). hub1.local_to_mid v.worker_idx) same ∙ ring_after k hub p1 a in
    let long =
      ap length a.holds ∙ length-append (contents k (hub.local_to_mid w)) (routed way p1 ∷ []) in
    let b =
      dispatch_local-Accepted k hub1 p2 (subst (λ r. IsRing k r) (sym at_ring) a.valid)
        (omega (arith, long, free, ap (λ r. length (contents k r)) at_ring)) in
    let hub2 = dispatch_local hub1 p2 in
    ap (λ (v : FlowRoute). contents k (hub2.local_to_mid v.worker_idx)) (sym same)
    ∙ ap (λ r. contents k r) (ring_after k hub1 p2 b)
    ∙ b.holds
    ∙ ap₂ (λ r (v : FlowRoute). contents k r ++ (routed v p2 ∷ [])) at_ring same
    ∙ ap (λ l. l ++ (routed way p2 ∷ [])) a.holds
    ∙ append_assoc (contents k (hub.local_to_mid w)) (routed way p1 ∷ []) (routed way p2 ∷ [])
