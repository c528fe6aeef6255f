-- ===== src/Rx/Recv.antt =====
-- ne_recv_local_slot, ne_recv_wan_slot and the releases of xdp_interface.c: the loops over the live
-- interfaces of a side and their queues. A peek at a queue shows at most the packets that the call
-- still has room for, and takes them off what later peeks see.
pub mod Bounded
use ne.Base.{
  take, drop, ℕ, zero, suc, ◌+◌, ◌-◌, ◌*◌, ◌/◌, ◌%◌, ◌^◌, ◌≤◌, ◌<◌, min, bit_and, bit_or, bit_xor,
  ◌≡◌, refl, sym, ap, ap₂, ◌∙◌, ◌≢◌, ◌↔◌, ◌⊎◌, inl, inr, Bool, true, false, not, ◌&&◌, ◌||◌, Option,
  none, some, List, [], ◌∷◌, ◌++◌, arith, ltb, leb, ◌==◌, if◌then◌else◌, ==_iff, Bool-cases,
  Option-cases, length, u8, u16, u32, u64, sub32, sub64, shr, low_bits, be16, be32, Mem, IsBytes,
  inside, poke, copy, put, slice, Agree,
}
use ne.Packet.{Packet, Pool}
use ne.Rx.{Queue, Desc, Origin, recv_queue, queue_for_rx_slot, release_rx_queue}

-- The receive side of the interfaces of one side; `shown` is what libxdp's ring of a queue holds.
pub record Port : Type 0 where
  pub count : ℕ
  pub live : ℕ → Bool
  pub queue_count : ℕ → ℕ
  pub queues : ℕ → ℕ → Queue
  pub shown : ℕ → ℕ → List Desc

abbrev pub put_at {ℓ} : {A : Type ℓ} → (ℕ → ℕ → A) → ℕ → ℕ → A → (ℕ → ℕ → A)
put_at f i q x a b = if a == i && b == q then x else f a b

-- The packets of a slot so far, with the side.
pub record Batch : Type 0 where
  pub port : Port
  pub out : List Packet

-- One queue of the interface `i`: rx_pending is cleared, and recv_queue adds its packets.
unfoldable pub recv_one : Origin → ℕ → ℕ → ℕ → Batch → Batch
recv_one origin max i q b =
    let room = max - length b.out in
    let shown = b.port.shown i q in
    let cleared : Queue = record (b.port.queues i q) { rx_pending = 0 } in
    let (queue', packets) = recv_queue origin room cleared (take room shown) in
    record {
      port = record b.port {
        queues = put_at b.port.queues i q queue';
        shown = put_at b.port.shown i q (drop room shown);
      };
      out = b.out ++ packets;
    }

-- The loop over the queues, and the loop over the interfaces; `origin` says what the packets of an
-- interface are marked with.
unfoldable pub recv_queues : Origin → ℕ → ℕ → ℕ → ℕ → ℕ → ℕ → Batch → Batch
recv_queues origin max rx_slot slots i zero q b = b
recv_queues origin max rx_slot slots i (suc left) q b =
    let here = recv_one origin max i q b in
    let next = if queue_for_rx_slot q rx_slot (b.port.queue_count i) slots then here else b in
    let rest = recv_queues origin max rx_slot slots i left (q + 1) next in
    if leb max (length b.out) then b else rest

unfoldable pub recv_ifaces : (ℕ → Origin) → ℕ → ℕ → ℕ → ℕ → ℕ → Batch → Batch
recv_ifaces origin max rx_slot slots zero i b = b
recv_ifaces origin max rx_slot slots (suc left) i b =
    let here = recv_queues (origin i) max rx_slot slots i (b.port.queue_count i) 0 b in
    let next = if b.port.live i then here else b in
    let rest = recv_ifaces origin max rx_slot slots left (i + 1) next in
    if leb max (length b.out) then b else rest

-- ne_recv_local_slot and ne_recv_wan_slot
unfoldable pub recv_slot : (ℕ → Origin) → ℕ → ℕ → ℕ → Port → Batch
recv_slot origin max rx_slot slots port =
    let start : Batch = record { port = port; out = [] } in
    let batch = recv_ifaces origin max rx_slot slots port.count 0 start in
    if leb slots rx_slot then start else batch

abbrev pub local_origin : ℕ → Origin
local_origin i = record { dir = 0; wan_idx = 0; local_idx = u8 i }

abbrev pub wan_origin : ℕ → Origin
wan_origin i = record { dir = 1; wan_idx = u8 i; local_idx = 0 }

-- ne_recv_release_local_slot and ne_recv_release_wan_slot, with the number of descriptors released
pub record Releasing : Type 0 where
  pub port : Port
  pub pool : Pool
  pub released : ℕ

unfoldable pub release_one : ℕ → ℕ → Releasing → Releasing
release_one i q r =
    let (queue', pool', n) = release_rx_queue (r.port.queues i q) r.pool in
    record {
      port = record r.port { queues = put_at r.port.queues i q queue' };
      pool = pool';
      released = r.released + n;
    }

unfoldable pub release_queues : ℕ → ℕ → ℕ → ℕ → ℕ → Releasing → Releasing
release_queues rx_slot slots i zero q r = r
release_queues rx_slot slots i (suc left) q r =
    let here = release_one i q r in
    release_queues rx_slot slots i left (q + 1)
      (if queue_for_rx_slot q rx_slot (r.port.queue_count i) slots then here else r)

unfoldable pub release_ifaces : ℕ → ℕ → ℕ → ℕ → Releasing → Releasing
release_ifaces rx_slot slots zero i r = r
release_ifaces rx_slot slots (suc left) i r =
    release_ifaces rx_slot slots left (i + 1)
      (release_queues rx_slot slots i (r.port.queue_count i) 0 r)

unfoldable pub release_slot : ℕ → ℕ → Port → Pool → Releasing
release_slot rx_slot slots port pool =
    let start : Releasing = record { port = port; pool = pool; released = 0 } in
    let all = release_ifaces rx_slot slots port.count 0 start in
    if leb slots rx_slot then start else all
