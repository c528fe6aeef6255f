-- ===== src/Rx.antt =====
-- The receive path of xdp_interface.c: recv_queue, release_rx_queue, ne_recv_local_slot and
-- ne_recv_wan_slot for one queue, and the maps from queues to slots (ne_rx_slots_for_queues,
-- xsk_queue_for_rx_slot, xsk_queue_for_tx_slot). The descriptors that libxdp's ring shows to a call
-- are its list argument.
pub mod Chain
pub mod Slots
pub mod Recv
use ne.Base.{
  zero, suc, ℕ, ◌+◌, ◌-◌, ◌%◌, Bool, true, false, not, ◌&&◌, ◌||◌, List, [], ◌∷◌, ◌++◌, ltb, leb,
  ◌==◌, if◌then◌else◌, u8, u16, u32, u64, length,
}
use ne.Packet.{Packet, Pool, no_packet, at, max_segs, jumbo_frame_max, pool_push, load_all}

-- struct xdp_desc, with XDP_PKT_CONTD of its options
pub record Desc : Type 0 where
  pub addr : ℕ
  pub len : ℕ
  pub continued : Bool

-- The receive side of struct ne_xsk_queue. The array of rejected addresses and its count are a
-- list.
pub record Queue : Type 0 where
  pub rx_pending : ℕ
  pub rejected : List ℕ
  pub chain : Packet
  pub chain_invalid : Bool
  pub chain_dropped : ℕ

-- NE_BATCH_SIZE + NE_PACKET_MAX_SEGS
abbrev pub reject_max : ℕ
reject_max = 68

unfoldable pub reject : Queue → ℕ → Queue
reject q addr =
    if ltb (length q.rejected) reject_max
    then record q { rejected = q.rejected ++ (addr ∷ []) }
    else q

-- A descriptor is added to the chain, or it makes the chain invalid and is rejected.
unfoldable pub take_desc : Queue → Desc → Queue
unfolding reject
take_desc q d =
    let c = q.chain in
    let bad : Queue = record q { chain_invalid = true } in
    let longer : Packet = record c {
      seg_addr = at c.seg_addr c.nsegs d.addr;
      seg_len = at c.seg_len c.nsegs (u16 d.len);
      seg_cap = at c.seg_cap c.nsegs (u16 d.len);
      len = u32 (c.len + d.len);
      nsegs = u8 (c.nsegs + 1);
    } in
    if q.chain_invalid
      || leb max_segs c.nsegs
      || ltb jumbo_frame_max d.len
      || ltb (jumbo_frame_max - d.len) c.len
    then reject bad d.addr
    else record q { chain = longer }

-- The segments of a chain are rejected one after the other.
unfoldable pub reject_chain : ℕ → ℕ → Queue → Queue
unfolding reject
reject_chain zero i q = q
reject_chain (suc left) i q = reject_chain left (i + 1) (reject q (q.chain.seg_addr i))

-- Where a packet comes from: its direction and the indices of its interface.
pub record Origin : Type 0 where
  pub dir : ℕ
  pub wan_idx : ℕ
  pub local_idx : ℕ

-- The end of a packet: the chain goes to `out`, the packets so far, or is dropped.
unfoldable pub end_chain : Origin → ℕ → Queue → List Packet → Queue × List Packet
unfolding reject_chain
end_chain origin max q out =
    let c = q.chain in
    let cleared : Queue = record q { chain = no_packet } in
    let rejected = reject_chain c.nsegs 0 q in
    let dropped : Queue = record rejected {
      chain_dropped = u64 (q.chain_dropped + 1);
      chain = no_packet;
      chain_invalid = false;
    } in
    let done : Packet = record c {
      dir = origin.dir;
      wan_idx = origin.wan_idx;
      local_idx = origin.local_idx;
      tx_slot = 0;
    } in
    if q.chain_invalid || c.nsegs == 0 || leb max (length out)
    then (dropped, out)
    else (cleared, out ++ (done ∷ []))

-- One round of the loop, and the loop.
unfoldable pub recv_desc : Origin → ℕ → Queue → List Packet → Desc → Queue × List Packet
unfolding take_desc end_chain
recv_desc origin max q out d =
    let q' = take_desc q d in if d.continued then (q', out) else end_chain origin max q' out

unfoldable pub recv_loop : Origin → ℕ → Queue → List Packet → List Desc → Queue × List Packet
unfolding recv_desc
recv_loop origin max q out [] = (q, out)
recv_loop origin max q out (d ∷ ds) =
    let (q', out') = recv_desc origin max q out d in recv_loop origin max q' out' ds

-- recv_queue
unfoldable pub recv_queue : Origin → ℕ → Queue → List Desc → Queue × List Packet
unfolding recv_loop
recv_queue origin max q ds =
    let (q', out) = recv_loop origin max q [] ds in (record q' { rx_pending = length ds }, out)

-- release_rx_queue, with the number of descriptors given back to the ring
unfoldable pub release_rx_queue : Queue → Pool → Queue × Pool × ℕ
unfolding pool_push
release_rx_queue q pool =
    let pool' = (pool_push pool q.rejected).0 in
    (
      record q { rx_pending = 0; rejected = [] },
      if length q.rejected == 0 then pool else pool',
      q.rx_pending,
    )

-- ne_rx_slots_for_queues; a negative total is 0.
unfoldable pub rx_slots_for_queues : ℕ → ℕ → ℕ
rx_slots_for_queues queue_total slots_max =
    if queue_total == 0 then 1 else if ltb queue_total slots_max then queue_total else slots_max

-- xsk_queue_for_rx_slot, and xsk_queue_for_tx_slot with the four TX slots
unfoldable pub queue_for_rx_slot : ℕ → ℕ → ℕ → ℕ → Bool
queue_for_rx_slot q rx_slot nq rx_slots =
    let slots = if ltb nq rx_slots then (if ltb 0 nq then nq else 1) else rx_slots in
    if leb slots rx_slot then false else q % slots == rx_slot

unfoldable pub queue_for_tx_slot : ℕ → ℕ → ℕ → Bool
queue_for_tx_slot q tx_slot nq =
    let slots = if ltb nq 4 then (if ltb 0 nq then nq else 1) else 4 in
    if leb slots tx_slot then false else q % slots == tx_slot
