-- ===== src/Rx/Recv/Bounded.antt =====
-- The batch of a receive thread, and the packets in it.
use ne.Rx.Recv.{Port, Batch, recv_one, recv_queues, recv_ifaces, recv_slot}
use ne.Rx.Chain.{IsChain, AllReceived, recv_queue-Received}
use ne.Base.{
  take, length-append, ℕ, zero, suc, ◌+◌, ◌-◌, ◌≤◌, ◌<◌, inl, inr, Bool, true, false, ◌&&◌, ◌||◌,
  List, [], ◌∷◌, ◌++◌, arith, leb, ◌==◌, if◌then◌else◌, Bool-cases, length,
}
use ne.Packet.{Packet}
use ne.Rx.{
  Queue, Desc, Origin, recv_queue, queue_for_rx_slot, end_chain, recv_loop, recv_desc, take_desc,
}

end_chain-few :
    (origin : Origin) (max : ℕ) (q : Queue) (out : List Packet)
    → length out ≤ max
    → length (end_chain origin max q out).1 ≤ max
unfolding end_chain
end_chain-few origin max q out h =
    elim (Bool-cases (q.chain_invalid || q.chain.nsegs == 0 || leb max (length out))) [
      | inl bad ↦ rw bad h
      | inr good ↦
          let room : length out < max = ground (arith, good) in
          rw good (
            omega (
              arith,
              length-append out (
                  (record q.chain {
                    dir = origin.dir;
                    wan_idx = origin.wan_idx;
                    local_idx = origin.local_idx;
                    tx_slot = 0;
                  })
                  ∷ []),
              room,
            ))
    ]

recv_loop-few :
    (origin : Origin) (max : ℕ) (q : Queue) (out : List Packet) (ds : List Desc)
    → length out ≤ max
    → length (recv_loop origin max q out ds).1 ≤ max
unfolding recv_loop recv_desc
recv_loop-few origin max q out [] h = h
recv_loop-few origin max q out (d ∷ ds) h = elim (Bool-cases d.continued) [
  | inl more ↦ rw more (recv_loop-few origin max (take_desc q d) out ds h)
  | inr last ↦
      let t = end_chain origin max (take_desc q d) out in
      rw last (recv_loop-few origin max t.0 t.1 ds (end_chain-few origin max (take_desc q d) out h))
]

recv_queue-few :
    (origin : Origin) (max : ℕ) (q : Queue) (ds : List Desc)
    → length (recv_queue origin max q ds).1 ≤ max
unfolding recv_queue
recv_queue-few origin max q ds = recv_loop-few origin max q [] ds (omega arith)

append-AllReceived :
    (ps qs : List Packet) → AllReceived ps → AllReceived qs → AllReceived (ps ++ qs)
append-AllReceived [] qs h k = k
append-AllReceived (p ∷ ps) qs h k = (h.0, append-AllReceived ps qs h.1 k)

-- Every queue keeps the start of a packet.
abbrev pub KeepsChains : Port → Type 0
KeepsChains port = (i q : ℕ) → IsChain (port.queues i q).chain

-- A batch with at most `max` packets, all well formed.
pub record IsBatch (max : ℕ) (b : Batch) : Type 0 where
  pub few : length b.out ≤ max
  pub received : AllReceived b.out
  pub chains : KeepsChains b.port

recv_one-IsBatch :
    (origin : Origin) (max i q : ℕ) (b : Batch)
    → IsBatch max b
    → IsBatch max (recv_one origin max i q b)
unfolding recv_one
recv_one-IsBatch origin max i q b h =
    let room = max - length b.out in
    let cleared : Queue = record (b.port.queues i q) { rx_pending = 0 } in
    let ds = take room (b.port.shown i q) in
    let t = recv_queue origin room cleared ds in
    let (chain, received) = recv_queue-Received origin room cleared ds (h.chains i q) in
    record {
      few = omega (arith, length-append b.out t.1, recv_queue-few origin room cleared ds, h.few);
      received = append-AllReceived b.out t.1 h.received received;
      chains = λ a c. elim (Bool-cases (a == i && c == q)) [
        | inl here ↦ rw here chain
        | inr there ↦ rw there (h.chains a c)
      ];
    }

-- A conditional keeps what both of its branches have.
if-IsBatch :
    (max : ℕ) (c : Bool) (b b' : Batch)
    → IsBatch max b
    → IsBatch max b'
    → IsBatch max (if c then b else b')
if-IsBatch max true b b' h k = h
if-IsBatch max false b b' h k = k

recv_queues-IsBatch :
    (origin : Origin) (max rx_slot slots i left q : ℕ) (b : Batch)
    → IsBatch max b
    → IsBatch max (recv_queues origin max rx_slot slots i left q b)
unfolding recv_queues
recv_queues-IsBatch origin max rx_slot slots i zero q b h = h
recv_queues-IsBatch origin max rx_slot slots i (suc left) q b h =
    let serves = queue_for_rx_slot q rx_slot (b.port.queue_count i) slots in
    let here = recv_one origin max i q b in
    let next = if serves then here else b in
    let h' = if-IsBatch max serves here b (recv_one-IsBatch origin max i q b h) h in
    if-IsBatch max (leb max (length b.out)) b
      (recv_queues origin max rx_slot slots i left (q + 1) next) h
      (recv_queues-IsBatch origin max rx_slot slots i left (q + 1) next h')

recv_ifaces-IsBatch :
    (origin : ℕ → Origin) (max rx_slot slots left i : ℕ) (b : Batch)
    → IsBatch max b
    → IsBatch max (recv_ifaces origin max rx_slot slots left i b)
unfolding recv_ifaces
recv_ifaces-IsBatch origin max rx_slot slots zero i b h = h
recv_ifaces-IsBatch origin max rx_slot slots (suc left) i b h =
    let here = recv_queues (origin i) max rx_slot slots i (b.port.queue_count i) 0 b in
    let next = if b.port.live i then here else b in
    let h' =
      if-IsBatch max (b.port.live i) here b
        (recv_queues-IsBatch (origin i) max rx_slot slots i (b.port.queue_count i) 0 b h) h in
    if-IsBatch max (leb max (length b.out)) b
      (recv_ifaces origin max rx_slot slots left (i + 1) next) h
      (recv_ifaces-IsBatch origin max rx_slot slots left (i + 1) next h')

-- Whatever the rings of the card show, when every queue of a side keeps the start of a packet, a
-- receive call of a slot gives at most `max` packets, each of one to four segments whose lengths
-- add up to its length of at most 9216 bytes, and leaves such queues.
pub recv_slot-IsBatch :
    (origin : ℕ → Origin) (max rx_slot slots : ℕ) (port : Port)
    → KeepsChains port
    → IsBatch max (recv_slot origin max rx_slot slots port)
unfolding recv_slot
recv_slot-IsBatch origin max rx_slot slots port h =
    let start : Batch = record { port = port; out = [] } in
    let h0 : IsBatch max start = record { few = omega arith; received = tt; chains = h } in
    if-IsBatch max (leb slots rx_slot) start
      (recv_ifaces origin max rx_slot slots port.count 0 start) h0
      (recv_ifaces-IsBatch origin max rx_slot slots port.count 0 start h0)
