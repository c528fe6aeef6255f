-- ===== src/Rx/Chain.antt =====
-- The chain of a queue, and the packets that it becomes.
use ne.Base.{
  ℕ, zero, suc, ◌+◌, ◌-◌, ◌≤◌, ◌<◌, ◌≡◌, refl, ap, ap₂, ◌∙◌, inl, inr, Bool, true, false, ◌||◌,
  List, [], ◌∷◌, ◌++◌, arith, ltb, leb, ◌==◌, Bool-cases, length, u8, u16, u32,
}
use ne.Packet.{at, Packet, max_segs, jumbo_frame_max, no_packet}
use ne.Rx.{
  Desc, Queue, Origin, reject, take_desc, reject_chain, end_chain, recv_desc, recv_loop, recv_queue,
}

-- The lengths of the segments from `i` on, added up.
abbrev pub total : (ℕ → ℕ) → ℕ → ℕ → ℕ
total seg_len i zero = 0
total seg_len i (suc n) = seg_len i + total seg_len (i + 1) n

pub record IsChain (c : Packet) : Type 0 where
  pub few : c.nsegs ≤ max_segs
  pub short : c.len ≤ jumbo_frame_max
  pub adds_up : total c.seg_len 0 c.nsegs ≡ c.len

-- A packet that has been received: a chain that is not empty.
abbrev pub IsReceived : Packet → Type 0
IsReceived p = IsChain p × (0 < p.nsegs)

abbrev pub AllReceived : List Packet → Type 0
AllReceived [] = Unit {0}
AllReceived (p ∷ ps) = IsReceived p × AllReceived ps

total-at :
    (seg_len : ℕ → ℕ) (x i n k : ℕ) → i + n ≤ k → total (at seg_len k x) i n ≡ total seg_len i n
total-at seg_len x i zero k h = refl
total-at seg_len x i (suc n) k h = ground (arith, total-at seg_len x (i + 1) n k (omega arith))

total-snoc :
    (seg_len : ℕ → ℕ) (i n : ℕ) → total seg_len i (suc n) ≡ total seg_len i n + seg_len (i + n)
total-snoc seg_len i zero = ground arith
total-snoc seg_len i (suc n) =
    let e : i + 1 + n ≡ i + suc n = omega arith in
    omega (arith, total-snoc seg_len (i + 1) n, ap seg_len e)

pub chain-reject : (q : Queue) (a : ℕ) → (reject q a).chain ≡ q.chain
unfolding reject
chain-reject q a = ground arith

pub chain-reject_chain : (left i : ℕ) (q : Queue) → (reject_chain left i q).chain ≡ q.chain
unfolding reject_chain
chain-reject_chain zero i q = refl
chain-reject_chain (suc left) i q =
    chain-reject_chain left (i + 1) (reject q (q.chain.seg_addr i))
    ∙ chain-reject q (q.chain.seg_addr i)

-- A descriptor that is added leaves a chain.
longer-IsChain :
    (c longer : Packet) (d : Desc)
    → IsChain c
    → c.nsegs < max_segs
    → d.len ≤ jumbo_frame_max
    → c.len + d.len ≤ jumbo_frame_max
    → longer.nsegs ≡ c.nsegs + 1
    → longer.len ≡ c.len + d.len
    → longer.seg_len ≡ at c.seg_len c.nsegs d.len
    → IsChain longer
longer-IsChain c longer d h few short fits n l s =
    let m : longer.nsegs ≡ suc c.nsegs = omega arith in
    let sum = ap₂ (λ f k. total f 0 k) s m ∙ total-snoc (at c.seg_len c.nsegs d.len) 0 c.nsegs in
    let old = total-at c.seg_len d.len 0 c.nsegs c.nsegs (omega arith) in
    let new : at c.seg_len c.nsegs d.len (0 + c.nsegs) ≡ d.len = ground arith in
    record { few = omega arith; short = omega arith; adds_up = omega (arith, sum, old, new) }

pub accepted :
    (invalid : Bool) (nsegs len sum : ℕ)
    → (invalid || leb max_segs nsegs || ltb jumbo_frame_max len || ltb (jumbo_frame_max - len) sum)
      ≡ false
    → (nsegs < max_segs) × (len ≤ jumbo_frame_max) × (sum + len ≤ jumbo_frame_max)
accepted invalid nsegs len sum e = ground arith

-- Whatever the card hands over, the chain stays one.
take_desc-IsChain : (q : Queue) (d : Desc) → IsChain q.chain → IsChain (take_desc q d).chain
unfolding take_desc
take_desc-IsChain q d h =
    elim (Bool-cases (
      q.chain_invalid
      || leb max_segs q.chain.nsegs
      || ltb jumbo_frame_max d.len
      || ltb (jumbo_frame_max - d.len) q.chain.len)) [
        | inl bad ↦ rw bad (rw (chain-reject (record q { chain_invalid = true }) d.addr) h)
        | inr good ↦
            let c = q.chain in
            let fit = accepted q.chain_invalid c.nsegs d.len c.len good in
            let small : u16 d.len ≡ d.len = omega (arith, fit) in
            let longer : Packet = record c {
              seg_addr = at c.seg_addr c.nsegs d.addr;
              seg_len = at c.seg_len c.nsegs (u16 d.len);
              seg_cap = at c.seg_cap c.nsegs (u16 d.len);
              len = u32 (c.len + d.len);
              nsegs = u8 (c.nsegs + 1);
            } in
            rw good (
              longer-IsChain c longer d h fit.0 fit.1 (omega (arith, fit)) (omega (arith, fit))
                (omega (arith, fit)) (ap (λ x. at c.seg_len c.nsegs x) small))
      ]

empty-IsChain : IsChain no_packet
empty-IsChain = record { few = omega arith; short = omega arith; adds_up = refl }

AllReceived-snoc :
    (ps : List Packet) (p : Packet) → AllReceived ps → IsReceived p → AllReceived (ps ++ (p ∷ []))
AllReceived-snoc [] p h k = (k, tt)
AllReceived-snoc (x ∷ ps) p h k = (h.0, AllReceived-snoc ps p h.1 k)

end_chain-Received :
    (origin : Origin) (max : ℕ) (q : Queue) (out : List Packet)
    → IsChain q.chain
    → AllReceived out
    → IsChain (end_chain origin max q out).0.chain × AllReceived (end_chain origin max q out).1
unfolding end_chain
end_chain-Received origin max q out h k =
    elim (Bool-cases (q.chain_invalid || q.chain.nsegs == 0 || leb max (length out))) [
      | inl bad ↦ rw bad (empty-IsChain, k)
      | inr good ↦
          let some_seg : 0 < q.chain.nsegs = ground (arith, good) in
          let done : Packet = record q.chain {
            dir = origin.dir;
            wan_idx = origin.wan_idx;
            local_idx = origin.local_idx;
            tx_slot = 0;
          } in
          let kept : IsChain done = record { few = h.few; short = h.short; adds_up = h.adds_up } in
          rw good (empty-IsChain, AllReceived-snoc out done k (kept, some_seg))
    ]

recv_loop-Received :
    (origin : Origin) (max : ℕ) (q : Queue) (out : List Packet) (ds : List Desc)
    → IsChain q.chain
    → AllReceived out
    → IsChain (recv_loop origin max q out ds).0.chain
      × AllReceived (recv_loop origin max q out ds).1
unfolding recv_loop recv_desc
recv_loop-Received origin max q out [] h k = (h, k)
recv_loop-Received origin max q out (d ∷ ds) h k =
    let taken = take_desc-IsChain q d h in
    elim (Bool-cases d.continued) [
      | inl more ↦ rw more (recv_loop-Received origin max (take_desc q d) out ds taken k)
      | inr last ↦
          let ended = end_chain-Received origin max (take_desc q d) out taken k in
          rw last (
            recv_loop-Received origin max (end_chain origin max (take_desc q d) out).0
              (end_chain origin max (take_desc q d) out).1 ds ended.0 ended.1)
    ]

-- Whatever descriptors the card hands over, if what is kept from the call before is the start of
-- a packet, every packet that a call gives out has one to four
-- segments whose lengths add up to its length, at most 9216 bytes, and what is kept for the next
-- call is the start of a packet again.
pub recv_queue-Received :
    (origin : Origin) (max : ℕ) (q : Queue) (ds : List Desc)
    → IsChain q.chain
    → IsChain (recv_queue origin max q ds).0.chain × AllReceived (recv_queue origin max q ds).1
unfolding recv_queue
recv_queue-Received origin max q ds h = recv_loop-Received origin max q [] ds h tt
