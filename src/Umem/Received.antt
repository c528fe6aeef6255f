-- ===== src/Umem/Received.antt =====
-- The frames that a receive call takes from the card: in packets that are given out, in the chain
-- that is kept, or among the rejected ones.
use ne.Rx.Chain.{accepted}
use mathlib.Core.List.{append_assoc, append-nil}
use ne.Tx.{seg_addrs}
use ne.Base.{
  length-append, ℕ, zero, suc, ◌+◌, ◌-◌, ◌≤◌, ◌<◌, ◌≡◌, refl, sym, ap, ap₂, ◌∙◌, inl, inr, true,
  ◌||◌, List, [], ◌∷◌, ◌++◌, arith, ltb, leb, ◌==◌, if◌then◌else◌, Bool-cases, length, u8, u16, u32,
}
use ne.Packet.{Packet, at, max_segs, jumbo_frame_max}
use ne.Rx.{
  Queue, Desc, Origin, recv_queue, end_chain, recv_loop, recv_desc, take_desc, reject, reject_chain,
  reject_max,
}

-- How often an address is in a list, and in the segments of some packets.
abbrev pub occurs : ℕ → List ℕ → ℕ
occurs a [] = 0
occurs a (x ∷ xs) = (if x == a then 1 else 0) + occurs a xs

abbrev pub segs : Packet → List ℕ
segs p = seg_addrs p p.nsegs 0

abbrev pub occurs_out : ℕ → List Packet → ℕ
occurs_out a [] = 0
occurs_out a (p ∷ ps) = occurs a (segs p) + occurs_out a ps

abbrev pub addrs_of : List Desc → List ℕ
addrs_of [] = []
addrs_of (d ∷ ds) = d.addr ∷ addrs_of ds

-- The frames that a queue and its packets so far hold.
abbrev pub held_by : ℕ → Queue → List Packet → ℕ
held_by a q out = occurs_out a out + occurs a (segs q.chain) + occurs a q.rejected

-- The places that the rejected addresses take, at the most.
abbrev pub places : Queue → ℕ
places q = length q.rejected + q.chain.nsegs

occurs-append : (a : ℕ) (xs ys : List ℕ) → occurs a (xs ++ ys) ≡ occurs a xs + occurs a ys
occurs-append a [] ys = omega arith
occurs-append a (x ∷ xs) ys = omega (arith, occurs-append a xs ys)

occurs_out-append :
    (a : ℕ) (ps : List Packet) (p : Packet)
    → occurs_out a (ps ++ (p ∷ [])) ≡ occurs_out a ps + occurs a (segs p)
occurs_out-append a [] p = omega arith
occurs_out-append a (x ∷ ps) p = omega (arith, occurs_out-append a ps p)

-- One more segment.
seg_addrs-snoc :
    (c c' : Packet) (n i x : ℕ)
    → c'.seg_addr ≡ at c.seg_addr (i + n) x
    → seg_addrs c' (suc n) i ≡ seg_addrs c n i ++ (x ∷ [])
unfolding seg_addrs
seg_addrs-snoc c c' zero i x e =
    let f : at c.seg_addr (i + 0) x i ≡ x = ground arith in
    ap (λ a. a i ∷ []) e ∙ ap (λ y. y ∷ []) f
seg_addrs-snoc c c' (suc n) i x e =
    let f : at c.seg_addr (i + suc n) x i ≡ c.seg_addr i = ground arith in
    ap₂ (λ y l. y ∷ l) (ap (λ a. a i) e ∙ f)
      (seg_addrs-snoc c c' n (i + 1) x (e ∙ ap (λ k. at c.seg_addr k x) (omega arith)))

reject-room :
    (q : Queue) (addr : ℕ)
    → length q.rejected < reject_max
    → reject q addr ≡ record q { rejected = q.rejected ++ (addr ∷ []) }
unfolding reject
reject-room q addr h = ground (arith, h)

reject_chain-room :
    (left i : ℕ) (q : Queue)
    → length q.rejected + left ≤ reject_max
    → ((reject_chain left i q).rejected ≡ q.rejected ++ seg_addrs q.chain left i)
unfolding reject_chain seg_addrs
reject_chain-room zero i q h = sym (append-nil q.rejected)
reject_chain-room (suc left) i q h =
    let x = q.chain.seg_addr i in
    let e = reject-room q x (omega arith) in
    let q' : Queue = record q { rejected = q.rejected ++ (x ∷ []) } in
    ap (λ r. (reject_chain left (i + 1) r).rejected) e
    ∙ reject_chain-room left (i + 1) q' (omega (arith, length-append q.rejected (x ∷ [])))
    ∙ append_assoc q.rejected (x ∷ []) (seg_addrs q.chain left (i + 1))

seg_addrs_same :
    (c c' : Packet) (n i : ℕ) → c'.seg_addr ≡ c.seg_addr → seg_addrs c' n i ≡ seg_addrs c n i
unfolding seg_addrs
seg_addrs_same c c' zero i e = refl
seg_addrs_same c c' (suc n) i e =
    ap₂ (λ x l. x ∷ l) (ap (λ f. f i) e) (seg_addrs_same c c' n (i + 1) e)

length-segs : (c : Packet) (n i : ℕ) → length (seg_addrs c n i) ≡ n
unfolding seg_addrs
length-segs c zero i = refl
length-segs c (suc n) i = ap suc (length-segs c n (i + 1))

-- What a step does to the frames that are held, and to the places.
abbrev pub Moved : ℕ → Queue → List Packet → Queue → List Packet → ℕ → ℕ → Type 0
Moved a q out q' out' more room =
    (held_by a q' out' ≡ held_by a q out + more) × (places q' ≤ places q + room)

take_desc-Moved :
    (a : ℕ) (q : Queue) (out : List Packet) (d : Desc)
    → places q < reject_max
    → Moved a q out (take_desc q d) out (occurs a (d.addr ∷ [])) 1
unfolding take_desc
take_desc-Moved a q out d h =
    let c = q.chain in
    elim (Bool-cases (
      q.chain_invalid
      || leb max_segs c.nsegs
      || ltb jumbo_frame_max d.len
      || ltb (jumbo_frame_max - d.len) c.len)) [
        | inl bad ↦
            let q1 : Queue = record q { chain_invalid = true } in
            let e = reject-room q1 d.addr (omega arith) in
            rw (bad, e)
              (
                omega (arith, occurs-append a q.rejected (d.addr ∷ [])),
                omega (arith, length-append q.rejected (d.addr ∷ [])),
              )
        | inr good ↦
            let fit = accepted q.chain_invalid c.nsegs d.len c.len good in
            let longer : Packet = record c {
              seg_addr = at c.seg_addr c.nsegs d.addr;
              seg_len = at c.seg_len c.nsegs (u16 d.len);
              seg_cap = at c.seg_cap c.nsegs (u16 d.len);
              len = u32 (c.len + d.len);
              nsegs = u8 (c.nsegs + 1);
            } in
            let n : u8 (c.nsegs + 1) ≡ suc c.nsegs = omega (arith, fit) in
            let e =
              ap (λ k. seg_addrs longer k 0) n
              ∙ seg_addrs-snoc c longer c.nsegs 0 d.addr
                  (ap (λ k. at c.seg_addr k d.addr) (omega arith)) in
            let f = ap (occurs a) e ∙ occurs-append a (segs c) (d.addr ∷ []) in
            rw good (omega (arith, f), omega (arith, n))
      ]

end_chain-Moved :
    (a : ℕ) (origin : Origin) (max : ℕ) (q : Queue) (out : List Packet)
    → places q ≤ reject_max
    → Moved a q out (end_chain origin max q out).0 (end_chain origin max q out).1 0 0
unfolding end_chain seg_addrs
end_chain-Moved a origin max q out h =
    let c = q.chain in
    elim (Bool-cases (q.chain_invalid || c.nsegs == 0 || leb max (length out))) [
      | inl bad ↦
          let e = reject_chain-room c.nsegs 0 q h in
          let f = ap (occurs a) e ∙ occurs-append a q.rejected (segs c) in
          let g = ap length e ∙ length-append q.rejected (segs c) in
          rw bad (omega (arith, f), omega (arith, g, length-segs c c.nsegs 0))
      | inr good ↦
          let done : Packet = record c {
            dir = origin.dir;
            wan_idx = origin.wan_idx;
            local_idx = origin.local_idx;
            tx_slot = 0;
          } in
          let same : occurs a (segs done) ≡ occurs a (segs c) =
            ap (occurs a) (seg_addrs_same c done c.nsegs 0 refl) in
          rw good (omega (arith, occurs_out-append a out done, same), omega arith)
    ]

recv_loop-Moved :
    (a : ℕ) (origin : Origin) (max : ℕ) (q : Queue) (out : List Packet) (ds : List Desc)
    → places q + length ds ≤ reject_max
    → Moved a q out
        (recv_loop origin max q out ds).0
        (recv_loop origin max q out ds).1
        (occurs a (addrs_of ds))
        (length ds)
unfolding recv_loop recv_desc
recv_loop-Moved a origin max q out [] h = (omega arith, omega arith)
recv_loop-Moved a origin max q out (d ∷ ds) h =
    let one = take_desc-Moved a q out d (omega arith) in
    elim (Bool-cases d.continued) [
      | inl more ↦
          let rest = recv_loop-Moved a origin max (take_desc q d) out ds (omega (arith, one, h)) in
          rw more (omega (arith, one, rest), omega (arith, one, rest))
      | inr last ↦
          let t = end_chain origin max (take_desc q d) out in
          let two = end_chain-Moved a origin max (take_desc q d) out (omega (arith, one, h)) in
          let rest = recv_loop-Moved a origin max t.0 t.1 ds (omega (arith, one, two, h)) in
          rw last (omega (arith, one, two, rest), omega (arith, one, two, rest))
    ]

-- When the rejected addresses, the segments of the chain and the descriptors shown are at most 68
-- together, as they are for a batch of at most 64 after a release, each address occurs as often in
-- the packets given out, the chain and the rejected addresses as it did in the chain, the rejected
-- addresses and the descriptors before.
pub recv_queue_frames :
    (a : ℕ) (origin : Origin) (max : ℕ) (q : Queue) (ds : List Desc)
    → places q + length ds ≤ reject_max
    → held_by a (recv_queue origin max q ds).0 (recv_queue origin max q ds).1
      ≡ held_by a q [] + occurs a (addrs_of ds)
unfolding recv_queue
recv_queue_frames a origin max q ds h = (recv_loop-Moved a origin max q [] ds h).0
