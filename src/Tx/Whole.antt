-- ===== src/Tx/Whole.antt =====
-- What the descriptors of packets say to the card: which segments make a frame, and how long they are.
use ne.Tx.{tx_descs, seg_count}
use ne.Rx.{Desc}
use ne.Packet.{Packet, max_segs, jumbo_frame_max}
use native.Mathlib.Decide.{dec_lt}
use ne.Base.{
  ℕ, zero, suc, ◌+◌, ◌-◌, ◌≤◌, ◌<◌, ◌≡◌, refl, sym, ap, ap₂, ◌∙◌, ◌⊎◌, true, false, ◌&&◌, List, [],
  ◌∷◌, ◌++◌, arith, ltb, leb, ◌==◌, if◌then◌else◌,
}

-- A segment: its address and its length.
abbrev pub Segment : Type 0
Segment = ℕ × ℕ

-- The bytes of a segment of the packet; a packet of one segment has all of its bytes there.
abbrev pub seg_bytes : Packet → ℕ → ℕ
seg_bytes job i = if leb job.nsegs 1 then job.len else job.seg_len i

-- The segments of the packet from `i` on.
abbrev pub segments : Packet → ℕ → ℕ → List Segment
segments job zero i = []
segments job (suc left) i = (job.seg_addr i, seg_bytes job i) ∷ segments job left (i + 1)

abbrev pub whole : Packet → List Segment
whole job = segments job (if leb job.nsegs 1 then 1 else job.nsegs) 0

abbrev pub wholes : List Packet → List (List Segment)
wholes [] = []
wholes (job ∷ jobs) = whole job ∷ wholes jobs

-- The frames that the card makes of descriptors: a frame ends with the first descriptor that is not
-- continued, and one that does not end is none.
abbrev pub attach : Segment → List (List Segment) → List (List Segment)
attach x [] = []
attach x (f ∷ fs) = (x ∷ f) ∷ fs

abbrev pub frames_of : List Desc → List (List Segment)
frames_of [] = []
frames_of (d ∷ ds) =
    let rest = frames_of ds in
    if d.continued then attach (d.addr, d.len) rest else ((d.addr, d.len) ∷ []) ∷ rest

-- A packet that the rest of the program makes, for frames of `max_frame` bytes: at most four segments
-- and 9216 bytes, no segment longer than a frame, and the length of a single segment the packet's or
-- left out.
pub record IsSendable (max_frame : ℕ) (job : Packet) : Type 0 where
  pub few : seg_count job ≤ max_segs
  pub short : job.len ≤ jumbo_frame_max
  pub fits : (i : ℕ) → i < seg_count job → seg_bytes job i ≤ max_frame
  pub single : job.nsegs ≤ 1 → (job.seg_len 0 ≡ 0) ⊎ (job.seg_len 0 ≡ job.len)

abbrev pub AllSendable : ℕ → List Packet → Type 0
AllSendable max_frame [] = Unit {0}
AllSendable max_frame (p ∷ ps) = IsSendable max_frame p × AllSendable max_frame ps

-- The descriptors of some packets, one packet after the other.
abbrev pub all_descs : ℕ → List Packet → List Desc
all_descs max_frame [] = []
all_descs max_frame (job ∷ jobs) =
    tx_descs max_frame job (seg_count job) 0 ++ all_descs max_frame jobs

-- The length in a descriptor.
abbrev shown : ℕ → Packet → ℕ → ℕ
shown max_frame job i =
    let bytes = if seg_count job == 1 && job.seg_len i == 0 then job.len else job.seg_len i in
    if ltb max_frame bytes then max_frame else bytes

shown-single :
    (max_frame nsegs len seg : ℕ)
    → nsegs ≤ 1
    → len ≤ max_frame
    → (seg ≡ 0) ⊎ (seg ≡ len)
    → let count = if nsegs == 0 then 1 else nsegs in
      let bytes = if count == 1 && seg == 0 then len else seg in
      (if ltb max_frame bytes then max_frame else bytes) ≡ len
shown-single max_frame nsegs len seg one fit set = ground (arith, one, fit, set)

shown-eq :
    (max_frame : ℕ) (job : Packet) (i : ℕ)
    → IsSendable max_frame job
    → i < seg_count job
    → shown max_frame job i ≡ seg_bytes job i
shown-eq max_frame job i ok lt = elim (dec_lt 1 job.nsegs) [
  | yes many ↦ ground (arith, ok.fits i lt, many)
  | no one ↦
      let first : i ≡ 0 = ground (arith, lt, one) in
      let fit : job.len ≤ max_frame = ground (arith, ok.fits i lt, one) in
      let all : leb job.nsegs 1 ≡ true = ground (arith, one) in
      ap (shown max_frame job) first
      ∙ shown-single max_frame job.nsegs job.len (job.seg_len 0) (omega arith) fit
          (ok.single (omega arith))
      ∙ ap (λ b. if b then job.len else job.seg_len i) (sym all)
]

frames_of-tx_descs :
    (max_frame : ℕ) (job : Packet) (left i : ℕ) (ds : List Desc)
    → IsSendable max_frame job
    → i + suc left ≡ seg_count job
    → frames_of (tx_descs max_frame job (suc left) i ++ ds)
      ≡ segments job (suc left) i ∷ frames_of ds
unfolding tx_descs
frames_of-tx_descs max_frame job zero i ds ok e =
    let rest = frames_of ds in
    let last : ltb (i + 1) (seg_count job) ≡ false = ground (arith, e) in
    ap₂ (λ c l. if c then attach (job.seg_addr i, l) rest else ((job.seg_addr i, l) ∷ []) ∷ rest)
      last (shown-eq max_frame job i ok (omega arith))
frames_of-tx_descs max_frame job (suc left) i ds ok e =
    let rest = frames_of (tx_descs max_frame job (suc left) (i + 1) ++ ds) in
    let more : ltb (i + 1) (seg_count job) ≡ true = ground (arith, e) in
    ap₂ (λ c l. if c then attach (job.seg_addr i, l) rest else ((job.seg_addr i, l) ∷ []) ∷ rest)
      more (shown-eq max_frame job i ok (omega arith))
    ∙ ap (attach (job.seg_addr i, seg_bytes job i))
        (frames_of-tx_descs max_frame job left (i + 1) ds ok (omega arith))

pub frames_of-job :
    (max_frame : ℕ) (job : Packet) (ds : List Desc)
    → IsSendable max_frame job
    → frames_of (tx_descs max_frame job (seg_count job) 0 ++ ds) ≡ whole job ∷ frames_of ds
frames_of-job max_frame job ds ok =
    let count = if leb job.nsegs 1 then 1 else job.nsegs in
    let same : seg_count job ≡ suc (count - 1) = ground arith in
    let back : count ≡ suc (count - 1) = ground arith in
    ap (λ k. frames_of (tx_descs max_frame job k 0 ++ ds)) same
    ∙ frames_of-tx_descs max_frame job (count - 1) 0 ds ok (omega (arith, same))
    ∙ ap (λ k. segments job k 0 ∷ frames_of ds) (sym back)

-- The card sees the frames of the packets, one after the other.
pub frames_of-all_descs :
    (max_frame : ℕ) (jobs : List Packet)
    → AllSendable max_frame jobs
    → frames_of (all_descs max_frame jobs) ≡ wholes jobs
frames_of-all_descs max_frame [] ok = refl
frames_of-all_descs max_frame (job ∷ jobs) ok =
    frames_of-job max_frame job (all_descs max_frame jobs) ok.0
    ∙ ap (λ fs. whole job ∷ fs) (frames_of-all_descs max_frame jobs ok.1)

pub AllSendable-left :
    (max_frame : ℕ) (xs ys : List Packet)
    → AllSendable max_frame (xs ++ ys)
    → AllSendable max_frame xs
AllSendable-left max_frame [] ys h = ground arith
AllSendable-left max_frame (x ∷ xs) ys h = (h.0, AllSendable-left max_frame xs ys h.1)

pub AllSendable-right :
    (max_frame : ℕ) (xs ys : List Packet)
    → AllSendable max_frame (xs ++ ys)
    → AllSendable max_frame ys
AllSendable-right max_frame [] ys h = h
AllSendable-right max_frame (x ∷ xs) ys h = AllSendable-right max_frame xs ys h.1
