-- ===== src/Packet.antt =====
-- struct ne_packet, and of xdp_interface.c: struct ne_pool (pool_push, pool_pop), ne_frame_alloc,
-- ne_frame_free, packet_seg_addr, packet_set_seg_addr, ne_packet_linearize, ne_packet_write and
-- ne_packet_free. `addr` and `seg_addr[3]` are one function from the segment; the memory of the
-- frames is a `Mem` whose index is the address. The pool's lock is held for all of an operation.
pub mod Frames
pub mod Room
use ne.Base.{
  ℕ, zero, suc, ◌+◌, ◌-◌, Bool, false, ◌&&◌, ◌||◌, Option, none, some, List, [], ◌∷◌, ltb, ◌==◌,
  if◌then◌else◌, u8, u16, u32, sub32, bit_and, Mem, copy, length,
}

-- NE_PACKET_MAX_SEGS, NE_JUMBO_FRAME_MAX
abbrev pub max_segs : ℕ
max_segs = 4

abbrev pub jumbo_frame_max : ℕ
jumbo_frame_max = 9216

pub record Packet : Type 0 where
  pub seg_addr : ℕ → ℕ
  pub len : ℕ
  pub seg_len : ℕ → ℕ
  pub seg_cap : ℕ → ℕ
  pub dir : ℕ
  pub wan_idx : ℕ
  pub local_idx : ℕ
  pub tx_slot : ℕ
  pub nsegs : ℕ

-- What `memset` leaves.
abbrev pub no_packet : Packet
no_packet = record {
  seg_addr = λ i. 0;
  len = 0;
  seg_len = λ i. 0;
  seg_cap = λ i. 0;
  dir = 0;
  wan_idx = 0;
  local_idx = 0;
  tx_slot = 0;
  nsegs = 0;
}

-- `a[i] = x`
abbrev pub at : (ℕ → ℕ) → ℕ → ℕ → (ℕ → ℕ)
at a i x j = if j == i then x else a j

pub record Pool : Type 0 where
  pub buf : ℕ → ℕ
  pub cap : ℕ
  pub mask : ℕ
  pub head : ℕ
  pub tail : ℕ

-- The copy of `put` addresses in at `head`.
unfoldable pub store_all : (ℕ → ℕ) → ℕ → ℕ → List ℕ → (ℕ → ℕ)
store_all buf mask head [] = buf
store_all buf mask head (a ∷ addrs) =
    store_all (at buf (bit_and head mask) a) mask (u32 (head + 1)) addrs

abbrev pub first_of : ℕ → List ℕ → List ℕ
first_of zero l = []
first_of (suc n) [] = []
first_of (suc n) (a ∷ l) = a ∷ first_of n l

-- pool_push, with the number that found room
unfoldable pub pool_push : Pool → List ℕ → Pool × ℕ
unfolding store_all
pool_push p addrs =
    let free_slots = sub32 p.cap (sub32 p.head p.tail) in
    let put = if ltb (length addrs) free_slots then length addrs else free_slots in
    (
      record p {
        buf = store_all p.buf p.mask p.head (first_of put addrs);
        head = u32 (p.head + put);
      },
      put,
    )

unfoldable pub load_all : (ℕ → ℕ) → ℕ → ℕ → ℕ → List ℕ
load_all buf mask tail zero = []
load_all buf mask tail (suc n) = buf (bit_and tail mask) ∷ load_all buf mask (u32 (tail + 1)) n

-- pool_pop, with the addresses
unfoldable pub pool_pop : Pool → ℕ → Pool × List ℕ
unfolding load_all
pool_pop p n =
    let avail = sub32 p.head p.tail in
    let got = if ltb n avail then n else avail in
    (record p { tail = u32 (p.tail + got) }, load_all p.buf p.mask p.tail got)

-- ne_frame_alloc
abbrev pub frame_of : Pool × List ℕ → Option (Pool × ℕ)
frame_of (p, []) = none
frame_of (p, (a ∷ _)) = some (p, a)

unfoldable pub frame_alloc : Pool → Option (Pool × ℕ)
unfolding pool_pop
frame_alloc p = frame_of (pool_pop p 1)

-- ne_frame_free
unfoldable pub frame_free : Pool → ℕ → Pool
unfolding pool_push
frame_free p addr = (pool_push p (addr ∷ [])).0

-- The loop of ne_packet_linearize at segment `i` with `left` to go; `mem` is the frames' memory.
unfoldable pub linearize_loop : ℕ → ℕ → Mem → Packet → ℕ → ℕ → Mem → Option (Mem × ℕ)
linearize_loop zero i mem pkt nsegs off dst = some (dst, off)
linearize_loop (suc left) i mem pkt nsegs off dst =
    let n = if nsegs == 1 && pkt.seg_len i == 0 then pkt.len else pkt.seg_len i in
    let rest =
      linearize_loop left (i + 1) mem pkt nsegs (off + n) (copy dst off mem (pkt.seg_addr i) n) in
    if ltb (pkt.len - off) n then none else rest

-- ne_packet_linearize. `pkt->len - off` does not wrap: `off` is at most the length.
unfoldable pub linearize : Mem → Packet → Mem → ℕ → Option Mem
unfolding linearize_loop
linearize mem pkt dst dst_size =
    let nsegs = if pkt.nsegs == 0 then 1 else pkt.nsegs in
    if ltb dst_size pkt.len
    then none
    else if ltb max_segs nsegs
    then none
    else elim (linearize_loop nsegs 0 mem pkt nsegs 0 dst) [
      | none ↦ none
      | some (dst', off) ↦ if off == pkt.len then some dst' else none
    ]

-- How many segments a packet holds.
abbrev pub segments : Packet → ℕ
segments pkt =
    if pkt.nsegs == 0 then (if pkt.seg_addr 0 == 0 && pkt.len == 0 then 0 else 1) else pkt.nsegs

abbrev pub room : Packet → ℕ → ℕ
room pkt i = if pkt.seg_cap i == 0 then pkt.seg_len i else pkt.seg_cap i

-- The sum of the capacities from segment `i` on.
unfoldable pub capacity : ℕ → ℕ → Packet → ℕ
capacity zero i pkt = 0
capacity (suc left) i pkt = room pkt i + capacity left (i + 1) pkt

-- A packet with the pool that its frames come from.
pub record Held : Type 0 where
  pub pool : Pool
  pub packet : Packet
  pub nsegs : ℕ
  pub capacity : ℕ

-- The loop that takes frames until they hold `len` bytes; four steps are enough.
unfoldable pub grow : ℕ → ℕ → ℕ → Held → Held
unfolding frame_alloc
grow zero frame_size len h = h
grow (suc left) frame_size len h =
    if ltb h.capacity len && ltb h.nsegs max_segs
    then elim (frame_alloc h.pool) [
      | none ↦ h
      | some (pool', addr) ↦ grow left frame_size len (record {
        pool = pool';
        packet = record h.packet {
          seg_addr = at h.packet.seg_addr h.nsegs addr;
          seg_cap = at h.packet.seg_cap h.nsegs (u16 frame_size);
          seg_len = at h.packet.seg_len h.nsegs 0;
          nsegs = u8 (h.nsegs + 1);
        };
        nsegs = h.nsegs + 1;
        capacity = h.capacity + frame_size;
      })
    ]
    else h

-- The loop that fills the segments, with the bytes written.
unfoldable pub fill : ℕ → ℕ → Mem → Packet → Mem → ℕ → ℕ → Mem × Packet × ℕ
fill zero i mem pkt src len off = (mem, pkt, off)
fill (suc left) i mem pkt src len off =
    let n = if ltb (room pkt i) (len - off) then room pkt i else len - off in
    fill left (i + 1) (copy mem (pkt.seg_addr i) src off n)
      (record pkt { seg_len = at pkt.seg_len i (u16 n) }) src len (off + n)

-- The count of the segments in use.
unfoldable pub used_loop : ℕ → ℕ → Packet → ℕ
used_loop zero used pkt = used
used_loop (suc left) used pkt =
    let rest = used_loop left (used + 1) pkt in if pkt.seg_len used == 0 then used else rest

-- The frames of the segments behind those go back.
unfoldable pub trim : ℕ → ℕ → Pool → Packet → Pool × Packet
unfolding frame_free
trim zero i pool pkt = (pool, pkt)
trim (suc left) i pool pkt =
    trim left (i + 1) (frame_free pool (pkt.seg_addr i))
      (record pkt { seg_addr = at pkt.seg_addr i 0; seg_cap = at pkt.seg_cap i 0 })

-- What a write leaves: memory, pool and packet, and whether all bytes are in.
pub record Written : Type 0 where
  pub mem : Mem
  pub pool : Pool
  pub packet : Packet
  pub done : Bool

-- ne_packet_write
unfoldable pub packet_write : ℕ → Mem → Pool → Packet → Mem → ℕ → Written
unfolding capacity grow fill used_loop trim
packet_write frame_size mem pool pkt src len =
    let start : Held = record {
      pool = pool;
      packet = pkt;
      nsegs = segments pkt;
      capacity = capacity (segments pkt) 0 pkt;
    } in
    let h = grow max_segs frame_size len start in
    let (mem', filled, off) = fill h.nsegs 0 mem h.packet src len 0 in
    let used = used_loop h.nsegs 0 filled in
    let (pool', trimmed) = trim (h.nsegs - used) used h.pool filled in
    let ended : Packet = record trimmed { nsegs = u8 used; len = len } in
    let unchanged : Written = record { mem = mem; pool = pool; packet = pkt; done = false } in
    let short : Written = record { mem = mem; pool = h.pool; packet = h.packet; done = false } in
    let whole : Written = record { mem = mem'; pool = pool'; packet = ended; done = off == len } in
    if len == 0 || ltb jumbo_frame_max len
    then unchanged
    else if ltb h.capacity len
    then short
    else whole

unfoldable pub free_loop : ℕ → ℕ → Pool → Packet → Pool
unfolding frame_free
free_loop zero i pool pkt = pool
free_loop (suc left) i pool pkt = free_loop left (i + 1) (frame_free pool (pkt.seg_addr i)) pkt

-- ne_packet_free
unfoldable pub packet_free : Pool → Packet → Pool × Packet
unfolding free_loop
packet_free pool pkt =
    let nsegs = if ltb max_segs (segments pkt) then max_segs else segments pkt in
    (free_loop nsegs 0 pool pkt, no_packet)
