-- ===== src/L2/Shim.antt =====
-- The shim at the head of a UDP frame's plaintext: version and kind, epoch, sequence number and
-- datagram id (l2_udp_write_shim, l2_udp_read_shim), and the plaintext marker before it.
use ne.Base.{
  ℕ, ◌+◌, ◌*◌, ◌^◌, ◌≤◌, ◌<◌, ◌≡◌, Bool, ◌&&◌, Option, some, List, [], ◌∷◌, arith, leb, ◌==◌, ◌>>◌,
  check, u8, shr, low_bits, be32, Mem, put, ap, ◌∙◌,
}
use ne.Base.Slices.{Holds, put-Holds}
use ne.L2.{Meta}

-- L2_UDP_KIND_FRAG0, L2_UDP_KIND_FRAG1, L2_UDP_KIND_FULL
abbrev pub kind_frag0 : ℕ
kind_frag0 = 0

abbrev pub kind_frag1 : ℕ
kind_frag1 = 1

abbrev pub kind_full : ℕ
kind_full = 2

abbrev pub shim_version : ℕ
shim_version = 1

-- The thirteen bytes that are written at the start of the plaintext.
abbrev pub shim_bytes : ℕ → Meta → List ℕ
shim_bytes kind t =
    u8 (shim_version * 16 + low_bits kind 4)
    ∷ u8 (shr t.epoch 24)
    ∷ u8 (shr t.epoch 16)
    ∷ u8 (shr t.epoch 8)
    ∷ u8 t.epoch
    ∷ u8 (shr t.seq 24)
    ∷ u8 (shr t.seq 16)
    ∷ u8 (shr t.seq 8)
    ∷ u8 t.seq
    ∷ u8 (shr t.datagram_id 24)
    ∷ u8 (shr t.datagram_id 16)
    ∷ u8 (shr t.datagram_id 8)
    ∷ u8 t.datagram_id
    ∷ []

unfoldable pub write_shim : Mem → ℕ → ℕ → Meta → Mem
write_shim m off kind t = put m off (shim_bytes kind t)

unfoldable pub read_shim : Mem → ℕ → Option (ℕ × Meta)
read_shim m off = do
  let version = shr (m off) 4
  let kind = low_bits (m off) 4
  check (version == shim_version && leb kind kind_full)
  some (
    kind,
    record {
      epoch = be32 (m (off + 1)) (m (off + 2)) (m (off + 3)) (m (off + 4));
      seq = be32 (m (off + 5)) (m (off + 6)) (m (off + 7)) (m (off + 8));
      datagram_id = be32 (m (off + 9)) (m (off + 10)) (m (off + 11)) (m (off + 12));
    },
  )

-- The metadata are 32-bit words.
pub record IsWord (t : Meta) : Type 0 where
  pub epoch : t.epoch < 2 ^ 32
  pub seq : t.seq < 2 ^ 32
  pub datagram_id : t.datagram_id < 2 ^ 32

be32_bytes : (x : ℕ) → x < 2 ^ 32 → be32 (u8 (shr x 24)) (u8 (shr x 16)) (u8 (shr x 8)) (u8 x) ≡ x
be32_bytes x h = omega arith

-- A buffer that holds a shim is read as what was written, for the three kinds of frame.
pub read_shim-Holds :
    (m : Mem) (off kind : ℕ) (t : Meta)
    → kind ≤ 2
    → IsWord t
    → Holds m off (shim_bytes kind t)
    → read_shim m off ≡ some (kind, t)
unfolding read_shim
read_shim-Holds m off kind t h w holds =
    rw
      (
        first,
        holds 1 (omega arith),
        holds 2 (omega arith),
        holds 3 (omega arith),
        holds 4 (omega arith),
        holds 5 (omega arith),
        holds 6 (omega arith),
        holds 7 (omega arith),
        holds 8 (omega arith),
        holds 9 (omega arith),
        holds 10 (omega arith),
        holds 11 (omega arith),
        holds 12 (omega arith),
        be32_bytes t.epoch w.epoch,
        be32_bytes t.seq w.seq,
        be32_bytes t.datagram_id w.datagram_id,
      )
      (ground arith)
  where
    first : m off ≡ 16 + kind
    first = ap m (omega arith) ∙ holds 0 (omega arith) ∙ omega arith

-- A shim is read back as it was written, wherever it stands, for the three kinds of frame.
pub read-write_shim :
    (m : Mem) (off kind : ℕ) (t : Meta)
    → kind ≤ 2
    → IsWord t
    → read_shim (write_shim m off kind t) off ≡ some (kind, t)
unfolding write_shim
read-write_shim m off kind t h w =
    read_shim-Holds (write_shim m off kind t) off kind t h w (put-Holds m off (shim_bytes kind t))

abbrev pub marker_bytes : List ℕ
marker_bytes = 0x5B ∷ 0x55 ∷ 0x44 ∷ 0x01 ∷ []

unfoldable pub marker_match : Mem → ℕ → ℕ → Bool
marker_match m pkt_len off =
    leb (off + 4) pkt_len
    && m off == 0x5B
    && m (off + 1) == 0x55
    && m (off + 2) == 0x44
    && m (off + 3) == 0x01

unfoldable pub marker_write : Mem → ℕ → Mem
marker_write m off = put m off marker_bytes
