-- ===== src/L2/Wire.antt =====
-- The layout of an encrypted frame: EtherType, worker id, nonce, and for UDP a marker, before the
-- sealed bytes. `packet` is the worker's buffer.
use ne.Base.{
  ℕ, ◌+◌, ◌≡◌, Option, none, some, List, ltb, if◌then◌else◌, ◌>>=◌, u8, shr, low_bits, Mem, poke,
  put, copy, length,
}
use ne.Base.Slices.{Holds}
use ne.Eth
use ne.L2.{nonce_size, core_id_len}

-- l2_nonce_off
unfoldable pub nonce_off : Mem → ℕ → Option ℕ
unfolding Eth.core_id_off
nonce_off packet pkt_len = do off ← Eth.core_id_off packet pkt_len; some (off + core_id_len)

-- l2_enc_start_off, which is l2_frag_magic_off too
unfoldable pub enc_start_off : Mem → ℕ → Option ℕ
unfolding nonce_off
enc_start_off packet pkt_len = do
  off ← nonce_off packet pkt_len
  if ltb pkt_len (off + nonce_size) then none else some (off + nonce_size)

-- l2_write_wire_header_et
unfoldable pub write_wire_header : Mem → ℕ → ℕ → ℕ → List ℕ → Mem
write_wire_header packet et_off fake worker nonce =
    let typed = poke (poke packet et_off (u8 (shr fake 8))) (et_off + 1) (low_bits fake 8) in
    put (poke typed (et_off + 2) (u8 worker)) (et_off + 3) nonce

-- l2_restore_plain_packet: the payload moves down over the wire header.
unfoldable pub restore_plain_packet : Mem → ℕ → ℕ → ℕ → Option (Mem × ℕ)
unfolding Eth.l2_prefix_len
restore_plain_packet packet pkt_len payload payload_len = do
  et_off ← Eth.l2_prefix_len packet pkt_len
  some (copy packet et_off packet payload payload_len, et_off + payload_len)

-- l2_wire_prefix_len
unfoldable pub wire_prefix_len : Mem → ℕ → Option ℕ
unfolding Eth.l2_prefix_len
wire_prefix_len packet pkt_len = do et_off ← Eth.l2_prefix_len packet pkt_len; some (et_off + 2)

-- What a receiver relies on: a frame of `n` bytes with the encrypted EtherType `0x10et`, its worker
-- id, its nonce, and the sealed bytes from `start` to the end.
pub record Image (m : Mem) (n et worker : ℕ) (nonce body : List ℕ) (start : ℕ) : Type 0 where
  pub et_high : m 12 ≡ 0x10
  pub et_low : m 13 ≡ et
  pub core_id : m 14 ≡ u8 worker
  pub nonce_length : length nonce ≡ 12
  pub nonce_at : Holds m 15 nonce
  pub body_at : Holds m start body
  pub ends : n ≡ start + length body
