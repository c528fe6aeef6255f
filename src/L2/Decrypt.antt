-- ===== src/L2/Decrypt.antt =====
-- l2_do_decrypt, l2_do_decrypt_udp and the entry points l2_udp_decrypt, l2_tcp_decrypt and
-- l2_crypto_decrypt. `ready` is the crypto library's `initialized`.
pub mod Open
pub mod Udp
pub mod Stamped
use ne.Base.{
  ℕ, ◌+◌, ◌-◌, Bool, true, false, Option, none, some, leb, ◌==◌, if◌then◌else◌, ◌>>=◌, ◌>>◌, check,
  Mem, copy, slice,
}
use ne.Eth
use ne.Crypto.{Scrypt, CryptoCtx, sess_load, decrypt_payload}
use ne.L2.{Proto, data_proto, udp, icmp, Meta, nonce_size, udp_marker_size, udp_shim_size, tag_size}
use ne.L2.Shim.{read_shim, marker_match, kind_full}
use ne.L2.Wire.{nonce_off, enc_start_off, restore_plain_packet}

-- What the decryption of a UDP frame gives.
pub record Opened : Type 0 where
  pub packet : Mem
  pub len : ℕ
  pub kind : ℕ
  pub stamp : Meta

module _ {Ctx : Type 0} (S : Scrypt Ctx) (ready : Bool) where
  unfoldable pub do_decrypt : CryptoCtx → Mem → ℕ → Option (Mem × ℕ)
  unfolding enc_start_off sess_load
  do_decrypt ctx packet pkt_len = do
    enc_start ← enc_start_off packet pkt_len
    key ← sess_load ctx
    at ← nonce_off packet pkt_len
    let nonce = slice packet at nonce_size
    (opened, dec_len) ← decrypt_payload S ready key nonce packet enc_start (pkt_len - enc_start)
    restore_plain_packet opened pkt_len enc_start dec_len

  unfoldable pub do_decrypt_udp : CryptoCtx → Mem → ℕ → Option Opened
  unfolding enc_start_off sess_load Eth.l2_prefix_len
  do_decrypt_udp ctx packet pkt_len = do
    magic_off ← enc_start_off packet pkt_len
    check (marker_match packet pkt_len magic_off)
    let enc_start = magic_off + udp_marker_size
    check (leb (enc_start + udp_shim_size + tag_size) pkt_len)
    key ← sess_load ctx
    at ← nonce_off packet pkt_len
    let nonce = slice packet at nonce_size
    (opened, dec_len) ← decrypt_payload S ready key nonce packet enc_start (pkt_len - enc_start)
    check (leb udp_shim_size dec_len)
    (kind, stamp) ← read_shim opened enc_start
    let payload_len = dec_len - udp_shim_size
    et_off ← Eth.l2_prefix_len opened pkt_len
    let l3_off = et_off + 2
    let moved = copy opened l3_off opened (enc_start + udp_shim_size) payload_len
    let restored = if kind == kind_full then Eth.set_ipv4_et moved (l3_off - 2) else moved
    some (record { packet = restored; len = l3_off + payload_len; kind = kind; stamp = stamp })

  -- A frame without the marker passes unchanged.
  unfoldable pub udp_decrypt : CryptoCtx → Mem → ℕ → Option (Mem × ℕ)
  unfolding Eth.has_marker Eth.is_ipv4
  udp_decrypt ctx pkt pkt_len = do
    check ctx.initialized
    if Eth.has_marker pkt pkt_len
        then (do
          r ← do_decrypt_udp ctx pkt pkt_len
          check (r.kind == kind_full)
          check (Eth.is_ipv4 r.packet r.len)
          some (r.packet, r.len))
        else some (pkt, pkt_len)

  unfoldable pub tcp_decrypt : CryptoCtx → Mem → ℕ → Option (Mem × ℕ)
  unfolding Eth.has_marker
  tcp_decrypt ctx pkt pkt_len = do
    check ctx.initialized
    if Eth.has_marker pkt pkt_len then do_decrypt ctx pkt pkt_len else some (pkt, pkt_len)

  unfoldable pub decrypt : Proto → CryptoCtx → Mem → ℕ → Option (Mem × ℕ)
  decrypt udp ctx packet packet_len = udp_decrypt ctx packet packet_len
  decrypt _ ctx packet packet_len = tcp_decrypt ctx packet packet_len
