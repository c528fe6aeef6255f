-- ===== src/L2/Encrypt.antt =====
-- l2_do_encrypt, l2_do_encrypt_udp, l2_encrypt_fragment_single, l2_encrypt_fragment0_inplace and the
-- entry points l2_udp_encrypt, l2_tcp_encrypt and l2_crypto_encrypt.
pub mod Payload
pub mod Data
pub mod Udp
pub mod Frames
use ne.Base.{
  ℕ, ◌+◌, ◌-◌, Bool, true, false, Option, none, some, List, leb, if◌then◌else◌, check, Mem, copy,
}
use ne.Worker.{State, Exec, pure, lift, gets, ◌>>=◌, ◌>>◌}
use ne.Eth
use ne.Eth.{fake_ethertype, fake_ethertype_udp}
use ne.Crypto.{Scrypt, CryptoCtx, sess_load, generate_nonce, encrypt_payload}
use ne.L2.{
  Proto, data_proto, udp, icmp, EpochSource, Meta, udp_tx_meta, jumbo_frame_max, min_eth_pkt,
  nonce_size, core_id_len, udp_marker_size, udp_shim_size, tag_size,
}
use ne.L2.Shim.{write_shim, marker_write, kind_frag0, kind_full}
use ne.L2.Wire.{write_wire_header}

module _ {Ctx : Type 0} (S : Scrypt Ctx) where
  unfoldable pub do_encrypt : CryptoCtx → Mem → ℕ → Exec (Mem × ℕ)
  unfolding Eth.l2_prefix_len sess_load
  do_encrypt ctx packet pkt_len = do
    et_off ← lift (Eth.l2_prefix_len packet pkt_len)
    lift (check (leb (et_off + 2) pkt_len))
    let payload_len = pkt_len - et_off
    let enc_start = et_off + 2 + core_id_len + nonce_size
    lift (check (leb enc_start pkt_len))
    let moved = copy packet enc_start packet et_off payload_len
    key ← lift (sess_load ctx)
    nonce ← generate_nonce S
    worker ← gets (λ s. s.worker_idx)
    ready ← gets (λ s. s.initialized)
    let headed = write_wire_header moved et_off fake_ethertype worker nonce
    (sealed, new_len) ← lift (encrypt_payload S ready key nonce headed enc_start payload_len)
    pure (sealed, enc_start + new_len)

  unfoldable pub do_encrypt_udp : EpochSource → CryptoCtx → Mem → ℕ → Exec (Mem × ℕ)
  unfolding Eth.l2_prefix_len Eth.ipv4_offset sess_load udp_tx_meta
  do_encrypt_udp src ctx packet pkt_len = do
    l3_off ← lift (Eth.ipv4_offset packet pkt_len)
    et_off ← lift (Eth.l2_prefix_len packet pkt_len)
    stamp ← udp_tx_meta src
    let payload_len = pkt_len - l3_off
    let magic_off = et_off + 2 + core_id_len + nonce_size
    let enc_start = magic_off + udp_marker_size
    let plain_len = udp_shim_size + payload_len
    lift (check (leb (enc_start + plain_len + tag_size) jumbo_frame_max))
    let moved = copy packet (enc_start + udp_shim_size) packet l3_off payload_len
    let shimmed = write_shim moved enc_start kind_full stamp
    key ← lift (sess_load ctx)
    nonce ← generate_nonce S
    worker ← gets (λ s. s.worker_idx)
    ready ← gets (λ s. s.initialized)
    let headed = write_wire_header shimmed et_off fake_ethertype_udp worker nonce
    let marked = marker_write headed magic_off
    (sealed, new_len) ← lift (encrypt_payload S ready key nonce marked enc_start plain_len)
    pure (sealed, enc_start + new_len)

  -- l2_encrypt_fragment_single: `plain` is at `from` in `frame`, whose header is copied to `out`.
  unfoldable pub encrypt_fragment :
      CryptoCtx → Mem → ℕ → ℕ → Meta → ℕ → Mem → ℕ → ℕ → Exec (Mem × ℕ)
  unfolding sess_load
  encrypt_fragment ctx frame from enc_plain_len stamp frag_index out out_max et_off = do
    let magic_off = et_off + 2 + core_id_len + nonce_size
    let enc_off = magic_off + udp_marker_size
    let plain_len = udp_shim_size + enc_plain_len
    lift (check (leb (enc_off + plain_len + tag_size) out_max))
    let titled = copy out 0 frame 0 et_off
    key ← lift (sess_load ctx)
    nonce ← generate_nonce S
    let moved = copy titled (enc_off + udp_shim_size) frame from enc_plain_len
    let shimmed = write_shim moved enc_off frag_index stamp
    worker ← gets (λ s. s.worker_idx)
    ready ← gets (λ s. s.initialized)
    let headed = write_wire_header shimmed et_off fake_ethertype_udp worker nonce
    let marked = marker_write headed magic_off
    (sealed, new_len) ← lift (encrypt_payload S ready key nonce marked enc_off plain_len)
    pure (sealed, enc_off + new_len)

  -- l2_encrypt_fragment0_inplace
  unfoldable pub encrypt_fragment0 : CryptoCtx → Mem → ℕ → Meta → ℕ → ℕ → ℕ → Exec (Mem × ℕ)
  unfolding sess_load
  encrypt_fragment0 ctx packet frag0_plain_len stamp out_max et_off l3_off = do
    let magic_off = et_off + 2 + core_id_len + nonce_size
    let enc_off = magic_off + udp_marker_size
    let plain_len = udp_shim_size + frag0_plain_len
    lift (check (leb (enc_off + plain_len + tag_size) out_max))
    let moved = copy packet (enc_off + udp_shim_size) packet l3_off frag0_plain_len
    let shimmed = write_shim moved enc_off kind_frag0 stamp
    key ← lift (sess_load ctx)
    nonce ← generate_nonce S
    worker ← gets (λ s. s.worker_idx)
    ready ← gets (λ s. s.initialized)
    let headed = write_wire_header shimmed et_off fake_ethertype_udp worker nonce
    let marked = marker_write headed magic_off
    (sealed, new_len) ← lift (encrypt_payload S ready key nonce marked enc_off plain_len)
    pure (sealed, enc_off + new_len)

  -- The frame that comes back is the one that is sent: another protocol's passes unchanged.
  unfoldable pub udp_encrypt : EpochSource → CryptoCtx → Mem → ℕ → Exec (Mem × ℕ)
  unfolding Eth.is_ipv4
  udp_encrypt src ctx pkt pkt_len = do
    lift (check ctx.initialized)
    lift (check (leb min_eth_pkt pkt_len))
    if Eth.is_ipv4 pkt pkt_len then do_encrypt_udp src ctx pkt pkt_len else pure (pkt, pkt_len)

  unfoldable pub tcp_encrypt : CryptoCtx → Mem → ℕ → Exec (Mem × ℕ)
  tcp_encrypt ctx pkt pkt_len = do
    lift (check ctx.initialized)
    lift (check (leb min_eth_pkt pkt_len))
    et_off ← lift (Eth.l2_prefix_len pkt pkt_len)
    do_encrypt ctx pkt pkt_len

  unfoldable pub encrypt : EpochSource → Proto → CryptoCtx → Mem → ℕ → Exec (Mem × ℕ)
  encrypt src udp ctx packet packet_len = udp_encrypt src ctx packet packet_len
  encrypt src _ ctx packet packet_len = tcp_encrypt ctx packet packet_len
