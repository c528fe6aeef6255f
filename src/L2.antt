-- ===== src/L2.antt =====
-- src/crypto/pqc/pqc_l2_option.c (with inc/crypto/l2_crypto.h): the protocol classes, the thresholds
-- for splitting, and the sequence metadata that a worker stamps on UDP frames. The children hold the
-- wire format, the encryption and decryption of a frame, its fragments and their reassembly.
pub mod Shim
pub mod Wire
pub mod Encrypt
pub mod Decrypt
pub mod Table
pub mod Split
pub mod Reassembly
use ne.Base.{
  ℕ, ◌+◌, ◌-◌, ◌*◌, ◌^◌, Bool, true, false, Option, none, some, ltb, ◌==◌, if◌then◌else◌, u32,
  bit_xor,
}
use ne.Worker.{State, Exec}

abbrev pub mtu : ℕ
mtu = 9000

-- L2_CRYPTO_DATA_OVERHEAD
abbrev pub data_overhead : ℕ
data_overhead = 2 + 1 + 12 + 16

-- NE_JUMBO_FRAME_MAX
abbrev pub jumbo_frame_max : ℕ
jumbo_frame_max = 9216

abbrev pub opt_frag_meta_len : ℕ
opt_frag_meta_len = 46

abbrev pub nonce_size : ℕ
nonce_size = 12

abbrev pub core_id_len : ℕ
core_id_len = 1

abbrev pub udp_marker_size : ℕ
udp_marker_size = 4

abbrev pub udp_shim_size : ℕ
udp_shim_size = 13

abbrev pub tag_size : ℕ
tag_size = 16

-- ETH_HEADER_SIZE + 8
abbrev pub min_eth_pkt : ℕ
min_eth_pkt = 22

pub data Proto : Type 0 where
  data_proto udp icmp : Proto

-- IPPROTO_UDP is 17 and IPPROTO_ICMP is 1.
unfoldable pub classify : ℕ → Proto
classify ip_proto = if ip_proto == 17 then udp else if ip_proto == 1 then icmp else data_proto

unfoldable pub need_udp_split : ℕ → Bool
need_udp_split packet_len = ltb (14 + mtu - opt_frag_meta_len) packet_len

unfoldable pub need_split : Proto → ℕ → Bool
unfolding need_udp_split
need_split udp packet_len = need_udp_split packet_len
need_split icmp packet_len = ltb (14 + mtu - data_overhead) packet_len
need_split data_proto packet_len = false

-- The inputs of `l2_crypto_epoch`: what getrandom gave (`none` if it failed), the clock, the pid,
-- and the epoch that another thread stored meanwhile (0 for none).
pub record EpochSource : Type 0 where
  pub random : Option ℕ
  pub tv_nsec : ℕ
  pub tv_sec : ℕ
  pub pid : ℕ
  pub stored_meanwhile : ℕ

-- The value that the thread proposes: never 0.
unfoldable pub epoch_candidate : EpochSource → ℕ
epoch_candidate src =
    let clock =
      bit_xor (bit_xor (u32 src.tv_nsec) (u32 src.tv_sec)) (u32 (u32 src.pid * 0x9e3779b9)) in
    let from_clock = if clock == 0 then 1 else clock in
    elim src.random [ none ↦ from_clock | some r ↦ if u32 r == 0 then from_clock else u32 r ]

-- l2_crypto_epoch: the epoch, and the global after the compare-and-exchange.
unfoldable pub epoch : EpochSource → ℕ → ℕ × ℕ
unfolding epoch_candidate
epoch src global =
    if global == 0
    then if src.stored_meanwhile == 0
      then (epoch_candidate src, epoch_candidate src)
      else (src.stored_meanwhile, src.stored_meanwhile)
    else (global, global)

-- l2_crypto_udp_set_tx_seq
unfoldable pub udp_set_tx_seq : ℕ → State → State
udp_set_tx_seq seq s = record s {
  tx_seq = seq;
  tx_datagram_id = s.tx_datagram_clock;
  tx_datagram_clock = u32 (s.tx_datagram_clock + 1);
  tx_valid = true;
}

-- What is stamped on a frame.
pub record Meta : Type 0 where
  pub epoch : ℕ
  pub seq : ℕ
  pub datagram_id : ℕ

-- l2_crypto_udp_tx_meta
unfoldable pub udp_tx_meta : EpochSource → Exec Meta
unfolding epoch
udp_tx_meta src s =
    if s.tx_valid
    then (
      some (record {
        epoch = (epoch src s.udp_epoch).0;
        seq = s.tx_seq;
        datagram_id = s.tx_datagram_id;
      }),
      record s { udp_epoch = (epoch src s.udp_epoch).1 },
    )
    else (none, s)

-- l2_crypto_bind_worker
unfoldable pub bind_worker : ℕ → State → State
bind_worker worker_idx s = record s { worker_idx = worker_idx }
