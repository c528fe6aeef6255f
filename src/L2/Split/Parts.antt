-- ===== src/L2/Split/Parts.antt =====
-- The two fragments that a split makes, where the cipher's calls succeed.
use ne.L2.Split.{split_plan, split}
use ne.L2.Encrypt.Frames.{copied, encrypt_fragment-eq, encrypt_fragment0-eq}
use ne.L2.Encrypt.Udp.{shimmed, sent}
use ne.L2.Encrypt.Data.{Sealing}
use ne.Crypto.{Scrypt, CryptoCtx, generate_nonce}
use ne.Worker.{State}
use ne.L2.{Meta, EpochSource, udp_tx_meta}
use ne.Base.{ℕ, ◌+◌, ◌≤◌, ◌≡◌, refl, some, List, arith, Mem, copy, slice}
use ne.Eth

module _ {Ctx : Type 0} (S : Scrypt Ctx) (ctx : CryptoCtx) (s : State) (stamp : Meta) (packet : Mem)
    (n k h : ℕ) (out : Mem) (nonce1 cipher1 tag1 nonce2 cipher2 tag2 : List ℕ)
    (ok2 : Sealing S ctx s (shimmed 1 stamp (slice packet (14 + k) h)) nonce2 cipher2 tag2)
    (ok1 : Sealing S ctx
      (generate_nonce S s).1
      (shimmed 0 stamp (slice packet 14 k))
      nonce1
      cipher1
      tag1) where
  abbrev pub base1 : Mem
  base1 = copy packet 44 packet 14 k

  abbrev pub base2 : Mem
  base2 = copy (copy out 0 packet 0 12) 44 packet (14 + k) h

  abbrev pub wire1 : Mem
  wire1 =
      sent S ctx (generate_nonce S s).1 base1 0 stamp (slice packet 14 k) nonce1 cipher1 tag1
        (copied packet packet 14 k) ok1

  abbrev pub wire2 : Mem
  wire2 =
      sent S ctx s base2 1 stamp (slice packet (14 + k) h) nonce2 cipher2 tag2
        (copied (copy out 0 packet 0 12) packet (14 + k) h) ok2

  prefix_of_ip :
      (m : ℕ) → 14 ≤ m → Eth.ipv4_offset packet n ≡ some 14 → Eth.l2_prefix_len packet m ≡ some 12
  unfolding Eth.ipv4_offset Eth.l2_prefix_len
  prefix_of_ip m le ip = ground (arith, ip, le)

  pub split-eq :
      (src : EpochSource) (t : State) (max0 max1 : ℕ)
      → Eth.ipv4_offset packet n ≡ some 14
      → 14 ≤ n
      → split_plan packet n 14 ≡ some (record { frag0_plain_len = k; half2 = h })
      → udp_tx_meta src t ≡ (some stamp, s)
      → k + 60 ≤ max0
      → h + 60 ≤ max1
      → (split S src ctx packet n max0 out max1 t).0
        ≡ some (record { first = wire1; first_len = k + 60; second = wire2; second_len = h + 60 })
  unfolding split
  split-eq src t max0 max1 ip le plan meta fit0 fit1 =
      rw
        (
          ip,
          plan,
          meta,
          prefix_of_ip 18 (omega arith) ip,
          encrypt_fragment-eq S ctx s stamp nonce2 cipher2 tag2 packet out (14 + k) h 1 max1 fit1
              ok2,
          prefix_of_ip n le ip,
          encrypt_fragment0-eq S ctx (generate_nonce S s).1 stamp nonce1 cipher1 tag1 packet k max0
              fit0 ok1,
        )
        refl
