-- ===== src/L2/Encrypt/Frames.antt =====
-- What do_encrypt_udp, encrypt_fragment and encrypt_fragment0 return where the library's calls
-- succeed: the frame `sent` of the payload, 46 bytes longer than the frame that it stands for.
use ne.Base.{ℕ, ◌+◌, ◌-◌, ◌≤◌, ◌<◌, ◌≡◌, ap, some, List, arith, Mem, slice, copy}
use ne.Base.Slices.{Holds, length-slice, get_or-slice}
use ne.Worker.{State}
use ne.Eth
use ne.Crypto.{Scrypt, CryptoCtx, generate_nonce}
use ne.L2.{EpochSource, Meta, udp_tx_meta}
use ne.L2.Encrypt.{do_encrypt_udp, encrypt_fragment, encrypt_fragment0}
use ne.L2.Encrypt.Data.{Sealing}
use ne.L2.Encrypt.Payload.{generate_nonce-keeps}
use ne.L2.Encrypt.Udp.{shimmed, sent, sealed-eq}

-- The payload where the copy puts it.
pub copied :
    (base frame : Mem) (from k : ℕ) → Holds (copy base 44 frame from k) 44 (slice frame from k)
copied base frame from k i h =
    let h' : i < k = rw length-slice at h in
    ground (
      arith,
      get_or-slice frame from k i h',
      ap frame {x = from + (44 + i - 44)} {y = from + i} (omega arith),
    )

module _ {Ctx : Type 0} (S : Scrypt Ctx) (ctx : CryptoCtx) (s : State) (stamp : Meta)
    (nonce cipher tag : List ℕ) where
  pub do_encrypt_udp-eq :
      (src : EpochSource) (packet : Mem) (n : ℕ) (t : State)
      → Eth.ipv4_offset packet n ≡ some 14
      → n ≤ 9170
      → udp_tx_meta src t ≡ (some stamp, s)
      → (ok : Sealing S ctx s (shimmed 2 stamp (slice packet 14 (n - 14))) nonce cipher tag)
      → do_encrypt_udp S src ctx packet n t ≡ (
        some (
          sent S ctx s
              (copy packet 44 packet 14 (n - 14))
              2
              stamp
              (slice packet 14 (n - 14))
              nonce
              cipher
              tag
              (copied packet packet 14 (n - 14))
              ok,
          n + 46,
        ),
        (generate_nonce S s).1,
      )
  unfolding do_encrypt_udp
  do_encrypt_udp-eq src packet n t ip short meta ok = ground (
    arith,
    generate_nonce-keeps S s,
    length-slice packet 14 (n - 14),
    sealed-eq S ctx s (copy packet 44 packet 14 (n - 14)) 2 stamp (slice packet 14 (n - 14)) nonce
        cipher tag (copied packet packet 14 (n - 14)) ok,
  )

  pub encrypt_fragment-eq :
      (frame out : Mem) (from k kind out_max : ℕ)
      → k + 60 ≤ out_max
      → (ok : Sealing S ctx s (shimmed kind stamp (slice frame from k)) nonce cipher tag)
      → encrypt_fragment S ctx frame from k stamp kind out out_max 12 s ≡ (
        some (
          sent S ctx s
              (copy (copy out 0 frame 0 12) 44 frame from k)
              kind
              stamp
              (slice frame from k)
              nonce
              cipher
              tag
              (copied (copy out 0 frame 0 12) frame from k)
              ok,
          k + 60,
        ),
        (generate_nonce S s).1,
      )
  unfolding encrypt_fragment
  encrypt_fragment-eq frame out from k kind out_max fits ok = ground (
    arith,
    generate_nonce-keeps S s,
    length-slice frame from k,
    sealed-eq S ctx s (copy (copy out 0 frame 0 12) 44 frame from k) kind stamp (slice frame from k)
        nonce cipher tag (copied (copy out 0 frame 0 12) frame from k) ok,
  )

  pub encrypt_fragment0-eq :
      (packet : Mem) (k out_max : ℕ)
      → k + 60 ≤ out_max
      → (ok : Sealing S ctx s (shimmed 0 stamp (slice packet 14 k)) nonce cipher tag)
      → encrypt_fragment0 S ctx packet k stamp out_max 12 14 s ≡ (
        some (
          sent S ctx s
              (copy packet 44 packet 14 k)
              0
              stamp
              (slice packet 14 k)
              nonce
              cipher
              tag
              (copied packet packet 14 k)
              ok,
          k + 60,
        ),
        (generate_nonce S s).1,
      )
  unfolding encrypt_fragment0
  encrypt_fragment0-eq packet k out_max fits ok = ground (
    arith,
    generate_nonce-keeps S s,
    length-slice packet 14 k,
    sealed-eq S ctx s (copy packet 44 packet 14 k) 0 stamp (slice packet 14 k) nonce cipher tag
        (copied packet packet 14 k) ok,
  )
