-- ===== src/L2/Decrypt/Stamped.antt =====
-- UDP frames there and back.
use ne.Base.{
  ℕ, ◌+◌, ◌-◌, ◌≤◌, ◌<◌, ◌≡◌, refl, ap, ◌∙◌, ◌⊎◌, inl, inr, true, false, if◌then◌else◌, Option,
  some, List, arith, ◌==◌, Bool-cases, length, Mem, IsBytes, copy, slice, Agree,
}
use ne.L2.Wire.{wire_prefix_len}
use ne.L2.Decrypt.Open.{inner-marked}
use ne.L2.{udp_tx_meta, EpochSource, Meta}
use native.Mathlib.Decide.{dec_lt}
use ne.Base.Slices.{Holds, length-slice, get_or-slice}
use ne.Worker.{State}
use ne.Eth.Laws.{ipv4_offset_iff}
use ne.L2.Encrypt.{do_encrypt_udp}
use ne.L2.Encrypt.Frames.{copied, do_encrypt_udp-eq}
use ne.L2.Decrypt.{Opened, do_decrypt_udp}
use ne.Crypto.{Scrypt, CryptoCtx}
use ne.L2.Shim.{IsWord}
use ne.L2.Encrypt.Data.{Sealing}
use ne.L2.Encrypt.Udp.{shimmed, sent, sent-Image, sent-marker, sent-outside}
use ne.L2.Decrypt.Udp.{restored, lowered, do_decrypt_udp-eq, lowered-payload, lowered-below}
use ne.Eth

module _ {Ctx : Type 0} (S : Scrypt Ctx) (ctx : CryptoCtx) (s : State) (base : Mem) (kind : ℕ)
    (stamp : Meta) (payload nonce cipher tag : List ℕ) (at : Holds base 44 payload)
    (ok : Sealing S ctx s (shimmed kind stamp payload) nonce cipher tag) where
  abbrev pub wire : Mem
  wire = sent S ctx s base kind stamp payload nonce cipher tag at ok

  -- The receiver's buffer.
  abbrev pub opened : Mem
  opened = restored S ok.gcm ctx kind stamp payload nonce cipher tag ok.keyed ok.calls wire

  abbrev low : Mem
  low = lowered S ok.gcm ctx kind stamp payload nonce cipher tag ok.keyed ok.calls wire

  pub open-wire :
      kind ≤ 2
      → IsWord stamp
      → do_decrypt_udp S true ctx wire (length payload + 60)
        ≡ some (record { packet = opened; len = 14 + length payload; kind = kind; stamp = stamp })
  open-wire k w =
      do_decrypt_udp-eq S ok.gcm ctx kind stamp payload nonce cipher tag ok.keyed ok.calls wire
        s.worker_idx k w (sent-Image S ctx s base kind stamp payload nonce cipher tag at ok)
        (sent-marker S ctx s base kind stamp payload nonce cipher tag at ok)

  opened-low : (i : ℕ) → (i < 12) ⊎ (14 ≤ i) → opened i ≡ low i
  unfolding Eth.set_ipv4_et
  opened-low i h = elim (Bool-cases (kind == 2)) [
    | inl full ↦ rw full (ground (arith, h))
    | inr part ↦ rw part refl
  ]

  -- Behind the Ethernet header stands the payload, before it the addresses.
  pub opened-payload : Holds opened 14 payload
  opened-payload i h =
      opened-low (14 + i) (inr (omega arith))
      ∙ lowered-payload S ok.gcm ctx kind stamp payload nonce cipher tag ok.keyed ok.calls wire i h

  pub opened-below : (i : ℕ) → i < 12 → opened i ≡ base i
  opened-below i h =
      opened-low i (inl h)
      ∙ lowered-below S ok.gcm ctx kind stamp payload nonce cipher tag ok.keyed ok.calls wire i
          (omega arith)
      ∙ sent-outside S ctx s base kind stamp payload nonce cipher tag at ok i h

  pub opened-type : kind ≡ 2 → (opened 12 ≡ 8) × (opened 13 ≡ 0)
  unfolding Eth.set_ipv4_et
  opened-type k = ground (arith, k)

  -- A fragment keeps the encrypted type, so that its prefix has 14 bytes.
  pub opened-prefix : kind ≤ 1 → wire_prefix_len opened (14 + length payload) ≡ some 14
  unfolding wire_prefix_len Eth.l2_prefix_len
  opened-prefix part =
      let im = sent-Image S ctx s base kind stamp payload nonce cipher tag at ok in
      let kept : (i : ℕ) → i < 14 → opened i ≡ wire i = λ i h.
        ap (λ c. (if c then Eth.set_ipv4_et low 12 else low) i) {x = kind == 2} {y = false}
          (ground (arith, part))
        ∙ lowered-below S ok.gcm ctx kind stamp payload nonce cipher tag ok.keyed ok.calls wire i
            h in
      rw
        (inner-marked opened (14 + length payload) (omega arith)
          (kept 12 (omega arith) ∙ im.et_high) (inr (kept 13 (omega arith) ∙ im.et_low)))
        refl

pub ip_types :
    (packet : Mem) (n : ℕ)
    → IsBytes packet
    → Eth.ipv4_offset packet n ≡ some 14
    → (34 ≤ n) × (8 ≡ packet 12) × (0 ≡ packet 13)
unfolding Eth.read_et
ip_types packet n b ip =
    let e = (ipv4_offset_iff packet n 14).0 ip in
    (e.1, omega (arith, e.2, b 12, b 13), omega (arith, e.2, b 12, b 13))

-- Where the cipher's calls succeed and do what GCM promises, an IPv4 frame of at most 9170 bytes
-- is encrypted by a worker that has a sequence number to 46 more bytes, and the receiver with the
-- same key gets back the frame, as one that is whole, with its stamp: its length, and each of its
-- bytes.
pub do_decrypt_udp-do_encrypt_udp :
    {Ctx : Type 0} (S : Scrypt Ctx) (src : EpochSource) (ctx : CryptoCtx) (packet : Mem) (n : ℕ)
    (t s : State) (stamp : Meta) (nonce cipher tag : List ℕ)
    → IsBytes packet
    → Eth.ipv4_offset packet n ≡ some 14
    → n ≤ 9170
    → udp_tx_meta src t ≡ (some stamp, s)
    → IsWord stamp
    → Sealing S ctx s (shimmed 2 stamp (slice packet 14 (n - 14))) nonce cipher tag
    → (sealed : Mem) × ((do_encrypt_udp S src ctx packet n t).0 ≡ some (sealed, n + 46))
      × ((got : Mem) × (do_decrypt_udp S true ctx sealed (n + 46)
            ≡ some (record { packet = got; len = n; kind = 2; stamp = stamp }))
          × Agree n got packet)
do_decrypt_udp-do_encrypt_udp S src ctx packet n t s stamp nonce cipher tag bytes ip short meta word
      ok =
    (
      there,
      ap (λ (r : Option (Mem × ℕ) × State). r.0)
          (do_encrypt_udp-eq S ctx s stamp nonce cipher tag src packet n t ip short meta ok),
      (
        got,
        ap (λ k. do_decrypt_udp S true ctx there k) (omega (arith, len, long.0))
            ∙ open-wire S ctx s base 2 stamp payload nonce cipher tag at ok (omega arith) word
            ∙ ap (λ k. some (opened-as k)) (omega (arith, len, long.0)),
        λ i h. same i h (dec_lt i 12) (dec_lt i 14),
      ),
    )
  where
    payload : List ℕ
    payload = slice packet 14 (n - 14)

    base : Mem
    base = copy packet 44 packet 14 (n - 14)

    at : Holds base 44 payload
    at = copied packet packet 14 (n - 14)

    long : (34 ≤ n) × (8 ≡ packet 12) × (0 ≡ packet 13)
    long = ip_types packet n bytes ip

    len : length payload ≡ n - 14
    len = length-slice packet 14 (n - 14)

    there : Mem
    there = wire S ctx s base 2 stamp payload nonce cipher tag at ok

    got : Mem
    got = opened S ctx s base 2 stamp payload nonce cipher tag at ok

    opened-as : ℕ → Opened
    opened-as k = record { packet = got; len = k; kind = 2; stamp = stamp }

    same : (i : ℕ) → i < n → Dec (i < 12) → Dec (i < 14) → got i ≡ packet i
    same i h (yes p) q =
        opened-below S ctx s base 2 stamp payload nonce cipher tag at ok i p
        ∙ ground (arith, long.0)
    same i h (no p) (yes q) =
        let typed = opened-type S ctx s base 2 stamp payload nonce cipher tag at ok refl in
        elim (dec_lt i 13) [
          | yes r ↦
              ap got {x = i} {y = 12} (omega arith)
              ∙ typed.0
              ∙ long.1
              ∙ ap packet {x = 12} {y = i} (omega arith)
          | no r ↦
              ap got {x = i} {y = 13} (omega arith)
              ∙ typed.1
              ∙ long.2
              ∙ ap packet {x = 13} {y = i} (omega arith)
        ]
    same i h (no p) (no q) =
        ap got {x = i} {y = 14 + (i - 14)} (omega arith)
        ∙ opened-payload S ctx s base 2 stamp payload nonce cipher tag at ok (i - 14)
            (omega (arith, len, long.0))
        ∙ get_or-slice packet 14 (n - 14) (i - 14) (omega (arith, long.0))
        ∙ ap packet (omega arith)
