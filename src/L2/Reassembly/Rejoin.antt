-- ===== src/L2/Reassembly/Rejoin.antt =====
-- l2_udp_split and l2_udp_reasm together.
use ne.L2.Reassembly.{Tables, opt_table, reassemble_udp}
use ne.L2.Table.Probe.{cleaned}
use ne.L2.Table.Pick.{waits}
use ne.L2.Table.{Table, occupied, probe_slot, waiting, joined}
use ne.L2.Reassembly.Through.{plan-IsHeader, sent-IsFragment, receive_both}
use ne.L2.Decrypt.Stamped.{ip_types}
use ne.L2.Split.Parts.{split-eq}
use ne.L2.Split.Plan.{split_plan_fits}
use ne.L2.Shim.{IsWord}
use ne.L2.Split.{Fragments, split_plan, split}
use ne.L2.Encrypt.Frames.{copied}
use ne.L2.Encrypt.Udp.{shimmed}
use ne.L2.Encrypt.Data.{Sealing}
use ne.Crypto.{Scrypt, CryptoCtx, generate_nonce}
use ne.Worker.{State}
use ne.L2.{Meta, EpochSource, udp_tx_meta}
use ne.Base.{
  ℕ, ◌+◌, ◌≤◌, ◌<◌, ◌≡◌, Bool, true, false, some, List, arith, sub64, Mem, IsBytes, copy, slice,
  Agree,
}
use ne.Eth

-- Where the cipher's calls succeed and do what GCM promises, an IPv4 frame of at most 9014 bytes
-- that can be cut is split into two encrypted fragments, if their buffers hold them; a receiver
-- with the same key and a reassembly table, in which no fragment of the datagram waits in its
-- eight slots and one of these is free or has timed out, takes the first fragment and waits; and
-- when the second comes at most 200 ms later, it gives out the frame: its length, and each of its
-- bytes.
pub reassemble_udp-split :
    {Ctx : Type 0} (S : Scrypt Ctx) (src : EpochSource) (ctx : CryptoCtx) (packet : Mem)
    (n k h max0 max1 : ℕ) (out : Mem) (u s : State) (stamp : Meta)
    (nonce1 cipher1 tag1 nonce2 cipher2 tag2 : List ℕ) (memory : Bool) (ts : Tables) (w : ℕ)
    (t : Table) (now1 now2 j : ℕ) (out1 out2 : Mem)
    → IsBytes packet
    → Eth.ipv4_offset packet n ≡ some 14
    → n ≤ 9014
    → split_plan packet n 14 ≡ some (record { frag0_plain_len = k; half2 = h })
    → udp_tx_meta src u ≡ (some stamp, s)
    → IsWord stamp
    → k + 60 ≤ max0
    → h + 60 ≤ max1
    → Sealing S ctx s (shimmed 1 stamp (slice packet (14 + k) h)) nonce2 cipher2 tag2
    → Sealing S ctx (generate_nonce S s).1 (shimmed 0 stamp (slice packet 14 k)) nonce1 cipher1 tag1
    → sub64 now2 now1 ≤ 200000000
    → opt_table memory ts w ≡ some t
    → ((i : ℕ) → i < 8 → waits now1 stamp (t.entries (probe_slot stamp i)) ≡ false)
    → j < 8
    → occupied (cleaned now1 (t.entries (probe_slot stamp j))) ≡ false
    → (f : Fragments) × ((split S src ctx packet n max0 out max1 u).0 ≡ some f)
      × (let (ts1, r1) = reassemble_udp S true memory ts w ctx f.first f.first_len now1 out1 in
          (r1 ≡ waiting)
          × ((whole : Mem) × ((reassemble_udp S true memory ts1 w ctx f.second f.second_len now2
                  out2).1
                ≡ joined whole n)
              × Agree n whole packet))
reassemble_udp-split S src ctx packet n k h max0 max1 out u s stamp nonce1 cipher1 tag1 nonce2
      cipher2 tag2 memory ts w t now1 now2 j out1 out2 bytes ip short plan meta word fit0 fit1 ok2
      ok1 soon has quiet lt free =
    let (long, high, low) = ip_types packet n bytes ip in
    let sizes = split_plan_fits packet n (record { frag0_plain_len = k; half2 = h }) short plan in
    let first =
      sent-IsFragment S ctx (generate_nonce S s).1 stamp packet (copy packet 44 packet 14 k) 0 14 k
        nonce1 cipher1 tag1 (copied packet packet 14 k) ok1 (omega arith) word
        (λ i p. ground arith) in
    let second =
      sent-IsFragment S ctx s stamp packet (copy (copy out 0 packet 0 12) 44 packet (14 + k) h) 1
        (14 + k) h nonce2 cipher2 tag2 (copied (copy out 0 packet 0 12) packet (14 + k) h) ok2
        (omega arith) word (λ i p. ground arith) in
    (
      _,
      split-eq S ctx s stamp packet n k h out nonce1 cipher1 tag1 nonce2 cipher2 tag2 ok2 ok1 src u
          max0 max1 ip (omega (arith, long)) plan meta fit0 fit1,
      receive_both S ctx stamp packet _ _ n k h memory ts w t now1 now2 j out1 out2 first second
          (plan-IsHeader packet n k h plan) (omega (arith, sizes)) high low (omega (arith, short))
          soon has quiet lt free,
    )
