-- ===== src/L2/Reassembly/Through.antt =====
-- The fragments of a frame that is cut in two, as the receiver opens them and as its table takes
-- them.
use ne.L2.Reassembly.{Tables, opt_table, put_table, table_index, reassemble, reassemble_udp}
use ne.L2.Table.Probe.{cleaned}
use ne.L2.Table.Pick.{waits}
use ne.L2.Table.{Table, occupied, probe_slot, Joined, waiting, joined}
use ne.L2.Wire.{wire_prefix_len}
use ne.L2.Table.Pair.{IsWhole}
use ne.L2.Reassembly.Whole.{IsHeader, reassemble_in_order}
use ne.L2.Decrypt.Stamped.{opened, open-wire, opened-payload, opened-below, opened-prefix}
use ne.L2.Decrypt.{Opened, do_decrypt_udp}
use ne.L2.Shim.{IsWord}
use native.Mathlib.Decide.{dec_lt}
use ne.Base.Slices.{Holds, length-slice, get_or-slice}
use ne.L2.Split.{split_plan}
use ne.L2.Encrypt.Udp.{shimmed, sent}
use ne.L2.Encrypt.Data.{Sealing}
use ne.Crypto.{Scrypt, CryptoCtx}
use ne.Worker.{State}
use ne.L2.{Meta}
use ne.Base.{
  ℕ, ◌+◌, ◌-◌, ◌≤◌, ◌<◌, ◌≡◌, sym, ap, ◌∙◌, Bool, true, false, some, List, arith, sub64, shr, Mem,
  slice, Agree,
}

-- The table that a worker has stays its table.
opt_table_again :
    (memory : Bool) (ts : Tables) (w : ℕ) (t : Table)
    → opt_table memory (put_table ts (table_index w) t) w ≡ some t
unfolding opt_table
opt_table_again memory ts w t = ground arith

-- A fragment that is opened goes to the worker's table.
receive_fragment :
    {Ctx : Type 0} (S : Scrypt Ctx) (memory : Bool) (ts : Tables) (w : ℕ) (ctx : CryptoCtx)
    (m : Mem) (n now : ℕ) (out : Mem) (r : Opened) (t : Table)
    → do_decrypt_udp S true ctx m n ≡ some r
    → r.kind ≤ 1
    → opt_table memory ts w ≡ some t
    → reassemble_udp S true memory ts w ctx m n now out ≡ (
      put_table ts (table_index w) (reassemble t r.packet r.len r.stamp r.kind now out).0,
      (reassemble t r.packet r.len r.stamp r.kind now out).1,
    )
unfolding reassemble_udp
receive_fragment S memory ts w ctx m n now out r t opens part has = ground (arith, opens, has, part)

-- A frame that is cut begins with an IPv4 header, which is in the first fragment.
pub plan-IsHeader :
    (packet : Mem) (n k h : ℕ)
    → split_plan packet n 14 ≡ some (record { frag0_plain_len = k; half2 = h })
    → IsHeader packet k
unfolding split_plan
plan-IsHeader packet n k h plan = record {
  version = ground (arith, plan);
  long = ground (arith, plan);
  inside_len = ground (arith, plan);
}

moved-IsHeader : (m m' : Mem) (k : ℕ) → m' 14 ≡ m 14 → IsHeader m k → IsHeader m' k
moved-IsHeader m m' k same header = record {
  version = ap (λ b. shr b 4) same ∙ header.version;
  long = rw same header.long;
  inside_len = rw same header.inside_len;
}

-- A whole made of two opened fragments is the frame.
pub IsWhole-Agree :
    (packet a b whole : Mem) (n k h : ℕ)
    → 14 + k + h ≡ n
    → 8 ≡ packet 12
    → 0 ≡ packet 13
    → ((i : ℕ) → i < 12 → a i ≡ packet i)
    → ((i : ℕ) → i < k → a (14 + i) ≡ packet (14 + i))
    → ((i : ℕ) → i < h → b (14 + i) ≡ packet (14 + k + i))
    → IsWhole a a 14 k b 14 h whole
    → Agree n whole packet
IsWhole-Agree packet a b whole n k h total high low below fst snd made i lt = elim (dec_lt i 12) [
  | yes p ↦ made.addresses i p ∙ below i p
  | no p ↦ elim (dec_lt i 13) [
    | yes q ↦
        ap whole {x = i} {y = 12} (omega arith)
        ∙ made.type_high
        ∙ high
        ∙ ap packet {x = 12} {y = i} (omega arith)
    | no q ↦ elim (dec_lt i 14) [
      | yes r ↦
          ap whole {x = i} {y = 13} (omega arith)
          ∙ made.type_low
          ∙ low
          ∙ ap packet {x = 13} {y = i} (omega arith)
      | no r ↦ elim (dec_lt i (14 + k)) [
        | yes u ↦
            ap whole {x = i} {y = 14 + (i - 14)} (omega arith)
            ∙ made.first_part (i - 14) (omega arith)
            ∙ fst (i - 14) (omega arith)
            ∙ ap packet {x = 14 + (i - 14)} {y = i} (omega arith)
        | no u ↦
            ap whole {x = i} {y = 14 + k + (i - (14 + k))} (omega arith)
            ∙ made.second_part (i - (14 + k)) (omega arith)
            ∙ snd (i - (14 + k)) (omega arith)
            ∙ ap packet {x = 14 + k + (i - (14 + k))} {y = i} (omega arith)
      ]
    ]
  ]
]

-- A frame on the wire that the receiver opens as a fragment: `l` bytes of the packet, from byte
-- `from` on, behind the packet's addresses.
pub record IsFragment {Ctx : Type 0} (S : Scrypt Ctx) (ctx : CryptoCtx) (stamp : Meta)
    (packet m : Mem) (kind from l : ℕ) : Type 0 where
  pub got : Mem
  pub opens :
      do_decrypt_udp S true ctx m (l + 60)
      ≡ some (record { packet = got; len = 14 + l; kind = kind; stamp = stamp })
  pub prefix : wire_prefix_len got (14 + l) ≡ some 14
  pub addresses : (i : ℕ) → i < 12 → got i ≡ packet i
  pub part : (i : ℕ) → i < l → got (14 + i) ≡ packet (from + i)

-- What a sender makes of a part of the packet is such a frame.
pub sent-IsFragment :
    {Ctx : Type 0} (S : Scrypt Ctx) (ctx : CryptoCtx) (s : State) (stamp : Meta) (packet base : Mem)
    (kind from l : ℕ) (nonce cipher tag : List ℕ)
    → (at : Holds base 44 (slice packet from l))
    → (ok : Sealing S ctx s (shimmed kind stamp (slice packet from l)) nonce cipher tag) → kind ≤ 1
    → IsWord stamp
    → ((i : ℕ) → i < 12 → base i ≡ packet i)
    → IsFragment S ctx stamp packet
        (sent S ctx s base kind stamp (slice packet from l) nonce cipher tag at ok)
        kind
        from
        l
sent-IsFragment S ctx s stamp packet base kind from l nonce cipher tag at ok small word low =
    let payload = slice packet from l in
    let len = length-slice packet from l in
    let there = sent S ctx s base kind stamp payload nonce cipher tag at ok in
    let here = opened S ctx s base kind stamp payload nonce cipher tag at ok in
    record {
      got = here;
      opens =
          ap (λ j. do_decrypt_udp S true ctx there (j + 60)) (sym len)
          ∙ open-wire S ctx s base kind stamp payload nonce cipher tag at ok (omega (arith, small))
              word
          ∙ ap (λ j. some (record { packet = here; len = 14 + j; kind = kind; stamp = stamp })) len;
      prefix =
          ap (λ j. wire_prefix_len here (14 + j)) (sym len)
          ∙ opened-prefix S ctx s base kind stamp payload nonce cipher tag at ok small;
      addresses =
          λ i p. opened-below S ctx s base kind stamp payload nonce cipher tag at ok i p ∙ low i p;
      part = λ i p.
          opened-payload S ctx s base kind stamp payload nonce cipher tag at ok i
            (omega (arith, len, p))
          ∙ get_or-slice packet from l i p;
    }

-- Both fragments of a packet, the one after the other, at a worker that has the table `t`.
pub receive_both :
    {Ctx : Type 0} (S : Scrypt Ctx) (ctx : CryptoCtx) (stamp : Meta) (packet m1 m2 : Mem)
    (n k h : ℕ) (memory : Bool) (ts : Tables) (w : ℕ) (t : Table) (now1 now2 j : ℕ)
    (out1 out2 : Mem)
    → IsFragment S ctx stamp packet m1 0 14 k
    → IsFragment S ctx stamp packet m2 1 (14 + k) h
    → IsHeader packet k
    → 14 + k + h ≡ n
    → 8 ≡ packet 12
    → 0 ≡ packet 13
    → n ≤ 9216
    → sub64 now2 now1 ≤ 200000000
    → opt_table memory ts w ≡ some t
    → ((i : ℕ) → i < 8 → waits now1 stamp (t.entries (probe_slot stamp i)) ≡ false)
    → j < 8
    → occupied (cleaned now1 (t.entries (probe_slot stamp j))) ≡ false
    → let (ts1, r1) = reassemble_udp S true memory ts w ctx m1 (k + 60) now1 out1 in
      (r1 ≡ waiting)
      × ((whole : Mem) × ((reassemble_udp S true memory ts1 w ctx m2 (h + 60) now2 out2).1
            ≡ joined whole n)
          × Agree n whole packet)
receive_both S ctx stamp packet m1 m2 n k h memory ts w t now1 now2 j out1 out2 f1 f2 header total
      high low fits soon has quiet lt free =
    let one =
      receive_fragment S memory ts w ctx m1 (k + 60) now1 out1
        (record { packet = f1.got; len = 14 + k; kind = 0; stamp = stamp }) t f1.opens (omega arith)
        has in
    let t1 = (reassemble t f1.got (14 + k) stamp 0 now1 out1).0 in
    let two =
      receive_fragment S memory (put_table ts (table_index w) t1) w ctx m2 (h + 60) now2 out2
        (record { packet = f2.got; len = 14 + h; kind = 1; stamp = stamp }) t1 f2.opens
        (omega arith) (opt_table_again memory ts w t1) in
    let starts =
      moved-IsHeader packet f1.got k (f1.part 0 (omega (arith, header.long, header.inside_len)))
        header in
    let (wait, (whole, joins, made)) =
      reassemble_in_order stamp f1.got f2.got k h now1 now2 out1 out2 f1.prefix f2.prefix starts
        (omega (arith, total, fits)) soon t j quiet lt free in
    (
      ap (λ (p : Tables × Joined). p.1) one ∙ wait,
      (
        whole,
        ap
              (λ (p : Tables × Joined).
                (reassemble_udp S true memory p.0 w ctx m2 (h + 60) now2 out2).1)
              one
            ∙ ap (λ (p : Tables × Joined). p.1) two
            ∙ joins
            ∙ ap (λ l. joined whole l) total,
        IsWhole-Agree packet f1.got f2.got whole n k h total high low f1.addresses f1.part f2.part
            made,
      ),
    )
