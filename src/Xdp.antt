-- ===== src/Xdp.antt =====
-- The programs that the network card runs: lan_redirect of bpf/lan.c and wan_redirect of
-- bpf/wan.c. `data_len` is what the program may read, `buff_len` the length of the whole frame; a
-- redirect goes to the socket of the queue.
pub mod Verdicts
use ne.Base.{
  ℕ, ◌+◌, Bool, true, false, not, ◌&&◌, ◌||◌, Option, none, some, ltb, ◌==◌, if◌then◌else◌, be16,
  Mem,
}

pub data Verdict : Type 0 where
  pass drop redirect : Verdict

-- The EtherType.
abbrev pub ether_type : Mem → ℕ
ether_type pkt = be16 (pkt 12) (pkt 13)

unfoldable pub lan_redirect : Mem → ℕ → ℕ → Verdict
lan_redirect pkt data_len buff_len =
    let protocol = pkt (14 + 9) in
    let ip_len = be16 (pkt (14 + 2)) (pkt (14 + 3)) in
    if ltb data_len 14
    then pass
    else if not (ether_type pkt == 0x0800) || ltb data_len (14 + 20)
    then pass
    else if not (protocol == 1)
        && not (protocol == 6)
        && not (protocol == 17)
        && not (protocol == 89)
    then pass
    else if ltb ip_len 20
        || ltb 9000 ip_len
        || ltb buff_len (14 + ip_len)
        || ltb (14 + 9000) buff_len
    then drop
    else redirect

-- `encrypted_et` is the entry of wan_config_map.
unfoldable pub wan_redirect : Option ℕ → Mem → ℕ → ℕ → Verdict
wan_redirect encrypted_et pkt data_len buff_len =
    let et = ether_type pkt in
    let configured : Bool = elim encrypted_et [ none ↦ false | some e ↦ not (e == 0) && et == e ] in
    if ltb data_len 14
    then pass
    else if et == 0x8100 || et == 0x88A8
    then pass
    else if not (et == 0x104B || configured)
    then pass
    else if ltb (14 + 9000) buff_len
    then drop
    else redirect
