-- ===== src/Tests/Tables.antt =====
-- Instances for the tables, the rings and the receive queue.
use ne.Base.{
  ℕ, ◌+◌, ◌-◌, ◌*◌, ◌^◌, min, ◌≡◌, refl, true, false, some, List, [], ◌∷◌, ◌++◌, arith, ◌==◌,
  if◌then◌else◌, length, sub32,
}
use ne.Ring.{Ring, ring_init}
use ne.Ring.Fifo.{IsRing, Op, push, push_pair, pop}
use ne.Ring.Refine.{run_ring, run_fifo, ring_init-run}
use ne.L2.{Meta}
use ne.L2.Table.Pick.{pick_slot_lem}
use ne.L2.Table.{probe_slot, probe_base, pick_slot, Table, frag_gc_table, timed_out, clear_entry}
use ne.L2.Table.Gc.{frag_gc_table_lem}
use ne.L2.Reassembly.{new_table}
use ne.Packet.Frames.{IsPool, frames, taken, pool_pop_lem, pool_push_lem}
use ne.Packet.{Pool, first_of, pool_push, pool_pop, no_packet}
use ne.Rx.{Desc, Queue, Origin}
use ne.Rx.Chain.{IsChain}

-- A ring of four slots whose counters are about to wrap, with two elements.
abbrev ring : Ring ℕ
ring = record {
  buf = λ i. i + 10;
  cap = 2 ^ 2;
  mask = 2 ^ 2 - 1;
  head = 1;
  tail = 2 ^ 32 - 1;
  mpsc_pop = false;
}

ring-IsRing : IsRing 2 ring
ring-IsRing = record {
  width = omega arith;
  cap = refl;
  mask = refl;
  head = omega arith;
  tail = omega arith;
  count = omega arith;
}

abbrev ops : List (Op ℕ)
ops = push 1 ∷ push_pair 2 3 ∷ pop ∷ push_pair 4 5 ∷ pop ∷ []

ring_init-run_example :
    (r : Ring ℕ) × (ring_init true 0 (2 ^ 2) false ≡ some r)
    × (run_ring r ops ≡ run_fifo (2 ^ 2) [] ops)
ring_init-run_example = ring_init-run 2 0 false ops (omega arith)

-- A table in which slot 5 holds a fragment of time 1.
abbrev table : Table
table = record {
  gc_cursor = 0;
  entries = λ i.
      if i == 5
      then record (new_table.entries i) { got_first = true; timestamp_ns = 1 }
      else new_table.entries i;
}

frag_gc_table_lem_example :
    ((frag_gc_table table 300000000).entries 5 ≡ (
      if timed_out 300000000 (table.entries 5)
      then clear_entry (table.entries 5)
      else table.entries 5))
    × (timed_out 300000000 ((frag_gc_table table 300000000).entries 5) ≡ false)
    × ((frag_gc_table table 300000000).gc_cursor ≡ table.gc_cursor)
frag_gc_table_lem_example = frag_gc_table_lem table 300000000 5 (omega arith) (omega arith)

abbrev queue : Queue
queue = record {
  rx_pending = 0;
  rejected = [];
  chain = no_packet;
  chain_invalid = false;
  chain_dropped = 0;
}

abbrev origin : Origin
origin = record { dir = 1; wan_idx = 0; local_idx = 0 }

-- A packet of two segments, then one of a single segment.
abbrev descs : List Desc
descs =
    record { addr = 4096; len = 3000; continued = true }
    ∷ record { addr = 8192; len = 100; continued = false }
    ∷ record { addr = 12288; len = 60; continued = false }
    ∷ []

queue-IsChain : IsChain queue.chain
queue-IsChain = record { few = omega arith; short = omega arith; adds_up = refl }

-- A table in which a fragment of the datagram of `stamp` waits in the first slot that is probed.
abbrev stamp : Meta
stamp = record { epoch = 0; seq = 0; datagram_id = 5 }

base-stamp : probe_slot stamp 0 ≡ 5
unfolding probe_base
base-stamp = refl

abbrev waiting_table : Table
waiting_table = record {
  gc_cursor = 0;
  entries = λ i. record (new_table.entries i) { got_first = true; datagram_id = 5 };
}

pick_slot_lem_example :
    ((pick_slot waiting_table stamp 100).1 ≡ probe_slot stamp 0)
    × ((pick_slot waiting_table stamp 100).0.entries (probe_slot stamp 0)
        ≡ waiting_table.entries (probe_slot stamp 0))
pick_slot_lem_example =
    pick_slot_lem waiting_table stamp 100 0 (omega arith) refl λ k p. absurd (omega arith)

-- A pool of four slots with three frames, whose head has wrapped.
abbrev pool : Pool
pool = record { buf = λ i. 4096 * i; cap = 2 ^ 2; mask = 2 ^ 2 - 1; head = 1; tail = 2 ^ 32 - 2 }

pool-IsPool : IsPool 2 pool
pool-IsPool = record {
  width = omega arith;
  cap = refl;
  mask = refl;
  head = omega arith;
  tail = omega arith;
  count = omega arith;
}

pool_pop_lem_example :
    (frames 2 pool ≡ (pool_pop pool 2).1 ++ frames 2 (pool_pop pool 2).0)
    × (length (pool_pop pool 2).1 ≡ taken pool 2)
    × IsPool 2 (pool_pop pool 2).0
pool_pop_lem_example = pool_pop_lem 2 2 pool pool-IsPool

abbrev back : List ℕ
back = 20480 ∷ 24576 ∷ []

pool_push_lem_example :
    (frames 2 (pool_push pool back).0 ≡ frames 2 pool ++ first_of (pool_push pool back).1 back)
    × ((pool_push pool back).1 ≡ min (length back) (2 ^ 2 - sub32 pool.head pool.tail))
    × IsPool 2 (pool_push pool back).0
pool_push_lem_example = pool_push_lem 2 pool back pool-IsPool
