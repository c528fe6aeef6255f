-- ===== src/Lib.antt =====
-- The network encryptor: an AF_XDP bridge between a LAN and a WAN that encrypts IPv4 frames on
-- layer 2 with AES-256-GCM. A frame of the LAN passes bpf/lan.c, a receive thread, the ring of a
-- crypto worker, the worker, and the ring of a transmit thread; a frame of the WAN passes bpf/wan.c
-- and the same stages the other way. The threads share the pool of frames, their rings, and the
-- flags and event descriptors of src/core/dataplane/idle.c. The development models them as pure
-- functions on buffers and states, composed as the code composes them, and as a step relation where
-- single accesses of two threads interleave.
--
-- The files, and the code that each is about (paths from the repository's root):
--   Base (Tests, Lists, Words, Memory, Bits, Slices): the language's words and buffers. A buffer is
--     a function from an index to a byte; 8- to 64-bit arithmetic writes its modulus out.
--   Eth, Eth/Laws: src/crypto/common/eth_parse.c, the parsers (crypto_eth_*).
--   Tcp, Tcp/Sum, Tcp/Walk: crypto_tcp_clamp_mss and its checksum, in the same file.
--   Worker: the thread-locals of a crypto worker, and the monad of the functions that use them.
--   Crypto, Crypto/Nonce, Crypto/Gcm: src/crypto/pqc/traffic_crypto.c and
--     src/crypto/common/packet_crypto.c. libscrypt is the record `Scrypt` of its calls, a parameter;
--     `Gcm.IsGcm` is what its documentation promises of them.
--   L2: src/crypto/pqc/pqc_l2_option.c. Shim and Wire hold the wire format, Encrypt and Decrypt the
--     frames, Split the cut of a large frame in two, Table and Reassembly the way back. Table/Fresh
--     and Table/Pick are about the slot that a first and a second fragment find, Table/Pair about
--     one entry, Reassembly/Whole about the two calls of l2_reassemble, Split/Parts about what a split
--     makes, and Reassembly/Through and Rejoin about a frame that is cut, sent and put together.
--   Ring: struct ne_ring of src/core/iface/xdp_interface.c; Ring/Fifo and Ring/Refine are about it and a
--     bounded queue, Ring/Next is about one call.
--   Packet, Packet/Frames, Packet/Room: struct ne_pool and struct ne_packet there (ne_frame_*,
--     ne_packet_*).
--   Umem: pool_init, drain_cq_queue, refill_fq_queue and prefill_queue there, the frames that go to
--     the kernel and come back. Refilled, Completed and Received are about the frames on that way.
--   Rx (Chain, Slots): recv_queue, release_rx_queue and the queues of a slot there. Rx/Recv: the
--     loops over interfaces and queues, ne_recv_local_slot and ne_recv_wan_slot.
--   Tx (Whole, Send, Slot): tx_drain_queue, tx_drain_iface_ring and the loops above them there. libxdp's
--     producer ring is the record `Producer` of its calls, a parameter; `IsProducer` is what its
--     documentation promises of a reservation.
--   Flow, Route (Assign, Number; Sticky, Balance, Seq): dp_parse_flow of
--     src/core/dataplane/packet_util.c, and crypto_route.c beside it.
--   Dataplane (Egress, Ingress, Drops): local_egress.c and wan_ingress.c, beside it too.
--   Idle: src/core/dataplane/idle.c. Idle/Thresholds is about the adaptive idling, Idle/WakeAll about
--     ne_dp_idle_wake_all. Idle/Handshake has the steps of a worker that falls asleep
--     (crypto_idle_pause and crypto_worker_thread of src/core/forwarder/forwarder.c) and of a producer
--     that wakes it; Wakeup and Lost are about the runs of these steps.
--   Forwarder (Slots, Burst; Hub, Dispatch; Threads, Created, StartAll, Joins; Setup, Undo, Made, Opened):
--     src/core/forwarder/forwarder.c. Hub holds the work of the receive and crypto threads on what
--     they have received, Threads the creation and the end of all threads, Setup forwarder_init and
--     forwarder_cleanup; what pthread_create, allocations and the set-up of interfaces answer is a
--     parameter.
--   Cpu, Cpu/Roles: src/core/util/cpu_map.c and its header.
--   Xdp: bpf/lan.c and bpf/wan.c.
--   Tests: a toy cipher, small frames and tables, and an instance of each theorem.
--
-- Bounds and fuel. Loops over arrays of a fixed size recurse on the number of rounds left. The
-- option walk of the MSS clamp has 40 rounds of fuel, and no answer when they are used up: a TCP header
-- has at most 40 bytes of options, and each round passes one. The fold of a checksum has three rounds, for the sum of three words.
-- The loop over completions has one round more than there are completions, since each round but the
-- last takes one at least; the first filling has more rounds than frames are wanted.
--
-- Locks and atomics: an operation that holds its lock throughout is one step; so is the pop of a ring
-- with one consumer, which takes no lock, and a count of a ring, whose two loads are taken as one; a
-- flow's entry is immutable once it is valid, so that a lookup is one step too. Calls of the same table
-- by several threads are sequences of such steps. In the handshake of idling each access of a shared
-- variable is a step, and since the accesses are only release and acquire, a store may become visible
-- to the others after later loads of its own thread: the worker's stores to its flag wait in a list,
-- the packets of the producers in a count, and both become visible at any time. A poll() that times
-- out is a step of the worker.
--
-- Not modelled: set-up and attachment of interfaces (src/core/iface/xdp_attach.c and the opening of
-- sockets in xdp_interface.c), which only call the kernel and libxdp; the system calls that kick the
-- kernel, and the lists of descriptors for poll(); signals; the constants of src/core/util/static_config.c;
-- messages on stderr; and the vendored headers under include/.
pub mod Base
pub mod Eth
pub mod Worker
pub mod Crypto
pub mod L2
pub mod Ring
pub mod Flow
pub mod Route
pub mod Packet
pub mod Tcp
pub mod Rx
pub mod Xdp
pub mod Dataplane
pub mod Tests
pub mod Tx
pub mod Umem
pub mod Idle
pub mod Cpu
pub mod Forwarder
