-- ===== src/Lib.antt =====
-- proc_bridge: message passing between processes, over shared memory on one host and TCP
-- between hosts. A process talks to its carrier through a hub in shared memory, which holds a
-- circular queue for each direction; the carrier takes packages off the send queue, puts them
-- into the buffer of the connection to the peer's carrier, and delivers what comes from other
-- carriers to the receive queue.
--
-- The modules, and the code that each is about (paths from the repository's root):
--   Base      shared names: Boolean tests, lists, the C `int`, byte memory with `memcpy`.
--   Package   bridge_package_head_t of src/library/proc_bridge_base.h; Codec: heads to bytes
--             and back.
--   Hub       bridge_hub_t of src/library/proc_bridge_base.h, get_snd_bit of
--             src/library/proc_bridge.c, set_snd_bit and clr_snd_bit of
--             src/carrier/carrier_lib.c; Bitmap: their laws.
--   Ring      the copies into and out of a circular byte queue, which the code writes out in
--             line in _send_to_bridge, _recv_from_bridge, fetch_send_channel and
--             append_recv_channel; Laws: positions; Content: a queue as the list of its bytes.
--   Channel   _send_to_bridge and _recv_from_bridge of src/library/proc_bridge.c,
--             append_recv_channel of src/carrier/carrier_lib.c, fetch_send_channel and
--             try_fetch_send_head of src/carrier/bridge_carrier.c. Queue is the contract, a
--             list of packages; Send, Recv, Append and Fetch are about one operation each, Packed about
--             fetch_send_channel_stlv.
--   Concurrent  _send_to_bridge of src/library/proc_bridge.c and fetch_send_channel of
--             src/carrier/bridge_carrier.c cut into their accesses to the hub, which run in any
--             interleaving. Stale is about a copy by a head that was loaded earlier, Invariant
--             about what holds between two accesses, Writes and Sends about the accesses of the
--             process, Reads and Fetches about those of the carrier, Fifo about the whole; Alone
--             compares with the functions, Race is about sending_count.
--   Bridge    open_bridge, close_bridge, send_to_bridge, recv_from_bridge and bd2bridge of
--             src/library/proc_bridge.c: the descriptors of a process. Calls has the calls on a
--             descriptor; Slots the invariant of the list; Open, Room, Close and Sending are
--             about the operations.
--   Client    recv_client_pkg, expand_recv_buff and flush_recving_buff of
--             src/carrier/bridge_carrier.c: packages that wait while the receive queue is full.
--   Target    the send buffer of a connection: flush_target, flush_target_1, flush_target_2,
--             expand_target_buff, pkg_2_target_stlv and pkg_2_target (Pack) of
--             src/carrier/carrier_lib.c,
--             check_snd_buff_memory of src/carrier/bridge_carrier.c. Stream, Put, Grow and
--             Shrink are about the bytes that wait, Block and Margin about the blocking of a
--             peer, Stray about a buffer that is shrunk while it is empty.
--   HashMap   init_target_hash_map, insert_hash_map, del_from_hash_map, fetch_hash_entry,
--             clear_hash_map, check_target_hash_map and check_client_hash_map of
--             src/carrier/carrier_base.c, as a finite map, and check_hash of
--             src/carrier/bridge_carrier.c.
--   Stlv      the packer and the unpacker of the library stlv, as parameters with their contract.
--   Carrier   carrier_env_t of src/carrier/carrier_base.h with the targets as a memory,
--             close_target_fd and proc_id2_target of src/carrier/carrier_lib.c; Counts: the counts
--             of packages.
--   Sending   append_sending_node, iter_sending_list and del_sending_list of
--             src/carrier/carrier_lib.c. Linked is the invariant of the list and the flags, Visit
--             and Iter are about the loop, Round about the whole.
--   Dispatch  dispatch_bridge of src/carrier/bridge_carrier.c. Step is what each stage keeps, Stages,
--             Expand and Save are about the stages, Whole about the outcome for a package. Loop has
--             the loop, Queue and Order are about the send queue; Inner has
--             inner_send_pkg of src/carrier/carrier_lib.c, Answer is about it.
--   Reading   read_client_socket of src/carrier/bridge_carrier.c. Stream is about the unpacking
--             loop, Whole about the cutting of the stream, Values about whole packs from a peer;
--             Keeps lifts what the handling of a package keeps to the whole, Deliver is about the
--             packages of a verified client, Refuse about those of another.
--   Reload    copy_target_info and del_one_target of src/carrier/bridge_carrier.c. Update and Each are
--             about the loop over the configuration, Delete about the loop over the targets, Whole
--             about both.
--   Config    parse_proc_info of src/carrier/carrier_lib.c, parse_target_list, the loop of
--             read_carrier_cfg and copy_target_info at the start of src/carrier/bridge_carrier.c.
--             Strings has the calls of the C library on strings, Text is about them and decimal
--             numbers, Lines about a configuration as it is written, Start about the targets
--             that the carrier starts with, Last about the last line.
--   Verify    gen_verify_key and do_verify_key of src/carrier/carrier_lib.c.
--   Ticker    append_carrier_ticker and iter_time_ticker of src/carrier/carrier_base.c.
-- In each of them a module Tests runs the code on small values.
--
-- State is passed explicitly: an operation takes the record of its struct and gives the new
-- record with the return code. Memory is a function from addresses to bytes. An `int` that can
-- be negative is a ℤ; an unsigned number is a natural number, with its wrap-around written as a
-- remainder where it can happen. A return code stands where the code returns it. Logging is
-- left out.
--
-- Parameters stand for what is not the repository's code: the outcomes of `send`, whether
-- `calloc` has memory, the clock, the lines of a file, the shared memory behind a name. The loop of
-- _recv_from_bridge is a recursion on fuel, one round more than the bytes of the queue; each
-- round takes a head of 21 bytes off, so that the fuel is enough. The loop of
-- flush_recving_buff is a recursion on the rounds until its 20 ms are over. The loop that unpacks
-- what was received runs on one round more than there are bytes, each pack taking one at least. The
-- loop over recv goes through a list of what its calls give; where the list ends before a call that
-- gives no data, the reading has no result. The reader carries a log of the values that were cut
-- off, which is not a field of the code's client.
--
-- Not modelled: two processes on the receive queue at the same moment (on the send queue they are,
-- with a copy as one access and all accesses in the order of the program), the library stlv,
-- sockets and epoll, the manager and its messages, create_bridge and delete_bridge (calls of the
-- system), the demos, the Go binding and the scripts. An offset of a buffer is read as a number, so
-- a write beyond the end of a buffer is a write to a larger address; the arrays pack_buff, stlv_buff
-- and buff on the stack have no size, so a package longer than BRIDGE_PACK_LEN (100 KB and a head)
-- is read and packed where the code would write beyond them.
pub mod Base
pub mod Ring
pub mod Package
pub mod Hub
pub mod Stlv
pub mod Channel
pub mod Target
pub mod HashMap
pub mod Bridge
pub mod Client
pub mod Concurrent
pub mod Config
pub mod Ticker
pub mod Sending
pub mod Dispatch
pub mod Verify
pub mod Reading
pub mod Reload
pub mod Carrier
