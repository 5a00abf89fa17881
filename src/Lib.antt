-- ===== src/Lib.antt =====
-- A peer of a file-sharing protocol over UDP (src/peer.c): peers ask each other for the chunks of a
-- file (WHOHAS, IHAVE, GET), send a chunk as 512 DATA packets of 1024 bytes, and acknowledge them.
-- The sender keeps a sliding window with congestion control, the receiver a bitmap of what came.
--
-- The parts, and the files that model them:
-- - RecvWin: src/recv_win.c and its header. The bitmap is a function from the word's index to a
--   32-bit word. RecvWin/Bits and RecvWin/Bitmap hold the laws of the bit operations,
--   RecvWin/SlideAck compares the window with the set of the numbers that it holds.
-- - Download: the receiver of src/download.c. `dl_recv` is cut into `dl_measure`, `dl_store` and
--   `dl_answer`, in the order of the source; Download/Content, Recv and Complete follow the content
--   of the buffer through one packet and then through any number of them.
-- - Upload: the sender of src/upload.c, with sending in Upload and acks and timeouts in
--   Upload/Control; `ul_handle_ack` runs `ack_rtt`, `ack_count` and `ack_act`, in this order.
--   Upload/Window and Ahead bound the window from both sides, Progress says which acks are taken,
--   Resend what the timer sends again.
-- - Packet: the record and the macros of src/include/packet.h, and `valid_packet` of src/packet.c.
--   Packet/Send is `send_packet`, which cuts a list of chunks into packets; Packet/Fields, Sent and
--   Readback compare what is written with what a receiver reads.
-- - Chunk: the hexadecimal routines of src/chunk.c; Chunk/Make its `make_chunks`, with `get_numchunks`
--   of src/make_chunks.c. Chunklist: src/chunklist.c and the searches of arrays. Util: the clock and
--   the round-trip time of src/util.c.
-- - Server: the global `psvr` of src/peer_server.c with the peers of src/peerlist.c. Server/Transfer
--   is src/send_helper.c with `dl_save_buffer`, Server/Refresh the scheduling and the timer of
--   src/peer_server.c, Server/Handle the packet handler of src/parse_packet.c with the commands of
--   src/peer.c, Server/Init the start and the turns of the main loop. A handler takes `psvr` and
--   returns the new one, and calls downloads and uploads as the source does.
-- - Server/Counts, Downloads, Claims, Steps, Moves, Good, Consistent and Start are about one
--   invariant of the whole server: each function is a step that leaves the downloads alone (`Same`),
--   lets a peer take up a chunk (`Claim`) or makes it let go of one (`Release`). Server/Queue is about
--   the chunk that a peer is asked for, Server/Failures about a failed `mmap` and an
--   early GET, Server/Silent about a
--   peer that sends nothing more. Server/Main is `main` and the whole loop, with the command line,
--   datagrams and typed lines as they come, and Server/Runs its turns from the start on.
-- - Server/Uploads, Counted, Begins, Limits, Slots and Started are about the number of uploads: each
--   function leaves the flags of the peers alone (`Spares`) or sets one (`Sets`). Server/Loop and
--   Starts carry an invariant from `main` through the loop; DlSlots and DlLimits are about the number
--   of downloads.
-- - Server/Unwritten, Leaves, Rounds, Genuine, Output and Written are about the output file: which
--   functions write nothing (`Spared`, `Leaves`), what the others write, and the turns behind a GET.
--   Server/Ended is about all that the end of a download changes.
-- - LinkedList: src/linkedlist.c on a memory of nodes. LinkedList/Seg and Ring say which list the
--   nodes stand for, Walk is about the loop that deletes, and Find about `find_unfetched_chunk` of
--   src/peer_server.c, whose queue is a list of hashes in Server.
-- - Packet/Encode and Roundtrip: ENCODE_PKT and DECODE_PKT, the bytes of a packet on a little-endian
--   host. Spiffy: src/spiffy.c, datagrams with the header of a router. Server/Inbound:
--   `process_inbound_udp` of src/peer.c from the result of `spiffy_recvfrom` on.
-- - InputBuffer: src/input_buffer.c; Lines cuts a text into lines, Bytes and Handles compare.
-- - BtParse: src/bt_parse.c, the file of peers (Peers) and the command line.
-- - Transfer: one upload and one download, each on its own host, as a relation of steps: a packet
--   that was sent arrives, or a timer is checked. Sender and Receiver say what a step of each end
--   keeps, Wire what their packets are once encoded and decoded, and Correct joins them. A packet may
--   arrive at any time after it was sent, once, often or never: this is about what can never happen,
--   and says nothing of progress. The server's giving up after too many timeouts is not part of it.
-- - Platform: what the program asks of the system. The clock, `mmap`, the file calls and SHA-1
--   (src/sha.c, a copy of another project's code) are fields of a record that every operation takes,
--   indexed by the number of the call; nothing is assumed of them, but that the clock runs, that
--   `mmap` works or that a seek succeeds, where a theorem says so. The packets that are sent, the window log and the bytes saved are kept in
--   `World`.
-- - Base: tests on the native numbers, lists, 32-bit arithmetic, and integers for the C variables of
--   type `int` that may be negative. Examples: the theorems at concrete inputs.
--
-- What C gives no meaning: `strcpy` of a name that overruns its array, more than 1024 peers, and a
-- line of the master chunk file that `readString` cannot hold lead to the outcome `undefined`, of
-- which nothing is claimed. A chunk's offset is the product of two `int`s (`mul_int`); where it
-- overflows it wraps, as the machine does. A hash of more than 40 characters in a list of chunks
-- overruns its array in the source; the model is about lists without one.
--
-- Numbers of type `uint32_t` wrap by `% 2 ^ 32` (`add32`, `sub32`, `mul32`). The loops have a bound of
-- their own in the source, which is the number of rounds here: 1024 for the slide of the window, the
-- room of the window for `ul_send`, the peers, the lines and the hashes that are left elsewhere; none
-- of these runs out of rounds.
--
-- The loops over linked nodes, over the lines in the input buffer and of `make_chunks` have none, and
-- take a number of rounds: more than the nodes, the bytes or the pieces of the file are enough.
--
-- A call of `send_packet` in the server adds its parameters to `sent` in `World`; Packet/Send turns such
-- parameters into packets, and Packet/Encode these into bytes.
--
-- What `getopt`, `atoi`, `sscanf`, `fgets`, `gethostbyname`, `inet_aton`, `getenv`, `read` and
-- `recvfrom` answer are arguments of the functions that call them.
--
-- Not modelled: the print functions, `select`, the making of sockets, logging and debugging, the
-- sample programs, and how a router forwards a datagram. `malloc` fails only where an
-- argument says so. The calls of the clock in arguments of the log are not counted.
pub mod Base
pub mod RecvWin
pub mod Chunklist
pub mod Packet
pub mod Chunk
pub mod Platform
pub mod Util
pub mod Download
pub mod Upload
pub mod Server
pub mod Transfer
pub mod LinkedList
pub mod Spiffy
pub mod InputBuffer
pub mod BtParse
pub mod Examples
