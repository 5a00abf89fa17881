-- ===== src/Server/Init.antt =====
-- `init_peerlist` of src/peerlist.c, `peer_init` of src/peer_server.c and the turns of `peer_run`.
use peer_server.Base.{
  zero, suc, Bool, true, false, leb, ◌-◌, ℕ, ◌+◌, ◌&&◌, not, Option, none, some, List, [], ◌∷◌,
  ◌==◌, if◌then◌else◌, update,
}
use peer_server.Base.Int.{ℤ, pos}
use peer_server.Chunklist.{ChunkList, parse_chunk}
use peer_server.Packet.{Packet}
use peer_server.Platform.{Platform, tick}
use peer_server.Util.{get_timestamp_now}
use peer_server.Server.{Addr, Peer, PeerServer, init_peer}
use peer_server.Server.Refresh.{check_all_timeout}
use peer_server.Server.Handle.{process_inbound_udp}

pub record BtPeer : Type 0 where
  pub id : ℕ
  pub addr : Addr

-- The part of `psvr.config` that is read, and what `fscanf` reads from the file of owned chunks.
pub record BtConfig : Type 0 where
  pub identity : ℕ
  pub peers : List BtPeer
  pub max_conn : ℤ
  pub has_chunks : Option (List (ℤ × List ℕ))

pub record PeerList : Type 0 where
  pub peers : ℕ → Peer
  pub count : ℕ

-- MAX_PEER_NUM, the length of the array in `psvr`.
abbrev pub max_peer_num : ℕ
max_peer_num = 1024

-- The loop of `init_peerlist`, with the number of peers written so far. It does not look at the
-- length of the array: more than `max_peer_num` peers are written past it, see `is_defined`.
unfoldable pub fill_peers : ℕ → List BtPeer → (ℕ → Peer) → ℕ → PeerList
fill_peers selfid [] peers i = record { peers = peers; count = i }
fill_peers selfid (p ∷ ps) peers i =
    let skip = fill_peers selfid ps peers i in
    let named = record (peers i) { id = p.id; addr = p.addr } in
    let take = fill_peers selfid ps (update peers i (init_peer named)) (i + 1) in
    if p.id == selfid then skip else take

unfoldable pub init_peerlist : PeerServer → List BtPeer → ℕ → PeerServer
init_peerlist s peers selfid =
    let filled = fill_peers selfid peers s.peers 0 in
    record s { peers = filled.peers; peer_count = filled.count }

-- The last assignments of `peer_init`.
unfoldable pub set_counters : PeerServer → BtConfig → ChunkList → PeerServer
set_counters s config haschunks = record s {
  haschunks = haschunks;
  getchunks = record (s.getchunks) { count = 0 };
  max_conn = config.max_conn;
  dl_num = pos 0;
  dl_remain = pos 0;
  ul_num = pos 0;
}

-- BUFFER.
abbrev pub buffer_size : ℕ
buffer_size = 256

-- `readString`, on the characters that are left in the file, with the room left in the block from
-- `malloc`. `none` is what C gives no meaning: the end of the file does not stop the loop, and the
-- block that `realloc` returns is not used.
unfoldable pub read_string : ℕ → List ℕ → Option (List ℕ)
read_string room [] = none
read_string zero (c ∷ cs) = if c == 10 then some [] else none
read_string (suc room) (c ∷ cs) =
    let rest = read_string room cs in
    if c == 10 then some [] else elim rest [ none ↦ none | some line ↦ some (c ∷ line) ]

-- What `peer_init` does has a meaning in C if the peers fit their array, and if the line of the
-- master chunk file, behind "File: ", fits the first block.
unfoldable pub is_defined : BtConfig → List ℕ → PeerServer → Bool
is_defined config master s =
    leb (init_peerlist s config.peers config.identity).peer_count max_peer_num
    && elim (read_string (buffer_size - 1) master) [ none ↦ false | some line ↦ true ]

-- `none` stands for -1, after which the program exits. This is what `peer_init` does if it
-- `is_defined`; then `readString` does not fail.
unfoldable pub peer_init : Platform → BtConfig → PeerServer → Option PeerServer
peer_init plat config s =
    let (start, w₁) = get_timestamp_now plat s.world in
    let w₂ = tick w₁ in
    let w₃ = tick w₂ in
    let w₄ = if s.world.no_output then w₃ else tick w₃ in
    let listed = init_peerlist s config.peers config.identity in
    if start == 0
    then none
    else if not (plat.open_file w₁.calls)
    then none
    else if not (plat.open_file w₂.calls)
    then none
    else if not s.world.no_output && not (plat.open_file w₃.calls)
    then none
    else elim (parse_chunk s.haschunks config.has_chunks) [
      | none ↦ none
      | some haschunks ↦
          some (
            set_counters (record listed { world = record w₄ { start_ts = start } }) config
              haschunks)
    ]

-- A turn of the loop of `peer_run` in which the user gives no command: a packet may have arrived,
-- and the timeouts are checked in any case.
unfoldable pub run_turn : Platform → PeerServer → Option (Packet × Addr) → PeerServer
run_turn plat s none = check_all_timeout plat s
run_turn plat s (some (pkt, addr)) = check_all_timeout plat (process_inbound_udp plat s pkt addr)

unfoldable pub run_turns : Platform → PeerServer → List (Option (Packet × Addr)) → PeerServer
run_turns plat s [] = s
run_turns plat s (turn ∷ turns) = run_turns plat (run_turn plat s turn) turns
