-- ===== src/Server/Handle.antt =====
-- `parse_packet` of src/parse_packet.c, the handler of every packet, and `process_get` of
-- src/peer.c, which starts the download of a file.
use peer_server.Base.{
  ℕ, Bool, true, false, ◌||◌, not, Option, none, some, List, ltb, ◌==◌, if◌then◌else◌, length,
}
use peer_server.Base.Int.{ℤ, pos, pred, ltb_ℤ}
use peer_server.Chunklist.{ChunkList, unfetched, is_fetched, parse_chunk}
use peer_server.Packet.{
  Packet, type_whohas, type_ihave, type_get, type_data, type_ack, valid_packet,
}
use peer_server.Platform.{Platform}
use peer_server.Util.{get_timestamp_now}
use peer_server.Download.{dl_recv}
use peer_server.Server.{PeerServer, Addr, set_peer, set_state, addr2index, hash2index}
use peer_server.Server.Transfer.{
  send_whohas, send_ihave, parse_download, get_hash, check_hash_succeed, dl_save_buffer,
  start_upload, update_upload, finish_upload,
}
use peer_server.Server.Refresh.{try_send_get, refresh_chunk_download, put_download}

unfoldable pub set_alive : PeerServer → ℕ → PeerServer
set_alive s i = set_peer s i (record (s.peers i) { is_alive = true })

unfoldable pub set_uploading : PeerServer → ℕ → Bool → PeerServer
set_uploading s i b = set_peer s i (record (s.peers i) { is_uploading = b })

-- The cases of the switch, one function for each.
unfoldable pub on_whohas : PeerServer → Packet → ℕ → PeerServer
on_whohas s pkt i =
    if not (ltb_ℤ s.ul_num s.max_conn)
    then s
    else if (s.peers i).is_uploading
    then set_alive s i
    else send_ihave (set_alive s i) pkt i

unfoldable pub on_ihave : Platform → PeerServer → Packet → ℕ → PeerServer
on_ihave plat s pkt i =
    let parsed = parse_download (set_alive s i) pkt i in
    if (s.peers i).is_downloading
    then set_alive s i
    else if not (ltb_ℤ s.dl_num s.max_conn)
    then parsed
    else try_send_get plat parsed i

-- The end of the GET case: an earlier upload is stopped, and the peer is marked as uploading even
-- if `start_upload` fails.
unfoldable pub begin_upload : Platform → PeerServer → ℕ → ℕ → PeerServer
begin_upload plat s i has_index =
    let stopped = if (s.peers i).is_uploading then finish_upload plat s i else s in
    set_uploading (start_upload plat stopped i has_index) i true

unfoldable pub on_get : Platform → PeerServer → Packet → ℕ → PeerServer
on_get plat s pkt i =
    if not (s.peers i).is_alive
    then s
    else if not (ltb_ℤ s.ul_num s.max_conn)
    then s
    else elim (hash2index s.haschunks (get_hash pkt 0)) [
      | none ↦ s
      | some has_index ↦ begin_upload plat s i has_index
    ]

-- A chunk that is not saved is put back.
unfoldable pub put_back : PeerServer → ℕ → PeerServer
put_back s c = if is_fetched (s.getchunks.chunks c).state then s else set_state s c unfetched

-- The end of a download.
unfoldable pub end_download : Platform → PeerServer → ℕ → PeerServer
end_download plat s i =
    let dl = (s.peers i).dl in
    let freed = record (set_peer s i (record (s.peers i) { is_downloading = false })) {
      dl_num = pred s.dl_num;
    } in
    let saved = if check_hash_succeed plat freed dl then dl_save_buffer plat freed dl else freed in
    put_back saved dl.get_index

unfoldable pub refresh_if_needed : Platform → PeerServer → PeerServer
refresh_if_needed plat s = if ltb_ℤ (pos 0) s.dl_remain then refresh_chunk_download plat s else s

unfoldable pub on_data : Platform → PeerServer → Packet → ℕ → PeerServer
on_data plat s pkt i =
    let r = dl_recv plat (s.peers i).dl pkt s.world in
    let received = put_download s i r in
    if not (s.peers i).is_alive || not (s.peers i).is_downloading
    then s
    else if r.dl.finished
    then refresh_if_needed plat (end_download plat received i)
    else received

unfoldable pub on_ack : Platform → PeerServer → Packet → ℕ → PeerServer
on_ack plat s pkt i =
    let updated = update_upload plat s i pkt.ack in
    if not (s.peers i).is_alive || not (s.peers i).is_uploading
    then s
    else if (updated.peers i).ul.finished
    then set_uploading (finish_upload plat updated i) i false
    else updated

-- The switch.
unfoldable pub dispatch : Platform → PeerServer → Packet → ℕ → PeerServer
dispatch plat s pkt i =
    if pkt.type == type_whohas
    then on_whohas s pkt i
    else if pkt.type == type_ihave
    then on_ihave plat s pkt i
    else if pkt.type == type_get
    then on_get plat s pkt i
    else if pkt.type == type_data
    then on_data plat s pkt i
    else if pkt.type == type_ack
    then on_ack plat s pkt i
    else s

-- A packet of an address that is not in the peer list is refused.
unfoldable pub parse_packet : Platform → PeerServer → Packet → Addr → PeerServer
parse_packet plat s pkt addr = elim (addr2index s addr) [
  | none ↦ s
  | some i ↦ dispatch plat s pkt i
]

-- `process_inbound_udp` behind the call of `recvfrom`.
unfoldable pub process_inbound_udp : Platform → PeerServer → Packet → Addr → PeerServer
process_inbound_udp plat s pkt addr = if valid_packet pkt then parse_packet plat s pkt addr else s

-- BT_FILENAME_LEN.
abbrev pub bt_filename_len : ℕ
bt_filename_len = 255

-- `process_get` behind its checks and the parsing of the chunk file.
unfoldable pub start_get : Platform → PeerServer → ChunkList → PeerServer
start_get plat s getchunks =
    let asked = send_whohas (record s { getchunks = getchunks; dl_remain = pos getchunks.count }) in
    let (now, w) = get_timestamp_now plat asked.world in
    record asked { world = w; last_whohas = now }

-- The file's lines are what `fscanf` reads from it; `none` is a file that cannot be opened.
unfoldable pub process_get :
    Platform → PeerServer → List ℕ → Option (List (ℤ × List ℕ)) → List ℕ → PeerServer
process_get plat s chunkfile lines outputfile =
    let named = record s { dl_filename = outputfile; getchunk_file = chunkfile } in
    if not (ltb (length outputfile) bt_filename_len)
    then s
    else if not (ltb (length chunkfile) bt_filename_len)
    then s
    else elim (parse_chunk s.getchunks lines) [
      | none ↦ named
      | some getchunks ↦ start_get plat named getchunks
    ]
