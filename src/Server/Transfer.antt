-- ===== src/Server/Transfer.antt =====
-- src/send_helper.c, and `dl_save_buffer` of src/download.c: what the packet handler and the timer
-- do to `psvr` around the downloads and the uploads.
use peer_server.Base.{
  ℕ, zero, suc, ◌+◌, Bool, not, none, some, List, [], ◌∷◌, ◌==◌, if◌then◌else◌, update, take,
  get_or,
}
use peer_server.Base.Int.{ℤ, mul_int, pos, negsuc, succ, pred}
use peer_server.Chunk.{binary2hex}
use peer_server.Chunklist.{unfetched, fetching, fetched, ChunkList, str_eq}
use peer_server.Packet.{Packet, get_chunk_cnt, hash_offset, type_whohas, type_ihave, type_get}
use peer_server.Platform.{Platform, Saved, World, PktParam, pkt_param_clear, emit, tick}
use peer_server.Download.{Download, dl_init, chunk_size}
use peer_server.Upload.{Sent, ul_init, ul_send, ul_deinit}
use peer_server.Upload.Control.{ul_handle_ack}
use peer_server.Server.{PeerServer, set_peer, set_state, hash2index}

unfoldable pub emit_param : PeerServer → PktParam → PeerServer
emit_param s param = record s { world = emit param s.world }

unfoldable pub send_whohas : PeerServer → PeerServer
send_whohas s = emit_param s (record pkt_param_clear {
  p_count = negsuc 0;
  c = some s.getchunks;
  c_count = negsuc 0;
  type = type_whohas;
})

-- The bytes of the payload from an offset on.
unfoldable pub payload_bytes : Packet → ℕ → ℕ → List ℕ
payload_bytes pkt offset zero = []
payload_bytes pkt offset (suc n) = get_or pkt.payload offset 0 ∷ payload_bytes pkt (offset + 1) n

-- GET_HASH.
unfoldable pub get_hash : Packet → ℕ → List ℕ
get_hash pkt n = binary2hex (payload_bytes pkt (hash_offset pkt n) 20)

-- The loop of `send_ihave`: each hash of the packet is written behind those that matched before,
-- and stays there only if it is one of `haschunks`.
unfoldable pub match_hashes : PeerServer → Packet → ℕ → ℕ → ChunkList → ChunkList
match_hashes s pkt zero i found = found
match_hashes s pkt (suc left) i found =
    let hash = get_hash pkt i in
    let line = record (found.chunks found.count) { sha1 = hash } in
    let chunks = update found.chunks found.count line in
    elim (hash2index s.haschunks hash) [
      | none ↦ match_hashes s pkt left (i + 1) (record found { chunks = chunks })
      | some j ↦
          match_hashes s pkt left (i + 1) (record { count = found.count + 1; chunks = chunks })
    ]

-- The count of `ihavechunks` is set only if something is found.
unfoldable pub send_ihave : PeerServer → Packet → ℕ → PeerServer
send_ihave s pkt p_index =
    let start = record (s.ihavechunks) { count = 0 } in
    let found = match_hashes s pkt (get_chunk_cnt pkt) 0 start in
    if found.count == 0
    then record s { ihavechunks = record found { count = s.ihavechunks.count } }
    else emit_param (record s { ihavechunks = found })
        (record pkt_param_clear {
          c = some found;
          c_count = negsuc 0;
          p_index = pos p_index;
          p_count = pos 1;
          type = type_ihave;
        })

-- The hashes of the packet, from number `i` on.
unfoldable pub packet_hashes : Packet → ℕ → ℕ → List (List ℕ)
packet_hashes pkt zero i = []
packet_hashes pkt (suc left) i = get_hash pkt i ∷ packet_hashes pkt left (i + 1)

-- `parse_download`; `malloc` is taken not to fail.
unfoldable pub parse_download : PeerServer → Packet → ℕ → PeerServer
parse_download s pkt p_index =
    set_peer s p_index
      (record (s.peers p_index) { hasqueue = packet_hashes pkt (get_chunk_cnt pkt) 0 })

unfoldable pub send_get : PeerServer → ℕ → ℕ → PeerServer
send_get s p_index get_index =
    let marked = set_state s get_index fetching in
    emit_param marked (record pkt_param_clear {
      c = some (marked.getchunks);
      c_index = pos get_index;
      c_count = pos 1;
      p_index = pos p_index;
      p_count = pos 1;
      type = type_get;
    })

-- `start_download(&peer->dl, …)`; `dl_init` never fails.
unfoldable pub start_download : Platform → PeerServer → ℕ → ℕ → PeerServer
start_download plat s p_index get_index =
    let (dl, w) = dl_init plat p_index get_index s.dl_filename s.world in
    record (set_peer s p_index (record (s.peers p_index) { dl = dl })) {
      world = w;
      dl_num = succ s.dl_num;
    }

unfoldable pub kill_download : PeerServer → Download → PeerServer
kill_download s dl = record (set_state s dl.get_index unfetched) { dl_num = pred s.dl_num }

-- SHA1_HASH_STR_SIZE characters are compared.
unfoldable pub check_hash_succeed : Platform → PeerServer → Download → Bool
check_hash_succeed plat s dl =
    str_eq (take 40 (binary2hex (plat.sha1 dl.buffer chunk_size)))
      (take 40 (s.getchunks.chunks dl.get_index).sha1)

-- A write that is complete marks the chunk.
unfoldable pub saved_chunk : PeerServer → Download → World → PeerServer
saved_chunk s dl w = record (set_state s dl.get_index fetched) {
  dl_remain = pred s.dl_remain;
  world = w;
}

-- The world behind the three file calls: what `write` has written stands where `lseek` has led, or
-- at the start of the file, since a seek that fails is only logged.
unfoldable pub write_chunk : Platform → ℤ → (ℕ → ℕ) → World → World
write_chunk plat offset buffer w =
    let w₁ = tick w in
    let w₂ = tick w₁ in
    let place = if plat.lseek w₁.calls offset then offset else pos 0 in
    let call : Saved = record { offset = place; size = plat.write w₂.calls; bytes = buffer } in
    record (tick w₂) { saved = call ∷ w.saved }

-- `dl_save_buffer`. The offset is a product of two `int`s.
unfoldable pub dl_save_buffer : Platform → PeerServer → Download → PeerServer
dl_save_buffer plat s dl =
    let offset = mul_int (s.getchunks.chunks dl.get_index).id chunk_size in
    let w = write_chunk plat offset dl.buffer s.world in
    if not (plat.open_file s.world.calls)
    then record s { world = tick s.world }
    else if plat.write (tick (tick s.world)).calls == chunk_size
    then saved_chunk s dl w
    else record s { world = w }

-- The handler and the world after a step of an upload.
unfoldable pub put_upload : PeerServer → ℕ → Sent → PeerServer
put_upload s p_index r = record (set_peer s p_index (record (s.peers p_index) { ul = r.ul })) {
  world = r.world;
}

-- `start_upload`: the counter rises only if both steps succeed.
unfoldable pub start_upload : Platform → PeerServer → ℕ → ℕ → PeerServer
start_upload plat s p_index has_index =
    let started = ul_init plat s.haschunks p_index has_index s.world in
    let sent = ul_send plat started.ul started.world in
    if not started.good
    then put_upload s p_index started
    else if not sent.good
    then put_upload s p_index sent
    else record (put_upload s p_index sent) { ul_num = succ s.ul_num }

-- `update_upload`.
unfoldable pub update_upload : Platform → PeerServer → ℕ → ℕ → PeerServer
update_upload plat s p_index ack =
    let (ul, w) = ul_handle_ack plat (s.peers p_index).ul ack s.world in
    put_upload s p_index (ul_send plat ul w)

-- `finish_upload`, which `kill_upload` is another name of.
unfoldable pub finish_upload : Platform → PeerServer → ℕ → PeerServer
finish_upload plat s p_index = record s {
  ul_num = pred s.ul_num;
  world = (ul_deinit plat (s.peers p_index).ul s.world).1;
}
