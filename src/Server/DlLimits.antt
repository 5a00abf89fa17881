-- ===== src/Server/DlLimits.antt =====
-- The number of downloads through the packet handler, the commands and the turns of the main loop.
use mathlib.Core.Path.{subst}
use peer_server.Base.{
  ℕ, ◌≡◌, ◌≤◌, refl, true, not, ◌||◌, Option, none, some, List, ◌==◌, arith, if_ind,
}
use peer_server.Base.Int.{ℤ, pos, pos_part, ltb_ℤ}
use peer_server.Chunklist.{ChunkList, parse_chunk}
use peer_server.Packet.{
  Packet, type_whohas, type_ihave, type_get, type_data, type_ack, valid_packet,
}
use peer_server.Platform.{Platform, World}
use peer_server.Download.{dl_recv}
use peer_server.BtParse.{returns}
use peer_server.Server.{PeerServer, Addr, addr2index, hash2index, set_peer, set_state}
use peer_server.Server.Transfer.{
  get_hash, emit_param, send_whohas, send_ihave, parse_download, put_upload, start_upload,
  update_upload, finish_upload, dl_save_buffer, saved_chunk,
}
use peer_server.Server.Refresh.{put_download}
use peer_server.Server.Handle.{
  set_alive, set_uploading, on_whohas, on_ihave, begin_upload, on_get, put_back, end_download,
  refresh_if_needed, on_data, on_ack, dispatch, parse_packet, process_inbound_udp, process_get,
  start_get,
}
use peer_server.Server.Init.{BtConfig, init_peerlist, set_counters}
use peer_server.Server.Main.{Program, Setup, main}
use peer_server.Server.Counts.{count_if}
use peer_server.Server.Downloads.{down}
use peer_server.Server.Runs.{Turns, here, turn, main-IsConsistent}
use peer_server.Server.Loop.{peer_turn-Inv}
use peer_server.Server.Starts.{main-Fresh}
use peer_server.Server.DlSlots.{
  IsLimited, same-IsLimited, ended-IsLimited, try_send_get-IsLimited, refresh-IsLimited,
  check_all_timeout-IsLimited,
}

module _ (plat : Platform) (m : ℤ) where
  abbrev Fine : PeerServer → Type 0
  Fine = IsLimited m

  module _ (s : PeerServer) (i : ℕ) (v : Fine s) where
    begin_upload-IsLimited : (j : ℕ) → Fine (begin_upload plat s i j)
    unfolding begin_upload start_upload put_upload finish_upload set_uploading set_peer
    begin_upload-IsLimited j = same-IsLimited v (ground arith) (ground arith)

    end_download-IsLimited : Fine (end_download plat s i)
    unfolding end_download put_back dl_save_buffer saved_chunk set_peer set_state
    end_download-IsLimited = ended-IsLimited v (ground arith) (ground arith)

    refresh_if_needed-IsLimited : Fine (refresh_if_needed plat s)
    unfolding refresh_if_needed
    refresh_if_needed-IsLimited =
        if_ind Fine (ltb_ℤ (pos 0) s.dl_remain) _ s (λ e. refresh-IsLimited plat m s v) (λ e. v)

    on_ack-IsLimited : (pkt : Packet) → Fine (on_ack plat s pkt i)
    unfolding on_ack update_upload put_upload finish_upload set_uploading set_peer
    on_ack-IsLimited pkt = same-IsLimited v (ground arith) (ground arith)

    on_whohas-IsLimited : (pkt : Packet) → Fine (on_whohas s pkt i)
    unfolding on_whohas set_alive send_ihave emit_param set_peer
    on_whohas-IsLimited pkt = same-IsLimited v (ground arith) (ground arith)

  module _ (s : PeerServer) (pkt : Packet) (i : ℕ) (v : Fine s) where
    on_ihave-IsLimited : Fine (on_ihave plat s pkt i)
    unfolding on_ihave set_alive parse_download set_peer
    on_ihave-IsLimited =
        let alive : Fine (set_alive s i) = same-IsLimited v refl refl in
        let t = parse_download (set_alive s i) pkt i in
        let parsed : Fine t = same-IsLimited v refl refl in
        if_ind Fine (s.peers i).is_downloading _ _ (λ e. alive)
          (λ e.
            if_ind Fine (not (ltb_ℤ s.dl_num s.max_conn)) t _ (λ f. parsed)
              (λ f.
                let room : ltb_ℤ s.dl_num s.max_conn ≡ true = ground arith in
                try_send_get-IsLimited plat m t i room parsed))

    on_get-IsLimited : Fine (on_get plat s pkt i)
    unfolding on_get
    on_get-IsLimited =
        if_ind Fine (not (s.peers i).is_alive) _ _ (λ e. v)
          (λ e.
            if_ind Fine (not (ltb_ℤ s.ul_num s.max_conn)) _ _ (λ f. v)
              (λ f. take_Fine (hash2index s.haschunks (get_hash pkt 0))))
      where
        take_Fine : (o : Option ℕ) → Fine (elim o [ none ↦ s | some j ↦ begin_upload plat s i j ])
        take_Fine none = v
        take_Fine (some j) = begin_upload-IsLimited s i v j

    on_data-IsLimited : Fine (on_data plat s pkt i)
    unfolding on_data put_download set_peer
    on_data-IsLimited =
        let r = dl_recv plat (s.peers i).dl pkt s.world in
        let t = put_download s i r in
        let received : Fine t = same-IsLimited v refl refl in
        if_ind Fine (not (s.peers i).is_alive || not (down s i)) _ _ (λ e. v)
          (λ e.
            if_ind Fine r.dl.finished _ t
              (λ f. refresh_if_needed-IsLimited _ i (end_download-IsLimited t i received))
              (λ f. received))

    dispatch-IsLimited : Fine (dispatch plat s pkt i)
    unfolding dispatch
    dispatch-IsLimited =
        if_ind Fine (pkt.type == type_whohas) _ _ (λ e. on_whohas-IsLimited s i v pkt)
          (λ e.
            if_ind Fine (pkt.type == type_ihave) _ _ (λ e. on_ihave-IsLimited)
              (λ e.
                if_ind Fine (pkt.type == type_get) _ _ (λ e. on_get-IsLimited)
                  (λ e.
                    if_ind Fine (pkt.type == type_data) _ _ (λ e. on_data-IsLimited)
                      (λ e.
                        if_ind Fine (pkt.type == type_ack) _ _ (λ e. on_ack-IsLimited s i v pkt)
                          (λ e. v)))))

  process_inbound_udp-IsLimited :
      (s : PeerServer) (pkt : Packet) (addr : Addr)
      → Fine s
      → Fine (process_inbound_udp plat s pkt addr)
  unfolding process_inbound_udp parse_packet
  process_inbound_udp-IsLimited s pkt addr v =
      if_ind Fine (valid_packet pkt) _ _ (λ e. found (addr2index s addr)) (λ e. v)
    where
      found : (o : Option ℕ) → Fine (elim o [ none ↦ s | some i ↦ dispatch plat s pkt i ])
      found none = v
      found (some i) = dispatch-IsLimited s pkt i v

  process_get-IsLimited :
      (s : PeerServer) (chunkfile outputfile : List ℕ) (lines : Option (List (ℤ × List ℕ)))
      → Fine s
      → Fine (process_get plat s chunkfile lines outputfile)
  unfolding process_get start_get send_whohas emit_param parse_chunk
  process_get-IsLimited s chunkfile outputfile none v =
      same-IsLimited v (ground arith) (ground arith)
  process_get-IsLimited s chunkfile outputfile (some lines) v =
      same-IsLimited v (ground arith) (ground arith)

  Turns-IsLimited : {p q : Program} → Turns plat p q → Fine p.psvr → Fine q.psvr
  Turns-IsLimited here v = v
  Turns-IsLimited (turn {p} {q} t permitted e rest) v = Turns-IsLimited rest (
      peer_turn-Inv plat Fine process_get-IsLimited process_inbound_udp-IsLimited
        (check_all_timeout-IsLimited plat m) t p q v e)

abbrev Limited : PeerServer → Type 0
Limited s = IsLimited s.max_conn s

start-IsLimited :
    (config : BtConfig) (s : PeerServer) (w : World) (haschunks : ChunkList)
    → Limited (
        set_counters
          (record (init_peerlist s config.peers config.identity) { world = w })
          config
          haschunks)
unfolding set_counters
start-IsLimited config s w haschunks = record { conn = refl; limited = omega arith }

-- Once `main` has reached its loop, after any number of turns, whatever datagrams arrive and
-- whatever is typed, if each GET command comes while nobody is downloading: no more peers are being
-- downloaded from than `max_conn`, or none if that is negative.
pub downloads-limited :
    (plat : Platform) (setup : Setup) (psvr : PeerServer) (p q : Program)
    → main plat setup psvr ≡ returns p
    → Turns plat p q
    → count_if (down q.psvr) q.psvr.peer_count ≤ pos_part q.psvr.max_conn
downloads-limited plat setup psvr p q e turns =
    let v = Turns-IsLimited plat _ turns (main-Fresh plat Limited start-IsLimited setup psvr p e) in
    let c = main-IsConsistent plat setup psvr p q e turns in
    let below : pos_part (pos (count_if (down q.psvr) q.psvr.peer_count))
        ≤ pos_part p.psvr.max_conn =
      subst (λ k. pos_part k ≤ pos_part p.psvr.max_conn) c.active v.limited in
    rw v.conn below
