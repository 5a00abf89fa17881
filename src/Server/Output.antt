-- ===== src/Server/Output.antt =====
-- The output file of a download through the packet handler and the turns of the main loop.
use peer_server.Base.{
  ℕ, ◌<◌, ◌≡◌, refl, sym, true, false, not, ◌||◌, Option, none, some, List, [], ◌∷◌, ◌==◌, arith,
  if_ind,
}
use peer_server.Chunklist.{ChunkList}
use peer_server.Packet.{
  Packet, type_whohas, type_ihave, type_get, type_data, type_ack, valid_packet,
}
use peer_server.Platform.{Platform}
use peer_server.Download.{dl_recv}
use peer_server.Server.{PeerServer, Addr, addr2index, hash2index}
use peer_server.Server.Transfer.{get_hash, update_upload}
use peer_server.Server.Refresh.{put_download}
use peer_server.Server.Handle.{
  on_whohas, on_ihave, begin_upload, on_get, on_data, on_ack, dispatch, parse_packet,
  process_inbound_udp,
}
use peer_server.Server.Init.{run_turn, run_turns}
use peer_server.Server.Downloads.{IsConsistent, down, index}
use peer_server.Server.Steps.{index-dl_recv, put_download-Same}
use peer_server.Server.Consistent.{
  addr-in_range, process_inbound_udp-IsConsistent, check_all_timeout-IsConsistent,
}
use peer_server.Server.Unwritten.{dl_recv-Spared}
use peer_server.Server.Leaves.{
  Leaves, Leaves-trans, Leaves-refl, if-Leaves, set_alive-Leaves, set_uploading-Leaves,
  parse_download-Leaves, send_ihave-Leaves, update_upload-Leaves, finish_upload-Leaves,
  start_upload-Leaves,
}
use peer_server.Server.Rounds.{
  try_send_get-Leaves, refresh_if_needed-Leaves, put_download-Leaves, check_all_timeout-Leaves,
}
use peer_server.Server.Genuine.{Fits, IsGenuine, Seeks, Leaves-IsGenuine, end_download-IsGenuine}

-- The cases of the switch that write nothing.
module _ (plat : Platform) (s : PeerServer) (pkt : Packet) (i : ℕ) where
  on_whohas-Leaves : Leaves s (on_whohas s pkt i)
  unfolding on_whohas
  on_whohas-Leaves = if-Leaves _ (Leaves-refl s) (
      if-Leaves (s.peers i).is_uploading (set_alive-Leaves s i)
        (Leaves-trans (set_alive-Leaves s i) (send_ihave-Leaves _ i pkt)))

  on_ihave-Leaves : Leaves s (on_ihave plat s pkt i)
  unfolding on_ihave
  on_ihave-Leaves =
      let parsed = Leaves-trans (set_alive-Leaves s i) (parse_download-Leaves _ i pkt) in
      if-Leaves (s.peers i).is_downloading (set_alive-Leaves s i)
        (if-Leaves _ parsed (Leaves-trans parsed (try_send_get-Leaves plat _ i)))

  begin_upload-Leaves : (j : ℕ) → Leaves s (begin_upload plat s i j)
  unfolding begin_upload
  begin_upload-Leaves j =
      let stopped =
        if-Leaves (s.peers i).is_uploading (finish_upload-Leaves plat s i) (Leaves-refl s) in
      Leaves-trans stopped
        (Leaves-trans (start_upload-Leaves plat _ i j) (set_uploading-Leaves _ i true))

  on_get-Leaves : Leaves s (on_get plat s pkt i)
  unfolding on_get
  on_get-Leaves =
      if-Leaves (not (s.peers i).is_alive) (Leaves-refl s)
        (if-Leaves _ (Leaves-refl s) (take_Leaves (hash2index s.haschunks (get_hash pkt 0))))
    where
      take_Leaves :
          (o : Option ℕ) → Leaves s (elim o [ none ↦ s | some j ↦ begin_upload plat s i j ])
      take_Leaves none = Leaves-refl s
      take_Leaves (some j) = begin_upload-Leaves j

  on_ack-Leaves : Leaves s (on_ack plat s pkt i)
  unfolding on_ack
  on_ack-Leaves =
      let updated = update_upload-Leaves plat s i pkt.ack in
      if-Leaves (not (s.peers i).is_alive || not (s.peers i).is_uploading) (Leaves-refl s) (
        if-Leaves ((update_upload plat s i pkt.ack).peers i).ul.finished
          (Leaves-trans updated
            (Leaves-trans (finish_upload-Leaves plat _ i) (set_uploading-Leaves _ i false)))
          updated)

module _ (plat : Platform) (seeks : Seeks plat) (list : ChunkList) (fits : Fits list) where
  abbrev Fine : PeerServer → Type 0
  Fine = IsGenuine plat list

  module _ (s : PeerServer) (consistent : IsConsistent s) (v : Fine s) (pkt : Packet) where
    on_data-IsGenuine : (i : ℕ) → i < s.peer_count → Fine (on_data plat s pkt i)
    unfolding on_data
    on_data-IsGenuine i h =
        let r = dl_recv plat (s.peers i).dl pkt s.world in
        let t = put_download s i r in
        let same = put_download-Same s i r (index-dl_recv plat _ pkt _) in
        let leaves = put_download-Leaves plat s i r (dl_recv-Spared plat _ pkt _) in
        let received = Leaves-IsGenuine plat list leaves v in
        if_ind Fine (not (s.peers i).is_alive || not (down s i)) _ _ (λ e. v)
          (λ e.
            let d : down s i ≡ true = ground arith in
            let inside : index t i < list.count =
              rw (same.index_eq i d, sym v.count_eq) (consistent.claimed i h d).0 in
            if_ind Fine r.dl.finished _ t
              (λ f.
                Leaves-IsGenuine plat list (refresh_if_needed-Leaves plat _)
                  (end_download-IsGenuine plat list seeks fits t i inside received))
              (λ f. received))

    dispatch-IsGenuine : (i : ℕ) → i < s.peer_count → Fine (dispatch plat s pkt i)
    unfolding dispatch
    dispatch-IsGenuine i h =
        let by : (t : PeerServer) → Leaves s t → Fine t = λ t e. Leaves-IsGenuine plat list e v in
        if_ind Fine (pkt.type == type_whohas) _ _ (λ e. by _ (on_whohas-Leaves plat s pkt i))
          (λ e.
            if_ind Fine (pkt.type == type_ihave) _ _ (λ e. by _ (on_ihave-Leaves plat s pkt i))
              (λ e.
                if_ind Fine (pkt.type == type_get) _ _ (λ e. by _ (on_get-Leaves plat s pkt i))
                  (λ e.
                    if_ind Fine (pkt.type == type_data) _ _ (λ e. on_data-IsGenuine i h)
                      (λ e.
                        if_ind Fine (pkt.type == type_ack) _ _
                          (λ e. by _ (on_ack-Leaves plat s pkt i)) (λ e. v)))))

    process_inbound_udp-IsGenuine : (addr : Addr) → Fine (process_inbound_udp plat s pkt addr)
    unfolding process_inbound_udp parse_packet
    process_inbound_udp-IsGenuine addr =
        if_ind Fine (valid_packet pkt) _ _ (λ e. found (addr2index s addr) refl) (λ e. v)
      where
        found :
            (o : Option ℕ)
            → addr2index s addr ≡ o
            → Fine (elim o [ none ↦ s | some i ↦ dispatch plat s pkt i ])
        found none e = v
        found (some i) e = dispatch-IsGenuine i (addr-in_range s addr i e)

  pub run_turns-IsGenuine :
      (turns : List (Option (Packet × Addr))) (s : PeerServer)
      → IsConsistent s
      → Fine s
      → Fine (run_turns plat s turns)
  unfolding run_turns run_turn
  run_turns-IsGenuine [] s c v = v
  run_turns-IsGenuine (none ∷ turns) s c v =
      run_turns-IsGenuine turns _ (check_all_timeout-IsConsistent plat s c).0
        (Leaves-IsGenuine plat list (check_all_timeout-Leaves plat s) v)
  run_turns-IsGenuine (some (pkt, addr) ∷ turns) s c v =
      let c' = process_inbound_udp-IsConsistent plat s pkt addr c in
      let v' = process_inbound_udp-IsGenuine s c v pkt addr in
      run_turns-IsGenuine turns _ (check_all_timeout-IsConsistent plat _ c').0
        (Leaves-IsGenuine plat list (check_all_timeout-Leaves plat _) v')
