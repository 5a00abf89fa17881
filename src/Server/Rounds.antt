-- ===== src/Server/Rounds.antt =====
-- What leaves the output file alone: the scheduling and the timer's round.
use peer_server.Base.{ℕ, zero, suc, ◌+◌, ltb, sub32, refl, not, Option, none, some}
use peer_server.Platform.{Platform, emit, tick}
use peer_server.Util.{get_timestamp_now, default_timeout}
use peer_server.Download.{Received, dl_check_timeout}
use peer_server.Upload.Control.{Checked, ul_check_timeout}
use peer_server.Server.{PeerServer, set_peer}
use peer_server.Server.Transfer.{emit_param, send_whohas}
use peer_server.Server.Refresh.{
  Found, find_in_queue, take_found, get_found, try_send_get, ask_peers, not_good_for_download,
  whohas_again, refresh_chunk_download, put_download, put_checked, abort_download, abort_upload,
  time_download, time_upload, time_peer, time_peers, check_all_timeout,
}
use peer_server.Server.Handle.{refresh_if_needed}
use peer_server.Server.Unwritten.{Spared, ul_check_timeout-Spared, dl_check_timeout-Spared}
use peer_server.Server.Leaves.{
  Leaves, Leaves-trans, Leaves-refl, if-Leaves, chunks-Leaves, send_get-Leaves,
  start_download-Leaves, kill_download-Leaves, finish_upload-Leaves, die-Leaves,
}

module _ (plat : Platform) where
  get_found-Leaves : (s : PeerServer) (i : ℕ) (f : Found) → Leaves s (get_found plat s i f)
  unfolding get_found take_found set_peer
  get_found-Leaves s i f = Leaves-trans (chunks-Leaves refl refl) (
      Leaves-trans (send_get-Leaves _ i f.index)
        (Leaves-trans (chunks-Leaves refl refl) (start_download-Leaves plat _ i f.index)))

  pub try_send_get-Leaves : (s : PeerServer) (i : ℕ) → Leaves s (try_send_get plat s i)
  unfolding try_send_get
  try_send_get-Leaves s i = take_Leaves (find_in_queue s.getchunks (s.peers i).hasqueue)
    where
      take_Leaves :
          (o : Option Found) → Leaves s (elim o [ none ↦ s | some f ↦ get_found plat s i f ])
      take_Leaves none = Leaves-refl s
      take_Leaves (some f) = get_found-Leaves s i f

  ask_peers-Leaves : (left i : ℕ) (s : PeerServer) → Leaves s (ask_peers plat s left i)
  unfolding ask_peers
  ask_peers-Leaves zero i s = Leaves-refl s
  ask_peers-Leaves (suc left) i s = if-Leaves _ (Leaves-refl s) (
      if-Leaves (not_good_for_download (s.peers i)) (ask_peers-Leaves left (i + 1) s)
        (Leaves-trans (try_send_get-Leaves s i) (ask_peers-Leaves left (i + 1) _)))

  whohas_again-Leaves : (s : PeerServer) → Leaves s (whohas_again plat s)
  unfolding whohas_again send_whohas emit_param emit get_timestamp_now tick
  whohas_again-Leaves s =
      let now = (get_timestamp_now plat s.world).0 in
      if-Leaves (ltb default_timeout (sub32 now s.last_whohas)) (chunks-Leaves refl refl)
        (chunks-Leaves refl refl)

  pub refresh-Leaves : (s : PeerServer) → Leaves s (refresh_chunk_download plat s)
  unfolding refresh_chunk_download
  refresh-Leaves s =
      let asked = ask_peers-Leaves s.peer_count 0 s in
      if-Leaves _ (Leaves-trans asked (whohas_again-Leaves _)) asked

  pub refresh_if_needed-Leaves : (s : PeerServer) → Leaves s (refresh_if_needed plat s)
  unfolding refresh_if_needed
  refresh_if_needed-Leaves s = if-Leaves _ (refresh-Leaves s) (Leaves-refl s)

  pub put_download-Leaves :
      (s : PeerServer) (i : ℕ) (r : Received)
      → Spared s.world r.world
      → Leaves s (put_download s i r)
  unfolding put_download set_peer
  put_download-Leaves s i r e = chunks-Leaves refl e

  time_download-Leaves : (s : PeerServer) (i : ℕ) → Leaves s (time_download plat s i)
  unfolding time_download abort_download
  time_download-Leaves s i =
      let r = dl_check_timeout plat (s.peers i).dl s.world in
      let checked = put_download-Leaves s i r (dl_check_timeout-Spared plat _ _) in
      let killed =
        Leaves-trans checked (kill_download-Leaves _ ((put_download s i r).peers i).dl) in
      if-Leaves (s.peers i).is_downloading
        (if-Leaves _
          (if-Leaves ((put_download s i r).peers i).is_uploading
            (Leaves-trans killed (Leaves-trans (finish_upload-Leaves plat _ i) (die-Leaves _ i)))
            (Leaves-trans killed (die-Leaves _ i)))
          checked)
        (Leaves-refl s)

  put_checked-Leaves :
      (s : PeerServer) (i : ℕ) (r : Checked) → Spared s.world r.world → Leaves s (put_checked s i r)
  unfolding put_checked set_peer
  put_checked-Leaves s i r e = chunks-Leaves refl e

  time_upload-Leaves : (s : PeerServer) (i : ℕ) → Leaves s (time_upload plat s i)
  unfolding time_upload abort_upload
  time_upload-Leaves s i =
      let r = ul_check_timeout plat (s.peers i).ul s.world in
      let t = put_checked s i r in
      let checked = put_checked-Leaves s i r (ul_check_timeout-Spared plat _ _) in
      let killed = Leaves-trans checked (finish_upload-Leaves plat t i) in
      if-Leaves (s.peers i).is_uploading
        (if-Leaves _
          (if-Leaves (t.peers i).is_downloading
            (Leaves-trans killed
              (Leaves-trans (kill_download-Leaves _ (t.peers i).dl) (die-Leaves _ i)))
            (Leaves-trans killed (die-Leaves _ i)))
          checked)
        (Leaves-refl s)

  time_peers-Leaves : (left i : ℕ) (s : PeerServer) → Leaves s (time_peers plat s left i)
  unfolding time_peers time_peer
  time_peers-Leaves zero i s = Leaves-refl s
  time_peers-Leaves (suc left) i s =
      Leaves-trans
        (if-Leaves (not (s.peers i).is_alive) (Leaves-refl s)
          (Leaves-trans (time_download-Leaves s i) (time_upload-Leaves _ i)))
        (time_peers-Leaves left (i + 1) _)

  pub check_all_timeout-Leaves : (s : PeerServer) → Leaves s (check_all_timeout plat s)
  unfolding check_all_timeout
  check_all_timeout-Leaves s =
      let timed = time_peers-Leaves s.peer_count 0 s in
      if-Leaves _ (Leaves-trans timed (refresh-Leaves _)) timed
