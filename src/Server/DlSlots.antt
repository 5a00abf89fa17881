-- ===== src/Server/DlSlots.antt =====
-- The number of downloads: it is limited by `max_conn`, through the scheduling and the timer.
use peer_server.Base.{
  ℕ, zero, suc, ◌+◌, ◌≡◌, refl, ◌∙◌, true, not, Option, none, some, arith, if_ind, ◌≤◌,
}
use peer_server.Base.Int.{ℤ, pos, negsuc, pos_part, succ, pred, ltb_ℤ}
use peer_server.Platform.{Platform}
use peer_server.Download.{dl_check_timeout}
use peer_server.Upload.Control.{ul_check_timeout}
use peer_server.Server.{PeerServer, set_peer, set_state}
use peer_server.Server.Transfer.{
  emit_param, send_whohas, finish_upload, send_get, start_download, kill_download,
}
use peer_server.Server.Refresh.{
  Found, find_in_queue, take_found, get_found, try_send_get, ask_peers, not_good_for_download,
  whohas_again, refresh_chunk_download, put_download, put_checked, die_at, abort_download,
  abort_upload, time_download, time_upload, time_peer, time_peers, check_all_timeout,
}

-- `max_conn` is `m`, and `dl_num` is not above it.
pub record IsLimited (m : ℤ) (s : PeerServer) : Type 0 where
  pub conn : s.max_conn ≡ m
  pub limited : pos_part s.dl_num ≤ pos_part m

module _ {m : ℤ} {s t : PeerServer} (v : IsLimited m s) (conn : t.max_conn ≡ s.max_conn) where
  -- A step that leaves the number of downloads alone, one that ends a download, and one that starts
  -- one where there is room.
  pub same-IsLimited : t.dl_num ≡ s.dl_num → IsLimited m t
  same-IsLimited e = record { conn = conn ∙ v.conn; limited = rw e v.limited }

  pub ended-IsLimited : t.dl_num ≡ pred s.dl_num → IsLimited m t
  ended-IsLimited e = record { conn = conn ∙ v.conn; limited = rw e (pred_le s.dl_num v.limited) }
    where
      pred_le : (k : ℤ) → pos_part k ≤ pos_part m → pos_part (pred k) ≤ pos_part m
      pred_le (pos zero) h = omega arith
      pred_le (pos (suc k)) h = omega arith
      pred_le (negsuc k) h = omega arith

  pub begun-IsLimited : ltb_ℤ s.dl_num s.max_conn ≡ true → t.dl_num ≡ succ s.dl_num → IsLimited m t
  begun-IsLimited room e = record {
    conn = conn ∙ v.conn;
    limited = rw e (succ_le s.dl_num m (rw v.conn at room));
  }
    where
      succ_le : (k n : ℤ) → ltb_ℤ k n ≡ true → pos_part (succ k) ≤ pos_part n
      succ_le (pos k) (pos n) h = ground arith
      succ_le (pos k) (negsuc n) h = ground arith
      succ_le (negsuc zero) n h = omega arith
      succ_le (negsuc (suc k)) n h = omega arith

module _ (plat : Platform) (m : ℤ) where
  abbrev Fine : PeerServer → Type 0
  Fine = IsLimited m

  pub try_send_get-IsLimited :
      (s : PeerServer) (i : ℕ)
      → ltb_ℤ s.dl_num s.max_conn ≡ true
      → Fine s
      → Fine (try_send_get plat s i)
  unfolding try_send_get get_found take_found send_get start_download emit_param set_peer set_state
  try_send_get-IsLimited s i room v = take_Fine (find_in_queue s.getchunks (s.peers i).hasqueue)
    where
      take_Fine : (o : Option Found) → Fine (elim o [ none ↦ s | some f ↦ get_found plat s i f ])
      take_Fine none = v
      take_Fine (some f) = begun-IsLimited v refl room refl

  ask_peers-IsLimited : (left i : ℕ) (s : PeerServer) → Fine s → Fine (ask_peers plat s left i)
  unfolding ask_peers
  ask_peers-IsLimited zero i s v = v
  ask_peers-IsLimited (suc left) i s v =
      if_ind Fine (not (ltb_ℤ s.dl_num s.max_conn)) _ _ (λ e. v)
        (λ e.
          if_ind Fine (not_good_for_download (s.peers i)) _ _
            (λ f. ask_peers-IsLimited left (i + 1) s v)
            (λ f.
              let room : ltb_ℤ s.dl_num s.max_conn ≡ true = ground arith in
              ask_peers-IsLimited left (i + 1) _ (try_send_get-IsLimited s i room v)))

  whohas_again-IsLimited : (s : PeerServer) → Fine s → Fine (whohas_again plat s)
  unfolding whohas_again send_whohas emit_param
  whohas_again-IsLimited s v = same-IsLimited v (ground arith) (ground arith)

  pub refresh-IsLimited : (s : PeerServer) → Fine s → Fine (refresh_chunk_download plat s)
  unfolding refresh_chunk_download
  refresh-IsLimited s v =
      let asked = ask_peers-IsLimited s.peer_count 0 s v in
      if_ind Fine _ _ _ (λ e. whohas_again-IsLimited _ asked) (λ e. asked)

  abort_download-IsLimited : (t : PeerServer) (i : ℕ) → Fine t → Fine (abort_download plat t i)
  unfolding abort_download kill_download finish_upload die_at set_peer set_state
  abort_download-IsLimited t i w =
      if_ind Fine (t.peers i).is_uploading _ _ (λ e. ended-IsLimited w refl refl)
        (λ e. ended-IsLimited w refl refl)

  time_download-IsLimited : (s : PeerServer) (i : ℕ) → Fine s → Fine (time_download plat s i)
  unfolding time_download put_download set_peer
  time_download-IsLimited s i v =
      if_ind Fine (s.peers i).is_downloading _ _
        (λ d.
          let t = put_download s i (dl_check_timeout plat (s.peers i).dl s.world) in
          let w : Fine t = same-IsLimited v refl refl in
          if_ind Fine _ _ t (λ e. abort_download-IsLimited t i w) (λ e. w))
        (λ d. v)

  abort_upload-IsLimited : (t : PeerServer) (i : ℕ) → Fine t → Fine (abort_upload plat t i)
  unfolding abort_upload kill_download finish_upload die_at set_peer set_state
  abort_upload-IsLimited t i w =
      if_ind Fine (t.peers i).is_downloading _ _ (λ e. ended-IsLimited w refl refl)
        (λ e. same-IsLimited w refl refl)

  time_upload-IsLimited : (s : PeerServer) (i : ℕ) → Fine s → Fine (time_upload plat s i)
  unfolding time_upload put_checked set_peer
  time_upload-IsLimited s i v =
      if_ind Fine (s.peers i).is_uploading _ _
        (λ d.
          let t = put_checked s i (ul_check_timeout plat (s.peers i).ul s.world) in
          let w : Fine t = same-IsLimited v refl refl in
          if_ind Fine _ _ t (λ e. abort_upload-IsLimited t i w) (λ e. w))
        (λ d. v)

  time_peers-IsLimited : (left i : ℕ) (s : PeerServer) → Fine s → Fine (time_peers plat s left i)
  unfolding time_peers time_peer
  time_peers-IsLimited zero i s v = v
  time_peers-IsLimited (suc left) i s v = time_peers-IsLimited left (i + 1) _ (
      if_ind Fine (not (s.peers i).is_alive) _ _ (λ e. v)
        (λ e. time_upload-IsLimited _ i (time_download-IsLimited s i v)))

  pub check_all_timeout-IsLimited : (s : PeerServer) → Fine s → Fine (check_all_timeout plat s)
  unfolding check_all_timeout
  check_all_timeout-IsLimited s v =
      let timed = time_peers-IsLimited s.peer_count 0 s v in
      if_ind Fine _ _ _ (λ e. refresh-IsLimited _ timed) (λ e. timed)
