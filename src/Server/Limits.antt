-- ===== src/Server/Limits.antt =====
-- The counter of the uploads and its limit through whole handlers and turns of the main loop.
use peer_server.Base.{
  ℕ, zero, suc, ◌+◌, ◌≤◌, ◌<◌, ◌≡◌, refl, ◌∙◌, true, false, ◌||◌, not, Option, none, some, arith,
  ◌==◌, if_ind,
}
use peer_server.Base.Int.{ℤ, pos, negsuc, pos_part, ltb_ℤ}
use peer_server.Packet.{
  Packet, type_whohas, type_ihave, type_get, type_data, type_ack, valid_packet,
}
use peer_server.Platform.{Platform}
use peer_server.Download.{dl_recv, dl_check_timeout}
use peer_server.Upload.Control.{ul_check_timeout}
use peer_server.Server.{PeerServer, Addr, addr2index, hash2index}
use peer_server.Server.Counts.{count_if}
use peer_server.Server.Transfer.{get_hash, update_upload}
use peer_server.Server.Refresh.{
  put_download, put_checked, abort_download, abort_upload, time_download, time_upload, time_peer,
  time_peers, check_all_timeout,
}
use peer_server.Server.Handle.{
  on_whohas, on_ihave, begin_upload, on_get, on_data, on_ack, dispatch, parse_packet,
  process_inbound_udp,
}
use peer_server.Server.Consistent.{addr-in_range}
use peer_server.Server.Uploads.{
  up, IsCounted, Spares, Spares-trans, if-Spares, Spares-refl, set_alive-Spares,
  parse_download-Spares, put_download-Spares, put_checked-Spares, update_upload-Spares,
  send_ihave-Spares, try_send_get-Spares, refresh-Spares, refresh_if_needed-Spares,
  end_download-Spares,
}
use peer_server.Server.Counted.{
  Sets-IsCounted, Spares-IsCounted, finish-Sets, abort_download-Sets, abort_upload-Sets,
}
use peer_server.Server.Begins.{Works, begin-Sets}

room_left : (k : ℕ) (m : ℤ) → ltb_ℤ (pos k) m ≡ true → k < pos_part m
room_left k (pos n) h = ground arith
room_left k (negsuc n) h = ground arith

-- The cases of the switch that touch no upload.
module _ (s : PeerServer) (pkt : Packet) (i : ℕ) where
  on_whohas-Spares : Spares s (on_whohas s pkt i)
  unfolding on_whohas
  on_whohas-Spares = if-Spares _ (Spares-refl s) (
      if-Spares (up s i) (set_alive-Spares s i)
        (Spares-trans (set_alive-Spares s i) (send_ihave-Spares _ pkt i)))

  on_ihave-Spares : (plat : Platform) → Spares s (on_ihave plat s pkt i)
  unfolding on_ihave
  on_ihave-Spares plat =
      let parsed = Spares-trans (set_alive-Spares s i) (parse_download-Spares _ i pkt) in
      if-Spares (s.peers i).is_downloading (set_alive-Spares s i)
        (if-Spares _ parsed (Spares-trans parsed (try_send_get-Spares plat _ i)))

  on_data-Spares : (plat : Platform) → Spares s (on_data plat s pkt i)
  unfolding on_data
  on_data-Spares plat =
      let r = dl_recv plat (s.peers i).dl pkt s.world in
      let received = put_download-Spares s i r in
      if-Spares _ (Spares-refl s) (
        if-Spares r.dl.finished
          (Spares-trans received
            (Spares-trans (end_download-Spares plat _ i) (refresh_if_needed-Spares plat _)))
          received)

module _ (plat : Platform) (n : ℕ) (m : ℤ) where
  abbrev Fine : PeerServer → Type 0
  Fine = IsCounted n m

  time_download-IsCounted :
      (s : PeerServer) (i : ℕ) → i < n → Fine s → Fine (time_download plat s i)
  unfolding time_download
  time_download-IsCounted s i h v =
      let r = dl_check_timeout plat (s.peers i).dl s.world in
      let t = put_download s i r in
      let checked = Spares-IsCounted (put_download-Spares s i r) v in
      if_ind Fine (s.peers i).is_downloading _ _
        (λ d.
          if_ind Fine (ltb_ℤ (pos 5) r.code) (abort_download plat t i) t
            (λ e. Sets-IsCounted (abort_download-Sets plat t i) h (λ x. cc) checked) (λ e. checked))
        (λ d. v)

  time_upload-IsCounted : (s : PeerServer) (i : ℕ) → i < n → Fine s → Fine (time_upload plat s i)
  unfolding time_upload
  time_upload-IsCounted s i h v =
      let r = ul_check_timeout plat (s.peers i).ul s.world in
      let t = put_checked s i r in
      let same = put_checked-Spares s i r in
      let checked = Spares-IsCounted same v in
      if_ind Fine (up s i) _ _
        (λ u.
          if_ind Fine (ltb_ℤ (pos 5) r.code) (abort_upload plat t i) t
            (λ e.
              Sets-IsCounted (abort_upload-Sets plat t i (same.up_eq i ∙ u)) h (λ x. cc) checked)
            (λ e. checked))
        (λ u. v)

  time_peer-IsCounted : (s : PeerServer) (i : ℕ) → i < n → Fine s → Fine (time_peer plat s i)
  unfolding time_peer
  time_peer-IsCounted s i h v =
      if_ind Fine (not (s.peers i).is_alive) _ _ (λ e. v)
        (λ e. time_upload-IsCounted _ i h (time_download-IsCounted s i h v))

  time_peers-IsCounted :
      (left i : ℕ) (s : PeerServer) → i + left ≤ n → Fine s → Fine (time_peers plat s left i)
  unfolding time_peers
  time_peers-IsCounted zero i s h v = v
  time_peers-IsCounted (suc left) i s h v =
      time_peers-IsCounted left (i + 1) _ (omega arith) (time_peer-IsCounted s i (omega arith) v)

  pub check_all_timeout-IsCounted : (s : PeerServer) → Fine s → Fine (check_all_timeout plat s)
  unfolding check_all_timeout
  check_all_timeout-IsCounted s v =
      let timed = time_peers-IsCounted s.peer_count 0 s (omega (arith, v.size)) v in
      if_ind Fine (ltb_ℤ (pos 0) (time_peers plat s s.peer_count 0).dl_remain) _ _
        (λ e. Spares-IsCounted (refresh-Spares plat _) timed) (λ e. timed)

  module _ (works : Works plat) (s : PeerServer) (pkt : Packet) (i : ℕ) (h : i < n)
      (v : Fine s) where
    on_get-IsCounted : Fine (on_get plat s pkt i)
    unfolding on_get
    on_get-IsCounted =
        if_ind Fine (not (s.peers i).is_alive) _ _ (λ e. v)
          (λ e.
            if_ind Fine (not (ltb_ℤ s.ul_num s.max_conn)) _ _ (λ f. v)
              (λ f. take_IsCounted f (hash2index s.haschunks (get_hash pkt 0))))
      where
        take_IsCounted :
            not (ltb_ℤ s.ul_num s.max_conn) ≡ false
            → (o : Option ℕ) → Fine (elim o [ none ↦ s | some j ↦ begin_upload plat s i j ])
        take_IsCounted f none = v
        take_IsCounted f (some j) =
            let open_slot : ltb_ℤ s.ul_num s.max_conn ≡ true = ground arith in
            let free : ltb_ℤ (pos (count_if (up s) n)) m ≡ true =
              rw (v.active, v.conn) at open_slot in
            Sets-IsCounted (begin-Sets plat works s i j) h (λ x y. room_left _ m free) v

    on_ack-IsCounted : Fine (on_ack plat s pkt i)
    unfolding on_ack
    on_ack-IsCounted =
        let t = update_upload plat s i pkt.ack in
        let updated = update_upload-Spares s i plat pkt.ack in
        let after = Spares-IsCounted updated v in
        if_ind Fine (not (s.peers i).is_alive || not (up s i)) _ _ (λ e. v)
          (λ e.
            if_ind Fine (t.peers i).ul.finished _ _
              (λ f.
                Sets-IsCounted (finish-Sets plat t i (updated.up_eq i ∙ ground arith)) h (λ x. cc)
                  after)
              (λ f. after))

    dispatch-IsCounted : Fine (dispatch plat s pkt i)
    unfolding dispatch
    dispatch-IsCounted =
        if_ind Fine (pkt.type == type_whohas) _ _
          (λ e. Spares-IsCounted (on_whohas-Spares s pkt i) v)
          (λ e.
            if_ind Fine (pkt.type == type_ihave) _ _
              (λ e. Spares-IsCounted (on_ihave-Spares s pkt i plat) v)
              (λ e.
                if_ind Fine (pkt.type == type_get) _ _ (λ e. on_get-IsCounted)
                  (λ e.
                    if_ind Fine (pkt.type == type_data) _ _
                      (λ e. Spares-IsCounted (on_data-Spares s pkt i plat) v)
                      (λ e.
                        if_ind Fine (pkt.type == type_ack) _ _ (λ e. on_ack-IsCounted) (λ e. v)))))

  pub process_inbound_udp-IsCounted :
      Works plat
      → (s : PeerServer) (pkt : Packet) (addr : Addr) → Fine s
      → Fine (process_inbound_udp plat s pkt addr)
  unfolding process_inbound_udp parse_packet
  process_inbound_udp-IsCounted works s pkt addr v =
      if_ind Fine (valid_packet pkt) _ _ (λ e. found (addr2index s addr) refl) (λ e. v)
    where
      found :
          (o : Option ℕ)
          → addr2index s addr ≡ o
          → Fine (elim o [ none ↦ s | some i ↦ dispatch plat s pkt i ])
      found none e = v
      found (some i) e =
          dispatch-IsCounted works s pkt i (omega (arith, addr-in_range s addr i e, v.size)) v
