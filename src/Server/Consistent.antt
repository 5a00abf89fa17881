-- ===== src/Server/Consistent.antt =====
-- The invariant of the downloads through whole handlers: the packet handler, the timer's round and
-- the start of a download.
use peer_server.Base.{
  ℕ, zero, suc, ◌+◌, ◌≤◌, ◌<◌, ◌≡◌, refl, ◌∙◌, inl, inr, true, false, ◌||◌, not, Option, none, some,
  arith, ◌==◌, Bool-cases,
}
use peer_server.Base.Int.{pos, ltb_ℤ}
use peer_server.Chunklist.Search.{first_from-some}
use peer_server.Packet.{
  Packet, type_whohas, type_ihave, type_get, type_data, type_ack, valid_packet,
}
use peer_server.Platform.{Platform}
use peer_server.Download.{dl_recv, dl_check_timeout}
use peer_server.Upload.Control.{ul_check_timeout}
use peer_server.Server.{PeerServer, Addr, addr2index, hash2index}
use peer_server.Server.Transfer.{get_hash, update_upload}
use peer_server.Server.Refresh.{
  put_checked, time_download, time_upload, time_peer, time_peers, check_all_timeout,
}
use peer_server.Server.Handle.{
  on_whohas, on_ihave, begin_upload, on_get, end_download, refresh_if_needed, on_data, on_ack,
  dispatch, parse_packet, process_inbound_udp,
}
use peer_server.Server.Downloads.{IsConsistent, down}
use peer_server.Server.Steps.{
  index-dl_recv, index-dl_check_timeout, set_alive-Same, set_uploading-Same, parse_download-Same,
  put_download-Same, put_checked-Same, update_upload-Same, finish_upload-Same, start_upload-Same,
  send_ihave-Same, if-Same, Same-trans, Same-refl,
}
use peer_server.Server.Moves.{
  abort_download-Release, abort_upload-Release, abort_upload-Same, end_download-Release,
}
use peer_server.Server.Good.{
  Good, Same-Good, Release-Good, in_range, count_le, if-Good, try_send_get-Good,
  refresh_chunk_download-Good,
}

module _ (plat : Platform) (n : ℕ) where
  time_download-Good : (s : PeerServer) (i : ℕ) → i < n → Good n s → Good n (time_download plat s i)
  unfolding time_download
  time_download-Good s i h g =
      let same =
        put_download-Same s i (dl_check_timeout plat (s.peers i).dl s.world)
          (index-dl_check_timeout plat _ _) in
      let checked = Same-Good same g in
      if-Good n _ _ (down s i)
        (λ d.
          if-Good n _ _ _
            (λ e.
              Release-Good
                (abort_download-Release plat _ i (in_range checked h) (same.down_eq i ∙ d)) checked)
            (λ e. checked))
        λ d. g

  time_upload-Good : (s : PeerServer) (i : ℕ) → i < n → Good n s → Good n (time_upload plat s i)
  unfolding time_upload
  time_upload-Good s i h g =
      let same = put_checked-Same s i (ul_check_timeout plat (s.peers i).ul s.world) in
      let r = ul_check_timeout plat (s.peers i).ul s.world in
      let checked = Same-Good same g in
      if-Good n _ _ (s.peers i).is_uploading
        (λ u.
          if-Good n _ _ _
            (λ e. elim (Bool-cases (down (put_checked s i r) i)) [
              | inl d ↦ Release-Good (abort_upload-Release plat _ i (in_range checked h) d) checked
              | inr d ↦ Same-Good (abort_upload-Same plat _ i d) checked
            ])
            (λ e. checked))
        λ d. g

  time_peer-Good : (s : PeerServer) (i : ℕ) → i < n → Good n s → Good n (time_peer plat s i)
  unfolding time_peer
  time_peer-Good s i h g =
      if-Good n _ _ (not (s.peers i).is_alive) (λ e. g)
        λ e. time_upload-Good _ i h (time_download-Good s i h g)

  time_peers-Good :
      (left i : ℕ) (s : PeerServer) → i + left ≤ n → Good n s → Good n (time_peers plat s left i)
  unfolding time_peers
  time_peers-Good zero i s h g = g
  time_peers-Good (suc left) i s h g =
      time_peers-Good left (i + 1) _ (omega arith) (time_peer-Good s i (omega arith) g)

  refresh_if_needed-Good : (s : PeerServer) → Good n s → Good n (refresh_if_needed plat s)
  unfolding refresh_if_needed
  refresh_if_needed-Good s g = if-Good n _ _ _ (λ e. refresh_chunk_download-Good plat n s g) λ e. g

  end_download-Good :
      (s : PeerServer) (i : ℕ) → i < n → down s i ≡ true → Good n s → Good n (end_download plat s i)
  end_download-Good s i h d g =
      let k = in_range g h in
      Release-Good (end_download-Release plat s i k d (g.good.claimed i k d).1) g

  module _ (s : PeerServer) (pkt : Packet) (i : ℕ) (h : i < n) (g : Good n s) where
    on_whohas-Good : Good n (on_whohas s pkt i)
    unfolding on_whohas
    on_whohas-Good =
        if-Good n _ _ _ (λ e. g)
          λ e.
            if-Good n _ _ (s.peers i).is_uploading (λ u. Same-Good (set_alive-Same s i) g)
              λ u. Same-Good (Same-trans (set_alive-Same s i) (send_ihave-Same _ pkt i)) g

    on_ihave-Good : Good n (on_ihave plat s pkt i)
    unfolding on_ihave
    on_ihave-Good =
        let parsed = Same-trans (set_alive-Same s i) (parse_download-Same _ i pkt) in
        if-Good n _ _ (down s i) (λ d. Same-Good (set_alive-Same s i) g)
          λ d.
            if-Good n _ _ _ (λ e. Same-Good parsed g)
              λ e. try_send_get-Good plat n _ i h (parsed.down_eq i ∙ d) (Same-Good parsed g)

    begin_upload-Good : (j : ℕ) → Good n (begin_upload plat s i j)
    unfolding begin_upload
    begin_upload-Good j =
        let stopped =
          if-Same (s.peers i).is_uploading (finish_upload-Same plat s i) (Same-refl s) in
        Same-Good
          (Same-trans stopped
            (Same-trans (start_upload-Same plat _ i j) (set_uploading-Same _ i true)))
          g

    on_get-Good : Good n (on_get plat s pkt i)
    unfolding on_get
    on_get-Good =
        if-Good n _ _ (not (s.peers i).is_alive) (λ e. g)
          λ e.
            if-Good n _ _ (not (ltb_ℤ s.ul_num s.max_conn)) (λ e. g)
              λ e. take-Good (hash2index s.haschunks (get_hash pkt 0))
      where
        take-Good : (o : Option ℕ) → Good n (elim o [ none ↦ s | some j ↦ begin_upload plat s i j ])
        take-Good none = g
        take-Good (some j) = begin_upload-Good j

    on_data-Good : Good n (on_data plat s pkt i)
    unfolding on_data
    on_data-Good =
        let r = dl_recv plat (s.peers i).dl pkt s.world in
        let same = put_download-Same s i r (index-dl_recv plat _ pkt _) in
        let received = Same-Good same g in
        if-Good n _ _ (not (s.peers i).is_alive || not (down s i)) (λ e. g)
          λ e.
            if-Good n _ _ r.dl.finished
              (λ f.
                refresh_if_needed-Good _
                  (end_download-Good _ i h (same.down_eq i ∙ ground arith) received))
              λ f. received

    on_ack-Good : Good n (on_ack plat s pkt i)
    unfolding on_ack
    on_ack-Good =
        let updated = update_upload-Same s i plat pkt.ack in
        if-Good n _ _ (not (s.peers i).is_alive || not (s.peers i).is_uploading) (λ e. g)
          λ e.
            if-Good n _ _ ((update_upload plat s i pkt.ack).peers i).ul.finished
              (λ f.
                Same-Good
                  (Same-trans updated
                    (Same-trans (finish_upload-Same plat _ i) (set_uploading-Same _ i false)))
                  g)
              λ f. Same-Good updated g

    dispatch-Good : Good n (dispatch plat s pkt i)
    unfolding dispatch
    dispatch-Good =
        if-Good n _ _ (pkt.type == type_whohas) (λ e. on_whohas-Good)
          λ e.
            if-Good n _ _ (pkt.type == type_ihave) (λ e. on_ihave-Good)
              λ e.
                if-Good n _ _ (pkt.type == type_get) (λ e. on_get-Good)
                  λ e.
                    if-Good n _ _ (pkt.type == type_data) (λ e. on_data-Good)
                      λ e. if-Good n _ _ (pkt.type == type_ack) (λ e. on_ack-Good) λ e. g

pub addr-in_range :
    (s : PeerServer) (addr : Addr) (i : ℕ) → addr2index s addr ≡ some i → i < s.peer_count
unfolding addr2index
addr-in_range s addr i e =
    let (a, b, t, first) = first_from-some _ s.peer_count 0 i e in omega arith

here_Good : (s : PeerServer) → IsConsistent s → Good s.peer_count s
here_Good s v = record { good = v; size = refl }

module _ (plat : Platform) (s : PeerServer) where
  -- Whatever packet arrives from whatever address, `parse_packet` keeps the invariant of the
  -- downloads, and does not change the number of peers.
  pub parse_packet-IsConsistent :
      (pkt : Packet) (addr : Addr)
      → IsConsistent s
      → IsConsistent (parse_packet plat s pkt addr)
        × ((parse_packet plat s pkt addr).peer_count ≡ s.peer_count)
  unfolding parse_packet
  parse_packet-IsConsistent pkt addr v =
      let r = found-Good (addr2index s addr) refl in (r.good, r.size)
    where
      found-Good :
          (o : Option ℕ)
          → addr2index s addr ≡ o
          → Good s.peer_count (elim o [ none ↦ s | some i ↦ dispatch plat s pkt i ])
      found-Good none e = here_Good s v
      found-Good (some i) e =
          dispatch-Good plat s.peer_count s pkt i (addr-in_range s addr i e) (here_Good s v)

  -- The round of the timer over all peers keeps the invariant of the downloads, whichever peers it
  -- gives up, and does not change the number of peers.
  pub check_all_timeout-IsConsistent :
      IsConsistent s
      → IsConsistent (check_all_timeout plat s)
        × ((check_all_timeout plat s).peer_count ≡ s.peer_count)
  unfolding check_all_timeout
  check_all_timeout-IsConsistent v =
      let g = here_Good s v in
      let timed = time_peers-Good plat s.peer_count s.peer_count 0 s (count_le g) g in
      let r =
        if-Good s.peer_count _ _ (ltb_ℤ (pos 0) (time_peers plat s s.peer_count 0).dl_remain)
          (λ e. refresh_chunk_download-Good plat s.peer_count _ timed) (λ e. timed) in
      (r.good, r.size)

  pub process_inbound_udp-IsConsistent :
      (pkt : Packet) (addr : Addr)
      → IsConsistent s
      → IsConsistent (process_inbound_udp plat s pkt addr)
  unfolding process_inbound_udp
  process_inbound_udp-IsConsistent pkt addr v = elim (Bool-cases (valid_packet pkt)) [
    | inl e ↦ rw e (parse_packet-IsConsistent pkt addr v).0
    | inr e ↦ rw e v
  ]
