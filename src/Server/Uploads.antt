-- ===== src/Server/Uploads.antt =====
-- The counter of the uploads: which functions leave it and the flags of the peers alone.
use peer_server.Base.{
  ◌==◌, ℕ, zero, suc, ◌+◌, ◌≤◌, ◌≡◌, refl, ap, ◌∙◌, Bool, true, false, not, Option, none, some,
  arith, if◌then◌else◌,
}
use peer_server.Base.Int.{ℤ, pos, pred, pos_part}
use peer_server.Chunklist.{ChunkList}
use peer_server.Packet.{Packet}
use peer_server.Platform.{Platform, World, tick}
use peer_server.Download.{chunk_size, Download, Received}
use peer_server.Upload.{Sent}
use peer_server.Upload.Control.{Checked}
use peer_server.Server.{Peer, PeerServer, set_peer, set_state}
use peer_server.Server.Counts.{count_if}
use peer_server.Server.Transfer.{
  emit_param, send_whohas, send_ihave, parse_download, put_upload, update_upload, send_get,
  start_download, kill_download, saved_chunk, dl_save_buffer, check_hash_succeed,
}
use peer_server.Server.Refresh.{
  Found, find_in_queue, take_found, get_found, try_send_get, ask_peers, not_good_for_download,
  whohas_again, refresh_chunk_download, put_download, put_checked,
}
use peer_server.Server.Handle.{set_alive, put_back, end_download, refresh_if_needed}

abbrev pub up : PeerServer → ℕ → Bool
up s i = (s.peers i).is_uploading

-- `ul_num` is the number of the `n` peers that are marked as uploading, at most `max_conn`.
pub record IsCounted (n : ℕ) (max_conn : ℤ) (s : PeerServer) : Type 0 where
  pub size : s.peer_count ≡ n
  pub conn : s.max_conn ≡ max_conn
  pub active : s.ul_num ≡ pos (count_if (up s) n)
  pub limited : count_if (up s) n ≤ pos_part max_conn

-- A step that touches no upload.
pub record Spares (s t : PeerServer) : Type 0 where
  pub size : t.peer_count ≡ s.peer_count
  pub conn : t.max_conn ≡ s.max_conn
  pub active : t.ul_num ≡ s.ul_num
  pub up_eq : (j : ℕ) → up t j ≡ up s j

pub Spares-trans : {s t u : PeerServer} → Spares s t → Spares t u → Spares s u
Spares-trans a b = record {
  size = b.size ∙ a.size;
  conn = b.conn ∙ a.conn;
  active = b.active ∙ a.active;
  up_eq = λ j. b.up_eq j ∙ a.up_eq j;
}

pub if-Spares :
    {s t u : PeerServer} (b : Bool) → Spares s t → Spares s u → Spares s (if b then t else u)
if-Spares true a c = a
if-Spares false a c = c

pub fields-Spares :
    (s : PeerServer) (g i : ChunkList) (d r : ℤ) (t : ℕ) (w : World)
    → Spares s (record s {
      getchunks = g;
      ihavechunks = i;
      dl_num = d;
      dl_remain = r;
      last_whohas = t;
      world = w;
    })
fields-Spares s g i d r t w = record { size = refl; conn = refl; active = refl; up_eq = λ j. refl }

pub Spares-refl : (s : PeerServer) → Spares s s
Spares-refl s = record { size = refl; conn = refl; active = refl; up_eq = λ j. refl }

pub set_peer-Spares :
    (s : PeerServer) (i : ℕ) (p : Peer) → p.is_uploading ≡ up s i → Spares s (set_peer s i p)
unfolding set_peer
set_peer-Spares s i p e = record {
  size = refl;
  conn = refl;
  active = refl;
  up_eq = λ j. ground (arith, ap (up s) {x = j} {y = i});
}

module _ (s : PeerServer) (i : ℕ) where
  pub set_alive-Spares : Spares s (set_alive s i)
  unfolding set_alive
  set_alive-Spares = set_peer-Spares s i _ refl

  pub parse_download-Spares : (pkt : Packet) → Spares s (parse_download s pkt i)
  unfolding parse_download
  parse_download-Spares pkt = set_peer-Spares s i _ refl

  pub put_download-Spares : (r : Received) → Spares s (put_download s i r)
  unfolding put_download
  put_download-Spares r =
      Spares-trans (set_peer-Spares s i (record (s.peers i) { dl = r.dl }) refl)
        (fields-Spares _ _ _ _ _ _ r.world)

  pub put_upload-Spares : (r : Sent) → Spares s (put_upload s i r)
  unfolding put_upload
  put_upload-Spares r =
      Spares-trans (set_peer-Spares s i (record (s.peers i) { ul = r.ul }) refl)
        (fields-Spares _ _ _ _ _ _ r.world)

  pub put_checked-Spares : (r : Checked) → Spares s (put_checked s i r)
  unfolding put_checked
  put_checked-Spares r =
      Spares-trans (set_peer-Spares s i (record (s.peers i) { ul = r.ul }) refl)
        (fields-Spares _ _ _ _ _ _ r.world)

  pub update_upload-Spares : (plat : Platform) (ack : ℕ) → Spares s (update_upload plat s i ack)
  unfolding update_upload
  update_upload-Spares plat ack = put_upload-Spares _

pub kill_download-Spares : (s : PeerServer) (dl : Download) → Spares s (kill_download s dl)
unfolding kill_download set_state
kill_download-Spares s dl = fields-Spares s _ _ _ _ _ _

pub send_whohas-Spares : (s : PeerServer) → Spares s (send_whohas s)
unfolding send_whohas emit_param
send_whohas-Spares s = fields-Spares s _ _ _ _ _ _

pub send_ihave-Spares : (s : PeerServer) (pkt : Packet) (i : ℕ) → Spares s (send_ihave s pkt i)
unfolding send_ihave emit_param
send_ihave-Spares s pkt i = if-Spares _ (fields-Spares s _ _ _ _ _ _) (fields-Spares s _ _ _ _ _ _)

whohas_again-Spares : (plat : Platform) (s : PeerServer) → Spares s (whohas_again plat s)
unfolding whohas_again send_whohas emit_param
whohas_again-Spares plat s = if-Spares _ (fields-Spares s _ _ _ _ _ _) (fields-Spares s _ _ _ _ _ _)

-- A download that starts.
get_found-Spares :
    (plat : Platform) (s : PeerServer) (i : ℕ) (f : Found) → Spares s (get_found plat s i f)
unfolding get_found take_found send_get emit_param set_state start_download
get_found-Spares plat s i f = Spares-trans (set_peer-Spares s i _ refl) (
    Spares-trans (fields-Spares _ _ _ _ _ _ _) (
      Spares-trans (set_peer-Spares _ i _ refl)
        (Spares-trans (set_peer-Spares _ i _ refl) (fields-Spares _ _ _ _ _ _ _))))

module _ (plat : Platform) where
  pub try_send_get-Spares : (s : PeerServer) (i : ℕ) → Spares s (try_send_get plat s i)
  unfolding try_send_get
  try_send_get-Spares s i = take_Spares (find_in_queue s.getchunks (s.peers i).hasqueue)
    where
      take_Spares :
          (o : Option Found) → Spares s (elim o [ none ↦ s | some f ↦ get_found plat s i f ])
      take_Spares none = Spares-refl s
      take_Spares (some f) = get_found-Spares plat s i f

  ask_peers-Spares : (left i : ℕ) (s : PeerServer) → Spares s (ask_peers plat s left i)
  unfolding ask_peers
  ask_peers-Spares zero i s = Spares-refl s
  ask_peers-Spares (suc left) i s = if-Spares _ (Spares-refl s) (
      if-Spares (not_good_for_download (s.peers i)) (ask_peers-Spares left (i + 1) s)
        (Spares-trans (try_send_get-Spares s i) (ask_peers-Spares left (i + 1) _)))

  pub refresh-Spares : (s : PeerServer) → Spares s (refresh_chunk_download plat s)
  unfolding refresh_chunk_download
  refresh-Spares s =
      let asked = ask_peers-Spares s.peer_count 0 s in
      if-Spares _ (Spares-trans asked (whohas_again-Spares plat _)) asked

  pub refresh_if_needed-Spares : (s : PeerServer) → Spares s (refresh_if_needed plat s)
  unfolding refresh_if_needed
  refresh_if_needed-Spares s = if-Spares _ (refresh-Spares s) (Spares-refl s)

  save-Spares : (s : PeerServer) (dl : Download) → Spares s (dl_save_buffer plat s dl)
  unfolding dl_save_buffer saved_chunk set_state
  save-Spares s dl = if-Spares (not (plat.open_file s.world.calls)) (fields-Spares s _ _ _ _ _ _) (
      if-Spares (plat.write (tick (tick s.world)).calls == chunk_size) (fields-Spares s _ _ _ _ _ _)
        (fields-Spares s _ _ _ _ _ _))

  pub end_download-Spares : (s : PeerServer) (i : ℕ) → Spares s (end_download plat s i)
  unfolding end_download put_back set_state
  end_download-Spares s i =
      let freed =
        Spares-trans (set_peer-Spares s i (record (s.peers i) { is_downloading = false }) refl)
          (fields-Spares _ _ _ (pred s.dl_num) _ _ _) in
      let saved =
        Spares-trans freed
          (if-Spares (check_hash_succeed plat _ _) (save-Spares _ _) (Spares-refl _)) in
      Spares-trans saved (if-Spares _ (Spares-refl _) (fields-Spares _ _ _ _ _ _ _))
