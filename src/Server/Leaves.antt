-- ===== src/Server/Leaves.antt =====
-- What leaves the output file alone: the functions of the packet handler and of the timer.
use peer_server.Base.{ℕ, ◌≡◌, ◌==◌, refl, ap, ◌∙◌, Bool, true, false, not, arith, if◌then◌else◌}
use peer_server.Chunklist.{ChunkState, unfetched, fetching, is_fetched}
use peer_server.Packet.{Packet, get_chunk_cnt}
use peer_server.Platform.{Platform, emit}
use peer_server.Download.{Download}
use peer_server.Upload.{ul_init, ul_send}
use peer_server.Server.{PeerServer, set_peer, set_state}
use peer_server.Server.Transfer.{
  match_hashes, emit_param, send_whohas, send_ihave, parse_download, put_upload, update_upload,
  start_upload, finish_upload, send_get, start_download, kill_download,
}
use peer_server.Server.Refresh.{die_at}
use peer_server.Server.Handle.{set_alive, set_uploading, put_back}
use peer_server.Server.Downloads.{state}
use peer_server.Server.Unwritten.{
  ul_handle_ack-Spared, ul_send-Spared, ul_init-Spared, ul_deinit-Spared, dl_init-Spared,
}

-- A step that writes nothing: the lines of `getchunks` stay, and no chunk becomes fetched.
pub record Leaves (s t : PeerServer) : Type 0 where
  pub count_eq : t.getchunks.count ≡ s.getchunks.count
  pub sha1_eq : (c : ℕ) → (t.getchunks.chunks c).sha1 ≡ (s.getchunks.chunks c).sha1
  pub id_eq : (c : ℕ) → (t.getchunks.chunks c).id ≡ (s.getchunks.chunks c).id
  pub unfetched_eq : (c : ℕ) → is_fetched (state s c) ≡ false → is_fetched (state t c) ≡ false
  pub saved_eq : t.world.saved ≡ s.world.saved

pub Leaves-trans : {s t u : PeerServer} → Leaves s t → Leaves t u → Leaves s u
Leaves-trans a b = record {
  count_eq = b.count_eq ∙ a.count_eq;
  sha1_eq = λ c. b.sha1_eq c ∙ a.sha1_eq c;
  id_eq = λ c. b.id_eq c ∙ a.id_eq c;
  unfetched_eq = λ c e. b.unfetched_eq c (a.unfetched_eq c e);
  saved_eq = b.saved_eq ∙ a.saved_eq;
}

pub if-Leaves :
    {s t u : PeerServer} (b : Bool) → Leaves s t → Leaves s u → Leaves s (if b then t else u)
if-Leaves true a c = a
if-Leaves false a c = c

-- A step that leaves `getchunks` alone.
pub chunks-Leaves :
    {s t : PeerServer} → t.getchunks ≡ s.getchunks → t.world.saved ≡ s.world.saved → Leaves s t
chunks-Leaves e w = record {
  count_eq = ap (λ g. g.count) e;
  sha1_eq = λ c. ap (λ g. (g.chunks c).sha1) e;
  id_eq = λ c. ap (λ g. (g.chunks c).id) e;
  unfetched_eq = λ c f. ap (λ g. is_fetched (g.chunks c).state) e ∙ f;
  saved_eq = w;
}

pub Leaves-refl : (s : PeerServer) → Leaves s s
Leaves-refl s = chunks-Leaves refl refl

pub set_state-Leaves :
    (s : PeerServer) (i : ℕ) (st : ChunkState) → is_fetched st ≡ false → Leaves s (set_state s i st)
unfolding set_state
set_state-Leaves s i st e = record {
  count_eq = refl;
  sha1_eq = λ c. ground (arith, ap (λ k. (s.getchunks.chunks k).sha1) {x = c} {y = i});
  id_eq = λ c. ground (arith, ap (λ k. (s.getchunks.chunks k).id) {x = c} {y = i});
  unfetched_eq = λ c f. ground arith;
  saved_eq = refl;
}

module _ (s : PeerServer) (i : ℕ) where
  pub set_alive-Leaves : Leaves s (set_alive s i)
  unfolding set_alive set_peer
  set_alive-Leaves = chunks-Leaves refl refl

  pub set_uploading-Leaves : (b : Bool) → Leaves s (set_uploading s i b)
  unfolding set_uploading set_peer
  set_uploading-Leaves b = chunks-Leaves refl refl

  pub die-Leaves : Leaves s (die_at s i)
  unfolding die_at set_peer
  die-Leaves = chunks-Leaves refl refl

  pub parse_download-Leaves : (pkt : Packet) → Leaves s (parse_download s pkt i)
  unfolding parse_download set_peer
  parse_download-Leaves pkt = chunks-Leaves refl refl

  pub put_back-Leaves : Leaves s (put_back s i)
  unfolding put_back
  put_back-Leaves = if-Leaves _ (Leaves-refl s) (set_state-Leaves s i unfetched refl)

  pub send_ihave-Leaves : (pkt : Packet) → Leaves s (send_ihave s pkt i)
  unfolding send_ihave emit_param emit
  send_ihave-Leaves pkt =
      let found = match_hashes s pkt (get_chunk_cnt pkt) 0 (record (s.ihavechunks) { count = 0 }) in
      if-Leaves (found.count == 0) (chunks-Leaves refl refl) (chunks-Leaves refl refl)

  pub send_get-Leaves : (c : ℕ) → Leaves s (send_get s i c)
  unfolding send_get emit_param emit
  send_get-Leaves c = Leaves-trans (set_state-Leaves s c fetching refl) (chunks-Leaves refl refl)

pub send_whohas-Leaves : (s : PeerServer) → Leaves s (send_whohas s)
unfolding send_whohas emit_param emit
send_whohas-Leaves s = chunks-Leaves refl refl

pub kill_download-Leaves : (s : PeerServer) (dl : Download) → Leaves s (kill_download s dl)
unfolding kill_download
kill_download-Leaves s dl =
    Leaves-trans (set_state-Leaves s dl.get_index unfetched refl) (chunks-Leaves refl refl)

module _ (plat : Platform) (s : PeerServer) (i : ℕ) where
  pub update_upload-Leaves : (ack : ℕ) → Leaves s (update_upload plat s i ack)
  unfolding update_upload put_upload set_peer
  update_upload-Leaves ack =
      chunks-Leaves refl
        (ul_send-Spared plat _ _ ∙ ul_handle_ack-Spared plat (s.peers i).ul ack s.world)

  pub finish_upload-Leaves : Leaves s (finish_upload plat s i)
  unfolding finish_upload
  finish_upload-Leaves = chunks-Leaves refl (ul_deinit-Spared plat (s.peers i).ul s.world)

  pub start_upload-Leaves : (c : ℕ) → Leaves s (start_upload plat s i c)
  unfolding start_upload put_upload set_peer
  start_upload-Leaves c =
      let started = ul_init plat s.haschunks i c s.world in
      let first = ul_init-Spared plat s.haschunks i c s.world in
      let sent = ul_send plat started.ul started.world in
      let both = ul_send-Spared plat started.ul started.world ∙ first in
      if-Leaves (not started.good) (chunks-Leaves refl first)
        (if-Leaves (not sent.good) (chunks-Leaves refl both) (chunks-Leaves refl both))

  pub start_download-Leaves : (c : ℕ) → Leaves s (start_download plat s i c)
  unfolding start_download set_peer
  start_download-Leaves c = chunks-Leaves refl (dl_init-Spared plat i c s.dl_filename s.world)
