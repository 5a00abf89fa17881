-- ===== src/Server/Steps.antt =====
-- Each function of the server as a step that touches no download, or takes up or lets go of one.
use peer_server.Base.{
  ℕ, zero, suc, ◌+◌, ◌≡◌, refl, ap, ◌∙◌, Bool, true, false, not, arith, if◌then◌else◌,
}
use peer_server.Base.Int.{ℤ, succ}
use peer_server.Chunklist.{ChunkList}
use peer_server.Packet.{Packet}
use peer_server.Platform.{Platform, World}
use peer_server.Util.{get_timestamp_now}
use peer_server.Download.{
  Download, Received, dl_recv, dl_accept, dl_measure, dl_store, dl_answer, get_ack,
  dl_check_timeout, dl_loss, ack_again,
}
use peer_server.Upload.{Sent, ul_init, ul_send}
use peer_server.Upload.Control.{Checked}
use peer_server.Server.{Peer, PeerServer, set_peer}
use peer_server.Server.Transfer.{
  emit_param, send_whohas, send_ihave, parse_download, put_upload, start_upload, update_upload,
  finish_upload,
}
use peer_server.Server.Refresh.{whohas_again, put_download, put_checked}
use peer_server.Server.Handle.{set_alive, set_uploading}
use peer_server.Server.Downloads.{Same, down, index}

-- The chunk of a download never changes.
module _ (plat : Platform) where
  pub index-dl_recv :
      (dl : Download) (pkt : Packet) (w : World)
      → (dl_recv plat dl pkt w).dl.get_index ≡ dl.get_index
  unfolding dl_recv dl_accept dl_measure dl_store dl_answer get_ack
  index-dl_recv dl pkt w = ground arith

  index-ack_again :
      (n : ℕ) (dl : Download) (w : World) → (ack_again n dl w).0.get_index ≡ dl.get_index
  unfolding ack_again get_ack
  index-ack_again zero dl w = refl
  index-ack_again (suc n) dl w = index-ack_again n (get_ack dl) _

  pub index-dl_check_timeout :
      (dl : Download) (w : World) → (dl_check_timeout plat dl w).dl.get_index ≡ dl.get_index
  unfolding dl_check_timeout dl_loss
  index-dl_check_timeout dl w = ground (
    arith,
    index-ack_again 3 (record dl { timeout_cnt = dl.timeout_cnt + 1 }) (get_timestamp_now plat w).1,
  )

-- A change of one peer's record that keeps the flag and the index.
set_peer-Same :
    (s : PeerServer) (i : ℕ) (p : Peer)
    → p.is_downloading ≡ down s i
    → (down s i ≡ true → p.dl.get_index ≡ index s i)
    → Same s (set_peer s i p)
unfolding set_peer
set_peer-Same s i p d x = record {
  peers_eq = refl;
  chunks_eq = refl;
  active_eq = refl;
  remain_eq = refl;
  down_eq = λ j. ground (arith, ap (down s) {x = j} {y = i});
  index_eq = λ j h. ground (arith, ap (index s) {x = j} {y = i}, ap (down s) {x = j} {y = i});
  state_eq = λ c. refl;
}

-- A change of fields that the invariant does not read.
fields-Same :
    (s : PeerServer) (n : ℤ) (c : ChunkList) (t : ℕ) (w : World)
    → Same s (record s { ul_num = n; ihavechunks = c; last_whohas = t; world = w })
fields-Same s n c t w = record {
  peers_eq = refl;
  chunks_eq = refl;
  active_eq = refl;
  remain_eq = refl;
  down_eq = λ j. refl;
  index_eq = λ j h. refl;
  state_eq = λ c. refl;
}

world-Same : (s : PeerServer) (w : World) → Same s (record s { world = w })
world-Same s w = fields-Same s s.ul_num s.ihavechunks s.last_whohas w

pub if-Same : {s t u : PeerServer} (b : Bool) → Same s t → Same s u → Same s (if b then t else u)
if-Same true a c = a
if-Same false a c = c

pub Same-trans : {s t u : PeerServer} → Same s t → Same t u → Same s u
Same-trans a b = record {
  peers_eq = b.peers_eq ∙ a.peers_eq;
  chunks_eq = b.chunks_eq ∙ a.chunks_eq;
  active_eq = b.active_eq ∙ a.active_eq;
  remain_eq = b.remain_eq ∙ a.remain_eq;
  down_eq = λ j. b.down_eq j ∙ a.down_eq j;
  index_eq = λ j h. b.index_eq j (a.down_eq j ∙ h) ∙ a.index_eq j h;
  state_eq = λ c. b.state_eq c ∙ a.state_eq c;
}

pub Same-refl : (s : PeerServer) → Same s s
Same-refl s = world-Same s s.world

module _ (s : PeerServer) (i : ℕ) where
  pub set_alive-Same : Same s (set_alive s i)
  unfolding set_alive
  set_alive-Same = set_peer-Same s i _ refl (λ h. refl)

  pub set_uploading-Same : (b : Bool) → Same s (set_uploading s i b)
  unfolding set_uploading
  set_uploading-Same b = set_peer-Same s i _ refl (λ h. refl)

  pub parse_download-Same : (pkt : Packet) → Same s (parse_download s pkt i)
  unfolding parse_download
  parse_download-Same pkt = set_peer-Same s i _ refl (λ h. refl)

  pub put_download-Same : (r : Received) → r.dl.get_index ≡ index s i → Same s (put_download s i r)
  unfolding put_download
  put_download-Same r e =
      Same-trans (set_peer-Same s i (record (s.peers i) { dl = r.dl }) refl (λ h. e))
        (world-Same _ r.world)

  pub put_upload-Same : (r : Sent) → Same s (put_upload s i r)
  unfolding put_upload
  put_upload-Same r =
      Same-trans (set_peer-Same s i (record (s.peers i) { ul = r.ul }) refl (λ h. refl))
        (world-Same _ r.world)

  pub put_checked-Same : (r : Checked) → Same s (put_checked s i r)
  unfolding put_checked
  put_checked-Same r =
      Same-trans (set_peer-Same s i (record (s.peers i) { ul = r.ul }) refl (λ h. refl))
        (world-Same _ r.world)

  pub update_upload-Same : (plat : Platform) (ack : ℕ) → Same s (update_upload plat s i ack)
  unfolding update_upload
  update_upload-Same plat ack = put_upload-Same _

ul_num-Same : (s : PeerServer) (n : ℤ) (w : World) → Same s (record s { ul_num = n; world = w })
ul_num-Same s n w = fields-Same s n s.ihavechunks s.last_whohas w

pub finish_upload-Same :
    (plat : Platform) (s : PeerServer) (i : ℕ) → Same s (finish_upload plat s i)
unfolding finish_upload
finish_upload-Same plat s i = ul_num-Same s _ _

pub start_upload-Same :
    (plat : Platform) (s : PeerServer) (i h : ℕ) → Same s (start_upload plat s i h)
unfolding start_upload
start_upload-Same plat s i h =
    let started = ul_init plat s.haschunks i h s.world in
    let sent = ul_send plat started.ul started.world in
    if-Same (not started.good) (put_upload-Same s i started) (
      if-Same (not sent.good) (put_upload-Same s i sent)
        (Same-trans (put_upload-Same s i sent) (ul_num-Same _ (succ s.ul_num) _)))

pub send_whohas-Same : (s : PeerServer) → Same s (send_whohas s)
unfolding send_whohas emit_param
send_whohas-Same s = world-Same s _

pub send_ihave-Same : (s : PeerServer) (pkt : Packet) (i : ℕ) → Same s (send_ihave s pkt i)
unfolding send_ihave emit_param
send_ihave-Same s pkt i = if-Same _ (fields-Same s _ _ _ _) (fields-Same s _ _ _ _)

pub whohas_again-Same : (plat : Platform) (s : PeerServer) → Same s (whohas_again plat s)
unfolding whohas_again send_whohas emit_param
whohas_again-Same plat s = if-Same _ (fields-Same s _ _ _ _) (fields-Same s _ _ _ _)
