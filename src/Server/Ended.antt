-- ===== src/Server/Ended.antt =====
-- The end of a download: what it changes in the whole server.
use peer_server.Base.{ℕ, ◌≡◌, false}
use peer_server.Platform.{Platform}
use peer_server.Download.{Download}
use peer_server.Server.{PeerServer, set_peer}

-- What a step leaves alone that changes at most the states of chunks, the two counters of the
-- downloads and the output file.
pub record Beside (s t : PeerServer) : Type 0 where
  pub peers_eq : (j : ℕ) → t.peers j ≡ s.peers j
  pub has_eq : t.haschunks ≡ s.haschunks
  pub ihave_eq : t.ihavechunks ≡ s.ihavechunks
  pub sha1_eq : (c : ℕ) → (t.getchunks.chunks c).sha1 ≡ (s.getchunks.chunks c).sha1
  pub id_eq : (c : ℕ) → (t.getchunks.chunks c).id ≡ (s.getchunks.chunks c).id
  pub conn_eq : t.max_conn ≡ s.max_conn
  pub uploads_eq : t.ul_num ≡ s.ul_num
  pub asked_eq : t.last_whohas ≡ s.last_whohas
  pub sent_eq : t.world.sent ≡ s.world.sent
  pub winsizes_eq : t.world.winsizes ≡ s.world.winsizes

-- The server with the peer taken off its download.
abbrev pub idle : PeerServer → ℕ → PeerServer
idle s i = set_peer s i (record (s.peers i) { is_downloading = false })
