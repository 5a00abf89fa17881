-- ===== src/Server/Started.antt =====
-- The number of uploads from the start of the program on: it is counted, and limited.
use peer_server.Base.{ℕ, ◌≤◌, ◌<◌, ◌≡◌, refl, false, some, List, arith}
use peer_server.Base.Int.{pos, pos_part}
use peer_server.Chunklist.{ChunkList}
use peer_server.Platform.{Platform, World}
use peer_server.BtParse.{returns}
use peer_server.Server.{PeerServer, init_peer}
use peer_server.Server.Counts.{count_if, count_if-none}
use peer_server.Server.Init.{BtConfig, init_peerlist, set_counters}
use peer_server.Server.Main.{Turn, Program, Setup, main, peer_turns}
use peer_server.Server.Start.{fill_peers-idle}
use peer_server.Server.Uploads.{up, IsCounted}
use peer_server.Server.Begins.{Works}
use peer_server.Server.Slots.{peer_turns-IsCounted}
use peer_server.Server.Starts.{main-Fresh}

-- The start: nobody uploads.
listed-idle :
    (s : PeerServer) (config : BtConfig) (j : ℕ)
    → j < (init_peerlist s config.peers config.identity).peer_count
    → up (init_peerlist s config.peers config.identity) j ≡ false
unfolding init_peerlist init_peer
listed-idle s config =
    fill_peers-idle (λ p. p.is_uploading) (λ p. refl) config.identity config.peers s.peers 0
      λ j h. absurd (omega arith)

abbrev Counted : PeerServer → Type 0
Counted u = IsCounted u.peer_count u.max_conn u

counters-IsCounted :
    (config : BtConfig) (s : PeerServer) (w : World) (haschunks : ChunkList)
    → Counted (
        set_counters
          (record (init_peerlist s config.peers config.identity) { world = w })
          config
          haschunks)
unfolding set_counters
counters-IsCounted config s w haschunks =
    let listed = init_peerlist s config.peers config.identity in
    let c = count_if-none (up listed) listed.peer_count (listed-idle s config) in
    record { size = refl; conn = refl; active = rw c refl; limited = rw c (omega arith) }

module _ (plat : Platform) where
  -- While `mmap` does not fail and the clock runs: once `main` has reached its loop, after any turns
  -- with whatever datagrams and commands, `ul_num` is the number of the peers that are marked as
  -- uploading, and no more than `max_conn` are, or none if that is negative.
  pub uploads_lem :
      Works plat
      → (setup : Setup) (psvr : PeerServer) (p q : Program) (turns : List Turn)
      → main plat setup psvr ≡ returns p
      → peer_turns plat turns p ≡ some q
      → (q.psvr.ul_num ≡ pos (count_if (up q.psvr) q.psvr.peer_count))
        × (count_if (up q.psvr) q.psvr.peer_count ≤ pos_part q.psvr.max_conn)
  uploads_lem works setup psvr p q turns e d =
      let started = main-Fresh plat Counted counters-IsCounted setup psvr p e in
      let v = peer_turns-IsCounted plat _ _ works turns p q started d in
      rw (v.size, v.conn) (v.active, v.limited)
