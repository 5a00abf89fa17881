-- ===== src/Server/Start.antt =====
-- The invariant of the downloads from the start of the program on.
use peer_server.Base.{
  if_ind, ℕ, zero, suc, ◌+◌, ◌<◌, ◌≡◌, refl, ◌∙◌, inl, inr, Bool, true, false, not, Option, none,
  some, List, [], ◌∷◌, length, ltb, arith, ◌==◌, if◌then◌else◌, update, Bool-cases,
}
use peer_server.Base.Int.{ℤ, pos}
use peer_server.Chunklist.{unfetched, ChunkLine, ChunkList, read_lines, parse_chunk, max_chunk_num}
use peer_server.Packet.{Packet}
use peer_server.Platform.{Platform, World}
use peer_server.Server.{Addr, Peer, PeerServer, init_peer}
use peer_server.Server.Transfer.{send_whohas, emit_param}
use peer_server.Server.Handle.{start_get, process_get, bt_filename_len}
use peer_server.Server.Init.{
  BtPeer, BtConfig, fill_peers, init_peerlist, set_counters, peer_init, run_turn, run_turns,
}
use peer_server.Server.Starts.{peer_init-Fresh}
use peer_server.Server.Counts.{count_if-none, count_if-all}
use peer_server.Server.Downloads.{IsConsistent, Same, Same-IsConsistent, down, state, missing}
use peer_server.Server.Consistent.{process_inbound_udp-IsConsistent, check_all_timeout-IsConsistent}

-- Nobody downloads, and nothing of the list is fetched or being fetched.
fresh-IsConsistent :
    (s : PeerServer)
    → s.dl_num ≡ pos 0
    → s.dl_remain ≡ pos s.getchunks.count
    → ((j : ℕ) → j < s.peer_count → down s j ≡ false)
    → ((c : ℕ) → c < s.getchunks.count → state s c ≡ unfetched)
    → IsConsistent s
fresh-IsConsistent s n r d u = record {
  active = n ∙ rw (count_if-none (down s) s.peer_count d);
  remain = r ∙ rw (count_if-all (missing s) s.getchunks.count λ c h. rw (u c h));
  claimed = λ i h e. ground (arith, d i);
  apart = λ i j h k e. ground (arith, d i);
  owned = λ c h e. ground (arith, u c);
}

pub read_lines-unfetched :
    (room i : ℕ) (chunks : ℕ → ChunkLine) (lines : List (ℤ × List ℕ))
    → ((c : ℕ) → c < i → (chunks c).state ≡ unfetched)
    → (c : ℕ) → c < (read_lines room i chunks lines).count
    → ((read_lines room i chunks lines).chunks c).state ≡ unfetched
unfolding read_lines
read_lines-unfetched zero i chunks lines h = h
read_lines-unfetched (suc room) i chunks [] h = h
read_lines-unfetched (suc room) i chunks ((id, sha1) ∷ lines) h =
    read_lines-unfetched room (i + 1) _ lines λ c k. ground (arith, h c)

-- A flag that `init_peer` clears is not set in the list.
pub fill_peers-idle :
    (flag : Peer → Bool)
    → ((p : Peer) → flag (init_peer p) ≡ false)
    → (selfid : ℕ) (ps : List BtPeer) (peers : ℕ → Peer) (i : ℕ)
    → ((j : ℕ) → j < i → flag (peers j) ≡ false)
    → (j : ℕ) → j < (fill_peers selfid ps peers i).count
    → flag ((fill_peers selfid ps peers i).peers j) ≡ false
unfolding fill_peers
fill_peers-idle flag clear selfid [] peers i h = h
fill_peers-idle flag clear selfid (p ∷ ps) peers i h = elim (Bool-cases (p.id == selfid)) [
  | inl e ↦ rw e (fill_peers-idle flag clear selfid ps peers i h)
  | inr e ↦ rw e (
      fill_peers-idle flag clear selfid ps _ (i + 1)
        (taken (record (peers i) { id = p.id; addr = p.addr })))
]
  where
    taken : (p : Peer) (j : ℕ) → j < i + 1 → flag (update peers i (init_peer p) j) ≡ false
    taken p j k = if_ind (λ q. flag q ≡ false) (j == i) _ _ (λ e. clear p) (λ e. h j (ground arith))

listed-idle :
    (s : PeerServer) (config : BtConfig) (j : ℕ)
    → j < (init_peerlist s config.peers config.identity).peer_count
    → down (init_peerlist s config.peers config.identity) j ≡ false
unfolding init_peerlist init_peer
listed-idle s config =
    fill_peers-idle (λ p. p.is_downloading) (λ p. refl) config.identity config.peers s.peers 0
      λ j h. absurd (omega arith)

pub counters-IsConsistent :
    (config : BtConfig) (s : PeerServer) (w : World) (haschunks : ChunkList)
    → IsConsistent (
        set_counters
          (record (init_peerlist s config.peers config.identity) { world = w })
          config
          haschunks)
unfolding set_counters
counters-IsConsistent config s w haschunks =
    fresh-IsConsistent _ refl refl (listed-idle s config) λ c h. absurd (omega arith)

-- Whatever the files hold and the system answers, a start that succeeds ends in the invariant of
-- the downloads.
pub peer_init-IsConsistent :
    (plat : Platform) (config : BtConfig) (s t : PeerServer)
    → peer_init plat config s ≡ some t
    → IsConsistent t
peer_init-IsConsistent plat config s t =
    peer_init-Fresh plat IsConsistent counters-IsConsistent config s t

names-Same :
    (s : PeerServer) (f g : List ℕ) → Same s (record s { dl_filename = f; getchunk_file = g })
names-Same s f g = record {
  peers_eq = refl;
  chunks_eq = refl;
  active_eq = refl;
  remain_eq = refl;
  down_eq = λ j. refl;
  index_eq = λ j h. refl;
  state_eq = λ c. refl;
}

if-Consistent :
    (s t : PeerServer) (b : Bool)
    → IsConsistent s
    → IsConsistent t
    → IsConsistent (if b then s else t)
if-Consistent s t true x y = x
if-Consistent s t false x y = y

start_get-IsConsistent :
    (plat : Platform) (s : PeerServer) (c : ChunkList)
    → s.dl_num ≡ pos 0
    → ((i : ℕ) → i < s.peer_count → down s i ≡ false)
    → ((k : ℕ) → k < c.count → (c.chunks k).state ≡ unfetched)
    → IsConsistent (start_get plat s c)
unfolding start_get send_whohas emit_param
start_get-IsConsistent plat s c n idle u = fresh-IsConsistent _ n refl idle u

-- A GET command keeps the invariant if no peer is downloading at the time, also if it is refused or
-- its file cannot be opened.
pub process_get-IsConsistent :
    (plat : Platform) (s : PeerServer) (chunkfile outputfile : List ℕ)
    (lines : Option (List (ℤ × List ℕ)))
    → IsConsistent s
    → ((i : ℕ) → i < s.peer_count → down s i ≡ false)
    → IsConsistent (process_get plat s chunkfile lines outputfile)
unfolding process_get parse_chunk
process_get-IsConsistent plat s chunkfile outputfile lines v idle =
    if-Consistent _ _ (not (ltb (length outputfile) bt_filename_len)) v
      (if-Consistent _ _ (not (ltb (length chunkfile) bt_filename_len)) v (parsed lines))
  where
    named : PeerServer
    named = record s { dl_filename = outputfile; getchunk_file = chunkfile }

    parsed :
        (lines : Option (List (ℤ × List ℕ)))
        → IsConsistent (elim (parse_chunk s.getchunks lines) [
          | none ↦ named
          | some getchunks ↦ start_get plat named getchunks
        ])
    parsed none = Same-IsConsistent (names-Same s outputfile chunkfile) v
    parsed (some lines) =
        start_get-IsConsistent plat named _
          (v.active ∙ rw (count_if-none (down s) s.peer_count idle)) idle
          (read_lines-unfetched max_chunk_num 0 s.getchunks.chunks lines
            λ c h. absurd (omega arith))

-- The invariant of the downloads is kept by any number of turns of the main loop without a command,
-- whatever packets arrive in whatever order, and whatever the clock and the system answer.
pub run_turns-IsConsistent :
    (plat : Platform) (turns : List (Option (Packet × Addr))) (s : PeerServer)
    → IsConsistent s
    → IsConsistent (run_turns plat s turns)
unfolding run_turns run_turn
run_turns-IsConsistent plat [] s v = v
run_turns-IsConsistent plat (none ∷ turns) s v =
    run_turns-IsConsistent plat turns _ (check_all_timeout-IsConsistent plat s v).0
run_turns-IsConsistent plat (some (pkt, addr) ∷ turns) s v =
    run_turns-IsConsistent plat turns _
      (check_all_timeout-IsConsistent plat _ (process_inbound_udp-IsConsistent plat s pkt addr v)).0
