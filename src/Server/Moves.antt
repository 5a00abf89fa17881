-- ===== src/Server/Moves.antt =====
-- The steps of the server that take up a chunk, or let go of one.
use peer_server.Base.{
  ℕ, ◌<◌, ◌≡◌, refl, ap, inl, inr, Bool-cases, ◌+◌, ◌&&◌, ◌==◌, Bool, true, false, arith,
  if◌then◌else◌,
}
use peer_server.Base.Int.{ℤ, pred}
use peer_server.Chunklist.{ChunkState, unfetched, fetching, fetched, is_fetched}
use peer_server.Platform.{Platform, World, tick}
use peer_server.Download.{dl_init, chunk_size}
use peer_server.Server.{PeerServer, set_peer, set_state, die}
use peer_server.Server.Transfer.{
  emit_param, send_get, start_download, kill_download, check_hash_succeed, dl_save_buffer,
  saved_chunk, finish_upload,
}
use peer_server.Server.Refresh.{Found, take_found, get_found, abort_download, abort_upload, die_at}
use peer_server.Server.Handle.{put_back, end_download}
use peer_server.Server.Downloads.{Same, down, index, state}
use peer_server.Server.Claims.{Claim, Release}

if-Release :
    {s t u : PeerServer} {i : ℕ} {st : ChunkState} (b : Bool)
    → Release s t i st
    → Release s u i st
    → Release s (if b then t else u) i st
if-Release true a c = a
if-Release false a c = c

when_true :
    (P : PeerServer → Type 0) (t u : PeerServer) (b : Bool)
    → b ≡ true
    → P t
    → P (if b then t else u)
when_true P t u true e x = x
when_true P t u false e x = cc

when_false :
    (P : PeerServer → Type 0) (t u : PeerServer) (b : Bool)
    → b ≡ false
    → P u
    → P (if b then t else u)
when_false P t u true e x = cc
when_false P t u false e x = x

put_not_saved :
    (P : PeerServer → Type 0) (t : PeerServer) (c : ℕ)
    → state t c ≡ fetching
    → P (set_state t c unfetched)
    → P (put_back t c)
unfolding put_back
put_not_saved P t c e x = when_false P _ _ _ (ap is_fetched e) x

put_saved :
    (P : PeerServer → Type 0) (t : PeerServer) (c : ℕ)
    → state t c ≡ fetched
    → P t
    → P (put_back t c)
unfolding put_back
put_saved P t c e x = when_true P _ _ _ (ap is_fetched e) x

module _ (plat : Platform) (s : PeerServer) (i : ℕ) where
  pub get_found-Claim :
      (f : Found)
      → i < s.peer_count
      → down s i ≡ false
      → (f.index < s.getchunks.count) × (state s f.index ≡ unfetched)
      → Claim s (get_found plat s i f) i f.index
  unfolding get_found send_get emit_param start_download dl_init take_found set_peer set_state
  get_found-Claim f h d k = record {
    here = h;
    idle = d;
    there = k.0;
    free = k.1;
    peers_eq = refl;
    chunks_eq = refl;
    active_eq = refl;
    remain_eq = refl;
    down_eq = λ j. ground arith;
    index_eq = λ j. ground arith;
    state_eq = λ c. ground arith;
  }

  -- The change that both ways to give up a peer share.
  dropped-Release :
      (n : ℤ) (w : World)
      → i < s.peer_count
      → down s i ≡ true
      → Release s
          (record (die_at (kill_download s (s.peers i).dl) i) { ul_num = n; world = w })
          i
          unfetched
  unfolding kill_download die_at die set_peer set_state
  dropped-Release n w h d = record {
    here = h;
    busy = d;
    ends = λ e. cc;
    peers_eq = refl;
    chunks_eq = refl;
    active_eq = refl;
    remain_eq = refl;
    down_eq = λ j. ground arith;
    index_eq = λ j ne. ground arith;
    state_eq = λ c. ground arith;
  }

  pub abort_download-Release :
      i < s.peer_count → down s i ≡ true → Release s (abort_download plat s i) i unfetched
  unfolding abort_download kill_download die_at finish_upload set_peer set_state
  abort_download-Release h d =
      if-Release (s.peers i).is_uploading (dropped-Release _ _ h d) (dropped-Release _ _ h d)

  pub abort_upload-Release :
      i < s.peer_count → down s i ≡ true → Release s (abort_upload plat s i) i unfetched
  unfolding abort_upload kill_download die_at finish_upload set_peer set_state
  abort_upload-Release h d =
      when_true (λ t. Release s t i unfetched) _ _ _ d (dropped-Release _ _ h d)

  pub abort_upload-Same : down s i ≡ false → Same s (abort_upload plat s i)
  unfolding abort_upload die_at die finish_upload set_peer
  abort_upload-Same d =
      when_false (λ t. Same s t) _ _ _ d
        (record {
          peers_eq = refl;
          chunks_eq = refl;
          active_eq = refl;
          remain_eq = refl;
          down_eq = λ j. ground arith;
          index_eq = λ j h. ground arith;
          state_eq = λ c. refl;
        })

  -- The state behind the first step of `end_download`.
  abbrev freed : World → PeerServer
  freed w = record (set_peer s i (record (s.peers i) { is_downloading = false })) {
    dl_num = pred s.dl_num;
    world = w;
  }

  -- Whether the chunk is saved: its digest is right, the file opens, and `write` writes all of it.
  unfoldable pub is_saved : Bool
  is_saved =
      check_hash_succeed plat s (s.peers i).dl
      && (plat.open_file s.world.calls && plat.write (s.world.calls + 1 + 1) == chunk_size)

  abbrev Ended : Bool → PeerServer → Type 0
  Ended b t = Release s (put_back t (index s i)) i (if b then fetched else unfetched)

  module _ (h : i < s.peer_count) (d : down s i ≡ true) (f : state s (index s i) ≡ fetching) where
    freed-Ended : (w : World) → Ended false (freed w)
    unfolding put_back set_peer set_state
    freed-Ended w =
        put_not_saved (λ t. Release s t i unfetched) (freed w) (index s i) f
          (record {
            here = h;
            busy = d;
            ends = λ e. cc;
            peers_eq = refl;
            chunks_eq = refl;
            active_eq = refl;
            remain_eq = refl;
            down_eq = λ j. ground arith;
            index_eq = λ j ne. ground arith;
            state_eq = λ c. ground arith;
          })

    saved-Ended : (w w' : World) → Ended true (saved_chunk (freed w) (s.peers i).dl w')
    unfolding put_back saved_chunk set_peer set_state
    saved-Ended w w' =
        put_saved (λ t. Release s t i fetched) (saved_chunk (freed w) (s.peers i).dl w') (index s i)
          (ground arith)
          (record {
            here = h;
            busy = d;
            ends = λ e. cc;
            peers_eq = refl;
            chunks_eq = refl;
            active_eq = refl;
            remain_eq = refl;
            down_eq = λ j. ground arith;
            index_eq = λ j ne. ground arith;
            state_eq = λ c. ground arith;
          })

    save-Ended :
        Ended
          (plat.open_file s.world.calls && plat.write (s.world.calls + 1 + 1) == chunk_size)
          (dl_save_buffer plat (freed s.world) (s.peers i).dl)
    unfolding dl_save_buffer tick
    save-Ended = elim (Bool-cases (plat.open_file s.world.calls)) [
      | inl e ↦ elim (Bool-cases (plat.write (s.world.calls + 1 + 1) == chunk_size)) [
        | inl g ↦ rw (e, g) (saved-Ended s.world _)
        | inr g ↦ rw (e, g) (freed-Ended _)
      ]
      | inr e ↦ rw e (freed-Ended _)
    ]

    pub end_download-Release :
        Release s (end_download plat s i) i (if is_saved then fetched else unfetched)
    unfolding end_download set_peer is_saved check_hash_succeed
    end_download-Release = elim (Bool-cases (check_hash_succeed plat s (s.peers i).dl)) [
      | inl e ↦ rw e save-Ended
      | inr e ↦ rw e (freed-Ended s.world)
    ]
