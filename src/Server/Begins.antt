-- ===== src/Server/Begins.antt =====
-- The counter of the uploads when one begins.
use peer_server.Base.{ℕ, zero, suc, ◌≡◌, ◌≢◌, refl, inl, inr, true, false, none, arith, Bool-cases}
use peer_server.Base.Int.{ℤ, pos, negsuc, succ, pred}
use peer_server.Platform.{Platform}
use peer_server.Chunklist.{ChunkList}
use peer_server.Platform.{World}
use peer_server.Upload.{Upload, Sent, ul_init, ul_send, load_data, get_chunk_offset}
use peer_server.Upload.Valid.{ul_init-IsValid}
use peer_server.Upload.Send.{ClockRuns, ul_send_lem}
use peer_server.Upload.Ahead.{init-Runs}
use peer_server.Server.{PeerServer, set_peer}
use peer_server.Server.Transfer.{put_upload, start_upload, finish_upload}
use peer_server.Server.Handle.{set_uploading, begin_upload}
use peer_server.Server.Uploads.{up}
use peer_server.Server.Counted.{step, Sets}

-- The server before an upload starts: an earlier one to the peer is taken off the counter.
record Stopped (s t : PeerServer) (i : ℕ) : Type 0 where
  size : t.peer_count ≡ s.peer_count
  conn : t.max_conn ≡ s.max_conn
  active : succ t.ul_num ≡ step (up s i) true s.ul_num
  up_eq : (j : ℕ) → up t j ≡ up s j

succ-pred : (k : ℤ) → succ (pred k) ≡ k
succ-pred (pos zero) = ground arith
succ-pred (pos (suc n)) = ground arith
succ-pred (negsuc n) = ground arith

finish-Stopped :
    (plat : Platform) (s : PeerServer) (i : ℕ)
    → up s i ≡ true
    → Stopped s (finish_upload plat s i) i
unfolding finish_upload
finish-Stopped plat s i e = record {
  size = refl;
  conn = refl;
  active = rw e (succ-pred s.ul_num);
  up_eq = λ j. refl;
}

idle-Stopped : (s : PeerServer) (i : ℕ) → up s i ≡ false → Stopped s s i
idle-Stopped s i e = record { size = refl; conn = refl; active = rw e refl; up_eq = λ j. refl }

marked-Sets :
    {s u : PeerServer} (i : ℕ) (r : Sent)
    → Stopped s u i
    → Sets s (set_uploading (record (put_upload u i r) { ul_num = succ u.ul_num }) i true) i true
unfolding set_uploading put_upload set_peer
marked-Sets {s} {u} i r x = record {
  size = x.size;
  conn = x.conn;
  active = x.active;
  here = ground arith;
  others = λ j h. ground (arith, x.up_eq j);
}

-- A system that maps files, and whose clock runs.
pub record Works (plat : Platform) : Type 0 where
  pub maps : (n : ℕ) (offset : ℤ) → plat.mmap n offset ≢ none
  pub clock : ClockRuns plat

module _ (plat : Platform) (works : Works plat) where
  loads : (chunks : ChunkList) (ul : Upload) (w : World) → (load_data plat chunks ul w).good ≡ true
  unfolding load_data
  loads chunks ul w = ground (arith, works.maps w.calls (get_chunk_offset ul.has_index chunks))

  begins : (chunks : ChunkList) (i h : ℕ) (w : World) → (ul_init plat chunks i h w).good ≡ true
  unfolding ul_init
  begins chunks i h w = loads chunks _ _

  first_sent :
      (chunks : ChunkList) (i h : ℕ) (w : World)
      → let s = ul_init plat chunks i h w in (ul_send plat s.ul s.world).good ≡ true
  first_sent chunks i h w =
      let r = init-Runs plat chunks i h w in
      let v = ul_init-IsValid plat chunks i h w in
      (ul_send_lem plat works.clock _ _ v (omega (arith, r.0.narrow, v.acked-le-max, v.max-le))).0

  starts :
      (s : PeerServer) (i h : ℕ)
      → let m = ul_init plat s.haschunks i h s.world in
        start_upload plat s i h
        ≡ record (put_upload s i (ul_send plat m.ul m.world)) { ul_num = succ s.ul_num }
  unfolding start_upload
  starts s i h = rw (begins s.haschunks i h s.world, first_sent s.haschunks i h s.world) refl

  -- An upload that starts, or takes the place of another one to the same peer.
  pub begin-Sets : (s : PeerServer) (i h : ℕ) → Sets s (begin_upload plat s i h) i true
  unfolding begin_upload
  begin-Sets s i h = elim (Bool-cases (up s i)) [
    | inl e ↦ rw e (begun (finish_upload plat s i) (finish-Stopped plat s i e))
    | inr e ↦ rw e (begun s (idle-Stopped s i e))
  ]
    where
      begun :
          (u : PeerServer)
          → Stopped s u i
          → Sets s (set_uploading (start_upload plat u i h) i true) i true
      begun u x =
          let m = ul_init plat u.haschunks i h u.world in
          rw (starts u i h) (marked-Sets i (ul_send plat m.ul m.world) x)
