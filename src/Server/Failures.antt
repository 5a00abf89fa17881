-- ===== src/Server/Failures.antt =====
-- What the server's counters and flags say when a system call fails, or a command comes too early.
use peer_server.Base.Int.{ℤ}
use peer_server.Base.{ℕ, ◌<◌, ◌≡◌, true, false, none, some, List, arith, length, ltb, lt→ltb}
use peer_server.Chunklist.{unfetched, read_lines, max_chunk_num, parse_chunk}
use peer_server.Server.Downloads.{IsConsistent, down, index}
use peer_server.Server.Start.{read_lines-unfetched}
use peer_server.Platform.{Platform, World}
use peer_server.Chunklist.{ChunkList}
use peer_server.Upload.{Upload, ul_init, load_data, get_chunk_offset, fresh_upload}
use peer_server.Server.{PeerServer, set_peer}
use peer_server.Server.Transfer.{start_upload, put_upload, send_whohas, emit_param}
use peer_server.Server.Handle.{begin_upload, set_uploading, process_get, start_get}

load_data-fails :
    (plat : Platform) (chunks : ChunkList) (ul : Upload) (w : World)
    → ((n : ℕ) (offset : ℤ) → plat.mmap n offset ≡ none)
    → (load_data plat chunks ul w).good ≡ false
unfolding load_data
load_data-fails plat chunks ul w f =
    ground (arith, f w.calls (get_chunk_offset ul.has_index chunks))

module _ (plat : Platform) (f : (n : ℕ) (offset : ℤ) → plat.mmap n offset ≡ none) where
  start-ul_num : (s : PeerServer) (i j : ℕ) → (start_upload plat s i j).ul_num ≡ s.ul_num
  unfolding start_upload put_upload set_peer ul_init
  start-ul_num s i j =
      let g : (ul_init plat s.haschunks i j s.world).good ≡ false =
        load_data-fails plat s.haschunks (fresh_upload i j) _ f in
      ground (arith, g)

  -- If the chunk cannot be mapped, a GET for it from a peer without an upload leaves `ul_num` as it
  -- is, but marks the peer as uploading.
  pub begin_upload-ul_num :
      (s : PeerServer) (i j : ℕ)
      → (s.peers i).is_uploading ≡ false
      → ((begin_upload plat s i j).ul_num ≡ s.ul_num)
        × (((begin_upload plat s i j).peers i).is_uploading ≡ true)
  unfolding begin_upload set_uploading set_peer
  begin_upload-ul_num s i j idle = rw idle (start-ul_num s i j, ground arith)

start_get-breaks :
    (plat : Platform) (s : PeerServer) (c : ChunkList) (i : ℕ)
    → i < s.peer_count
    → down s i ≡ true
    → ((k : ℕ) → k < c.count → (c.chunks k).state ≡ unfetched)
    → ¬ IsConsistent (start_get plat s c)
unfolding start_get send_whohas emit_param
start_get-breaks plat s c i h d u v =
    let claim = v.claimed i h d in cc (claim.1, u (index s i) claim.0)

-- A GET that is accepted, with a chunk file that can be read, while a peer is downloading breaks
-- the invariant of the downloads: the new list has no chunk that is being fetched.
pub process_get-breaks :
    (plat : Platform) (s : PeerServer) (chunkfile outputfile : List ℕ) (lines : List (ℤ × List ℕ))
    (i : ℕ)
    → length outputfile < 255
    → length chunkfile < 255
    → i < s.peer_count
    → down s i ≡ true
    → ¬ IsConsistent (process_get plat s chunkfile (some lines) outputfile)
unfolding process_get parse_chunk
process_get-breaks plat s chunkfile outputfile lines i a b h d =
    let x : ltb (length outputfile) 255 ≡ true = lt→ltb _ _ a in
    let y : ltb (length chunkfile) 255 ≡ true = lt→ltb _ _ b in
    let read = read_lines max_chunk_num 0 s.getchunks.chunks lines in
    let fresh =
      read_lines-unfetched max_chunk_num 0 s.getchunks.chunks lines (λ c k. absurd (omega arith)) in
    let named = record s { dl_filename = outputfile; getchunk_file = chunkfile } in
    rw (x, y) (start_get-breaks plat named read i h d fresh)
