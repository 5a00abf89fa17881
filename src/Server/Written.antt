-- ===== src/Server/Written.antt =====
-- The output file of a download, from the GET command on.
use mathlib.Core.List.{Memᴰ}
use mathlib.Core.List.Memᴰ
use mathlib.Core.Path.{subst}
use peer_server.Base.{ℕ, ◌≡◌, refl, sym, ap, ◌∙◌, true, Option, some, List, [], length, ltb, arith}
use peer_server.Base.Int.{ℤ}
use peer_server.Chunklist.{ChunkList, parse_chunk, read_lines, max_chunk_num, is_fetched, unfetched}
use peer_server.Packet.{Packet}
use peer_server.Platform.{Platform, emit, tick}
use peer_server.Util.{get_timestamp_now}
use peer_server.Server.{PeerServer, Addr}
use peer_server.Server.Transfer.{emit_param, send_whohas}
use peer_server.Server.Handle.{process_get, start_get, bt_filename_len}
use peer_server.Server.Init.{run_turns}
use peer_server.Server.Downloads.{IsConsistent}
use peer_server.Server.Start.{read_lines-unfetched, process_get-IsConsistent}
use peer_server.Server.Runs.{Idle}
use peer_server.Server.Genuine.{Fits, IsGenuine, Seeks}
use peer_server.Server.Output.{run_turns-IsGenuine}

-- The server once the user has asked for a file, with two names that fit.
module _ (plat : Platform) (s : PeerServer) (chunkfile outputfile : List ℕ)
    (lines : List (ℤ × List ℕ)) (chunkfile_fits : ltb (length chunkfile) bt_filename_len ≡ true)
    (outputfile_fits : ltb (length outputfile) bt_filename_len ≡ true)
    (empty : s.world.saved ≡ []) where
  abbrev asked : PeerServer
  asked = process_get plat s chunkfile (some lines) outputfile

  abbrev named : PeerServer
  named = record s { dl_filename = outputfile; getchunk_file = chunkfile }

  abbrev listed : ChunkList
  listed = read_lines max_chunk_num 0 s.getchunks.chunks lines

  asked_lem : asked ≡ start_get plat named listed
  unfolding process_get parse_chunk
  asked_lem = rw (chunkfile_fits, outputfile_fits) refl

  start_get-IsGenuine : IsGenuine plat listed (start_get plat named listed)
  unfolding start_get send_whohas emit_param emit get_timestamp_now tick
  start_get-IsGenuine = record {
    count_eq = refl;
    sha1_eq = λ c. refl;
    id_eq = λ c. refl;
    written = λ x m. absurd (Memᴰ.not-nil (subst (Memᴰ x) empty m));
    complete = λ c h f.
        let fresh =
          read_lines-unfetched max_chunk_num 0 s.getchunks.chunks lines
            (λ k l. absurd (omega arith)) c h in
        let done : is_fetched unfetched ≡ true = ap is_fetched (sym fresh) ∙ f in
        absurd (ground arith);
  }

  asked-IsGenuine : IsGenuine plat listed asked
  asked-IsGenuine = subst (IsGenuine plat listed) (sym asked_lem) start_get-IsGenuine

  -- Once the user has asked for a file, with names that fit and while nobody downloads, nothing
  -- being written yet: if the ids of its list are from 0 to 4095, its hashes fit, and no seek to an
  -- offset that is not negative fails, then after any number of turns of the main loop without a
  -- command, whatever packets arrive, `getchunks` has the lines of that list, each call of `write`
  -- was one for a chunk of it, with its digest and at its place, and each chunk that is marked as
  -- fetched was written whole.
  pub file-IsGenuine :
      Seeks plat
      → Fits listed
      → IsConsistent s
      → Idle s
      → (turns : List (Option (Packet × Addr))) → IsGenuine plat listed (run_turns plat asked turns)
  file-IsGenuine seeks fits consistent idle turns =
      let started =
        process_get-IsConsistent plat s chunkfile outputfile (some lines) consistent idle in
      run_turns-IsGenuine plat seeks listed fits turns asked started asked-IsGenuine
