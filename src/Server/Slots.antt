-- ===== src/Server/Slots.antt =====
-- The counter of the uploads through the turns of the main loop.
use peer_server.Base.{ℕ, ◌≡◌, refl, not, Option, none, some, List, length, ltb}
use peer_server.Base.Int.{ℤ}
use peer_server.Chunklist.{parse_chunk}
use peer_server.Platform.{Platform}
use peer_server.Server.{PeerServer}
use peer_server.Server.Handle.{start_get, process_get, bt_filename_len}
use peer_server.Server.Transfer.{send_whohas, emit_param}
use peer_server.Server.Main.{Turn, Program, peer_turns}
use peer_server.Server.Uploads.{IsCounted, Spares, if-Spares, Spares-refl}
use peer_server.Server.Counted.{Spares-IsCounted}
use peer_server.Server.Begins.{Works}
use peer_server.Server.Limits.{check_all_timeout-IsCounted, process_inbound_udp-IsCounted}
use peer_server.Server.Loop.{peer_turns-Inv}

-- A command touches no upload.
process_get-Spares :
    (plat : Platform) (s : PeerServer) (chunkfile outputfile : List ℕ)
    (lines : Option (List (ℤ × List ℕ)))
    → Spares s (process_get plat s chunkfile lines outputfile)
unfolding process_get start_get send_whohas emit_param parse_chunk
process_get-Spares plat s chunkfile outputfile none =
    if-Spares (not (ltb (length outputfile) bt_filename_len)) (Spares-refl s) (
      if-Spares (not (ltb (length chunkfile) bt_filename_len)) (Spares-refl s)
        (record { size = refl; conn = refl; active = refl; up_eq = λ j. refl }))
process_get-Spares plat s chunkfile outputfile (some lines) =
    if-Spares (not (ltb (length outputfile) bt_filename_len)) (Spares-refl s) (
      if-Spares (not (ltb (length chunkfile) bt_filename_len)) (Spares-refl s)
        (record { size = refl; conn = refl; active = refl; up_eq = λ j. refl }))

pub peer_turns-IsCounted :
    (plat : Platform) (n : ℕ) (m : ℤ)
    → Works plat
    → (ts : List Turn) (p q : Program) → IsCounted n m p.psvr
    → peer_turns plat ts p ≡ some q
    → IsCounted n m q.psvr
peer_turns-IsCounted plat n m works =
    peer_turns-Inv plat (IsCounted n m)
      (λ s chunkfile outputfile lines.
        Spares-IsCounted (process_get-Spares plat s chunkfile outputfile lines))
      (process_inbound_udp-IsCounted plat n m works) (check_all_timeout-IsCounted plat n m)
