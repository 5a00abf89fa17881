-- ===== src/Examples/Servers.antt =====
-- The server at concrete inputs.
use native.Mathlib.Decide.{ℕ_discrete}
use peer_server.Base.{true, ◌%◌, ◌<◌, ◌≡◌, refl, false, none, some, [], ◌∷◌, arith}
use peer_server.Base.Int.{pos}
use peer_server.Chunklist.{unfetched, first_from}
use peer_server.Packet.{Packet}
use peer_server.Download.{dl_init}
use peer_server.Server.{PeerServer}
use peer_server.Server.Refresh.{wanted, find_in_queue, check_all_timeout}
use peer_server.Platform.{Platform}
use peer_server.Server.Failures.{begin_upload-ul_num, process_get-breaks}
use peer_server.Server.Handle.{begin_upload, parse_packet, process_get}
use peer_server.Server.Counts.{count_if}
use peer_server.Server.Downloads.{IsConsistent, index, state}
use peer_server.Server.Queue.{has_hash, find_in_queue-unfetched}
use peer_server.Server.Consistent.{parse_packet-IsConsistent, check_all_timeout-IsConsistent}
use peer_server.Examples.Samples.{
  sample_platform, data_packet, sample_addr, sample_list, sample_server,
}

server-IsConsistent : IsConsistent sample_server
unfolding count_if dl_init
server-IsConsistent = record {
  active = refl;
  remain = refl;
  claimed = λ i h d. ground arith;
  apart = λ i j h k d e x. ground arith;
  owned = λ c h f. elim (ℕ_discrete c 1) [
    | yes e ↦ (0, omega arith, refl, ground arith)
    | no ne ↦ absurd (ground arith)
  ];
}

-- A packet of the first peer, with the second piece of the chunk that it sends.
abbrev arrived : Packet
arrived = data_packet (λ i. i % 251) 2

parse_packet-IsConsistent_example :
    IsConsistent (parse_packet sample_platform sample_server arrived (sample_addr 0))
    × ((parse_packet sample_platform sample_server arrived (sample_addr 0)).peer_count ≡ 2)
parse_packet-IsConsistent_example =
    parse_packet-IsConsistent sample_platform sample_server arrived (sample_addr 0)
      server-IsConsistent

check_all_timeout-IsConsistent_example :
    IsConsistent (check_all_timeout sample_platform sample_server)
    × ((check_all_timeout sample_platform sample_server).peer_count ≡ 2)
check_all_timeout-IsConsistent_example =
    check_all_timeout-IsConsistent sample_platform sample_server server-IsConsistent

-- The sample without its download.
abbrev pub idle_server : PeerServer
idle_server = record sample_server {
  peers = λ i. record (sample_server.peers i) { is_downloading = false };
  getchunks = record sample_list { count = 0 };
  dl_num = pos 0;
  dl_remain = pos 0;
}

pub idle-IsConsistent : IsConsistent idle_server
unfolding count_if
idle-IsConsistent = record {
  active = refl;
  remain = refl;
  claimed = λ i h d. ground arith;
  apart = λ i j h k d e x. ground arith;
  owned = λ c h f. absurd (omega arith);
}

-- The queue asks for a chunk that is being fetched, and then for one that is not.
finds :
    find_in_queue sample_list ((1 ∷ []) ∷ (0 ∷ []) ∷ [])
    ≡ some (record { index = 0; queue = (1 ∷ []) ∷ [] })
unfolding find_in_queue wanted first_from
finds = refl

find_in_queue-unfetched_example :
    (0 < 2)
    × ((sample_list.chunks 0).state ≡ unfetched)
    × (has_hash ((1 ∷ []) ∷ (0 ∷ []) ∷ []) (0 ∷ []) ≡ true)
find_in_queue-unfetched_example =
    find_in_queue-unfetched sample_list ((1 ∷ []) ∷ (0 ∷ []) ∷ [])
      (record { index = 0; queue = (1 ∷ []) ∷ [] }) finds

-- A system that cannot map the chunk file.
abbrev unmapped : Platform
unmapped = record sample_platform { mmap = λ n offset. none }

begin_upload-ul_num_example :
    ((begin_upload unmapped sample_server 1 0).ul_num ≡ pos 0)
    × (((begin_upload unmapped sample_server 1 0).peers 1).is_uploading ≡ true)
begin_upload-ul_num_example = begin_upload-ul_num unmapped (λ n offset. refl) sample_server 1 0 refl

process_get-breaks_example :
    ¬ IsConsistent
      (process_get sample_platform sample_server (97 ∷ []) (some ((pos 0, 65 ∷ []) ∷ [])) (98 ∷ []))
process_get-breaks_example =
    process_get-breaks sample_platform sample_server (97 ∷ []) (98 ∷ []) ((pos 0, 65 ∷ []) ∷ []) 0
      (omega arith) (omega arith) (omega arith) refl
