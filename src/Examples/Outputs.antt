-- ===== src/Examples/Outputs.antt =====
-- A file of one chunk that is asked for and received, at concrete inputs.
use mathlib.Core.List.{Memᴰ}
use mathlib.Core.List.Memᴰ
use peer_server.Base.{ℕ, zero, suc, ◌%◌, ◌≡◌, refl, true, some, Option, List, [], ◌∷◌, arith}
use peer_server.Base.Int.{ℤ, pos}
use peer_server.Chunklist.{ChunkList, read_lines, max_chunk_num, fetching}
use peer_server.Packet.{Packet, type_ihave}
use peer_server.Platform.{Platform}
use peer_server.Download.{Download, dl_init}
use peer_server.Server.{Addr, PeerServer}
use peer_server.Server.Handle.{process_get}
use peer_server.Server.Init.{run_turns}
use peer_server.Server.Genuine.{Fits, IsGenuine, Seeks}
use peer_server.Server.Written.{file-IsGenuine}
use peer_server.Examples.Servers.{idle_server, idle-IsConsistent}
use peer_server.Examples.Samples.{
  sample_platform, data_packet, sample_addr, sample_list, sample_server,
}

abbrev same_bytes : ℕ → ℕ → List ℕ
same_bytes x zero = []
same_bytes x (suc n) = x ∷ same_bytes x n

-- A clock that stands still, and a digest of twenty zeros.
abbrev still_platform : Platform
still_platform = record sample_platform {
  gettimeofday = λ n. some (1, 0);
  sha1 = λ buffer size. same_bytes 0 20;
}

abbrev still-Seeks : Seeks still_platform
still-Seeks k o = refl

abbrev offer : Packet
offer = record {
  magic = 15441;
  version = 1;
  type = type_ihave;
  hdr_len = 16;
  pkt_len = 40;
  seq = 0;
  ack = 0;
  payload = 1 ∷ 0 ∷ 0 ∷ 0 ∷ same_bytes 0 20;
}

abbrev wanted_file : List (ℤ × List ℕ)
wanted_file = (pos 7, same_bytes 48 40) ∷ []

abbrev piece : ℕ → Option (Packet × Addr)
piece seq = some (data_packet (λ i. i % 251) seq, sample_addr 0)

-- A list of one chunk, and the server when the last piece of it is missing.
abbrev one_chunk : ChunkList
one_chunk = record {
  count = 1;
  chunks = λ i. record { state = fetching; id = pos 7; sha1 = same_bytes 48 40 };
}

abbrev near_end : Download
near_end = record ((dl_init still_platform 0 0 [] sample_server.world).0) {
  next_pkt_expected = 512;
  rwin = record { bm = λ i. 0; front = 0; next_seq = 512 };
  started = true;
  data_length = 1024;
}

abbrev ending_server : PeerServer
ending_server = record sample_server {
  peers = λ i. record (sample_server.peers i) { dl = near_end };
  getchunks = one_chunk;
  dl_remain = pos 1;
  peer_count = 1;
}

abbrev wanted_list : ChunkList
wanted_list = read_lines max_chunk_num 0 sample_list.chunks wanted_file

wanted-Fits : Fits wanted_list
unfolding read_lines
wanted-Fits = record {
  id = λ c h. let e : c ≡ 0 = omega arith in rw e (7, refl, omega arith);
  sha1 = λ c h. let e : c ≡ 0 = omega arith in rw e (omega arith);
}

-- The peer offers the chunk, and sends its first piece.
abbrev two_turns : List (Option (Packet × Addr))
two_turns = some (offer, sample_addr 0) ∷ piece 1 ∷ []

file-IsGenuine_example :
    IsGenuine still_platform (read_lines max_chunk_num 0 sample_list.chunks wanted_file) (
      run_turns still_platform
        (process_get still_platform idle_server (97 ∷ []) (some wanted_file) (98 ∷ []))
        two_turns)
file-IsGenuine_example =
    file-IsGenuine still_platform idle_server (97 ∷ []) (98 ∷ []) wanted_file refl refl refl
      still-Seeks wanted-Fits idle-IsConsistent (λ i h. refl) two_turns
