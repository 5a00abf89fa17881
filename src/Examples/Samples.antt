-- ===== src/Examples/Samples.antt =====
-- A system, a chunk and its packets, an upload and a server for the examples.
use peer_server.Base.{
  ℕ, zero, suc, ◌+◌, ◌-◌, ◌*◌, ◌%◌, ◌<◌, ◌≤◌, ◌≡◌, refl, ap, ◌∙◌, true, false, some, List, [], ◌∷◌,
  arith, get_or, ◌==◌, if◌then◌else◌,
}
use native.Mathlib.Nat.{zero-add}
use peer_server.Base.Int.{pos_part, pos}
use peer_server.Chunklist.{unfetched, fetching, ChunkList}
use peer_server.Packet.{Packet, get_data_len, get_data, type_data}
use peer_server.Platform.{Platform, World}
use peer_server.Download.{dl_init}
use peer_server.Download.Content.{IsData}
use peer_server.Download.Complete.{AllData, has_seq}
use peer_server.Upload.{Upload, fresh_upload}
use peer_server.Server.{Addr, Peer, PeerServer}

abbrev pub sample_platform : Platform
sample_platform = record {
  gettimeofday = λ n. some (1 + n % 1000, 0);
  mmap = λ n offset. some (λ i. (pos_part offset + i) % 251);
  munmap = λ n. true;
  open_file = λ n. true;
  lseek = λ n offset. true;
  write = λ n. 512 * 1024;
  sha1 = λ buffer size. [];
}

abbrev pub sample_world : World
sample_world = record {
  calls = 0;
  sent = [];
  winsizes = [];
  saved = [];
  no_output = false;
  start_ts = 0;
}

-- The bytes of a chunk from an offset on.
unfoldable pub cut : (ℕ → ℕ) → ℕ → ℕ → List ℕ
cut chunk offset zero = []
cut chunk offset (suc n) = chunk offset ∷ cut chunk (offset + 1) n

get_or-cut :
    (chunk : ℕ → ℕ) (offset n i : ℕ) → i < n → get_or (cut chunk offset n) i 0 ≡ chunk (offset + i)
unfolding cut
get_or-cut chunk offset zero i h = absurd (omega arith)
get_or-cut chunk offset (suc n) zero h = ap chunk (omega arith)
get_or-cut chunk offset (suc n) (suc i) h =
    get_or-cut chunk (offset + 1) n i (omega arith) ∙ ap chunk (omega arith)

abbrev pub data_packet : (ℕ → ℕ) → ℕ → Packet
data_packet chunk seq = record {
  magic = 15441;
  version = 1;
  type = type_data;
  hdr_len = 16;
  pkt_len = 1040;
  seq = seq;
  ack = 0;
  payload = cut chunk ((seq - 1) * 1024) 1024;
}

pub data_packet-IsData :
    (chunk : ℕ → ℕ) (seq : ℕ) → 1 ≤ seq → seq ≤ 512 → IsData chunk (data_packet chunk seq)
unfolding get_data_len get_data
data_packet-IsData chunk seq a b = record {
  first = a;
  last = b;
  len = refl;
  bytes = λ i h. rw zero-add (get_or-cut chunk ((seq - 1) * 1024) 1024 i h);
}

-- The first `n` packets, the last one first.
pub backwards : (ℕ → ℕ) → ℕ → List Packet
backwards chunk zero = []
backwards chunk (suc n) = data_packet chunk (suc n) ∷ backwards chunk n

pub backwards-AllData : (chunk : ℕ → ℕ) (n : ℕ) → n ≤ 512 → AllData chunk (backwards chunk n)
unfolding backwards
backwards-AllData chunk zero h = tt
backwards-AllData chunk (suc n) h =
    (data_packet-IsData chunk (suc n) (omega arith) h, backwards-AllData chunk n (omega arith))

pub has_seq-backwards :
    (chunk : ℕ → ℕ) (n t : ℕ) → 1 ≤ t → t ≤ n → has_seq t (backwards chunk n) ≡ true
unfolding backwards
has_seq-backwards chunk zero t a b = absurd (omega arith)
has_seq-backwards chunk (suc n) t a b = ground (arith, has_seq-backwards chunk n t)

-- An upload in the middle of a chunk: 10 packets sent, 8 of them acknowledged.
abbrev pub sample_upload : Upload
sample_upload = record (fresh_upload 0 0) {
  last_pkt_acked = 8;
  last_pkt_sent = 10;
  max_pkt_sent = 10;
  window_size = 4;
  data_ptr = some (λ i. i % 251);
}

abbrev pub sample_list : ChunkList
sample_list = record {
  count = 2;
  chunks =
      λ i. record { state = if i == 1 then fetching else unfetched; id = pos i; sha1 = i ∷ [] };
}

abbrev pub sample_addr : ℕ → Addr
sample_addr i = record { sin_addr = 1; sin_port = i }

-- Two peers; the first one downloads the second chunk.
abbrev pub sample_peer : ℕ → Peer
sample_peer i = record {
  id = i;
  addr = sample_addr i;
  hasqueue = [];
  is_alive = true;
  is_downloading = i == 0;
  dl = (dl_init sample_platform i 1 [] sample_world).0;
  is_uploading = false;
  ul = fresh_upload i 0;
}

abbrev pub sample_server : PeerServer
sample_server = record {
  peers = sample_peer;
  peer_count = 2;
  haschunks = sample_list;
  getchunks = sample_list;
  ihavechunks = sample_list;
  max_conn = pos 4;
  dl_num = pos 1;
  ul_num = pos 0;
  dl_remain = pos 2;
  dl_filename = [];
  getchunk_file = [];
  last_whohas = 0;
  world = sample_world;
}
