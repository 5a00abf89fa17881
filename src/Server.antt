-- ===== src/Server.antt =====
-- The state of the program: `psvr` of src/peer_server.c with the peers of src/peerlist.c, and the
-- small functions over it. Each function that changes `psvr` returns the new one.
pub mod Transfer
pub mod Refresh
pub mod Handle
pub mod Inbound
pub mod Silent
pub mod Counts
pub mod Downloads
pub mod Claims
pub mod Steps
pub mod Queue
pub mod Moves
pub mod Ended
pub mod Good
pub mod Consistent
pub mod Init
pub mod Start
pub mod Main
pub mod Runs
pub mod Unwritten
pub mod Leaves
pub mod Rounds
pub mod Genuine
pub mod Loop
pub mod Starts
pub mod DlSlots
pub mod DlLimits
pub mod Output
pub mod Written
pub mod Uploads
pub mod Counted
pub mod Begins
pub mod Limits
pub mod Slots
pub mod Started
pub mod Failures
use peer_server.Base.{
  ℕ, ◌+◌, Bool, true, false, ◌&&◌, not, Option, none, some, List, [], ◌∷◌, ltb, ◌==◌, if◌then◌else◌,
  update,
}
use peer_server.Base.Int.{ℤ, pos}
use peer_server.Chunklist.{ChunkState, ChunkLine, ChunkList, str_eq, first_from}
use peer_server.Platform.{World}
use peer_server.Download.{Download}
use peer_server.Upload.{Upload}

pub record Addr : Type 0 where
  pub sin_addr : ℕ
  pub sin_port : ℕ

-- `hasqueue` holds the hashes of the queued chunk lines; no other field of them is ever set.
pub record Peer : Type 0 where
  pub id : ℕ
  pub addr : Addr
  pub hasqueue : List (List ℕ)
  pub is_alive : Bool
  pub is_downloading : Bool
  pub dl : Download
  pub is_uploading : Bool
  pub ul : Upload

-- `peers` is the array of the peer list and `peer_count` its length. `dl_num`, `ul_num` and
-- `dl_remain` are C integers, which may fall below 0.
pub record PeerServer : Type 0 where
  pub peers : ℕ → Peer
  pub peer_count : ℕ
  pub haschunks : ChunkList
  pub getchunks : ChunkList
  pub ihavechunks : ChunkList
  pub max_conn : ℤ
  pub dl_num : ℤ
  pub ul_num : ℤ
  pub dl_remain : ℤ
  pub dl_filename : List ℕ
  pub getchunk_file : List ℕ
  pub last_whohas : ℕ
  pub world : World

unfoldable pub init_peer : Peer → Peer
init_peer p = record p {
  is_alive = false;
  is_downloading = false;
  is_uploading = false;
  hasqueue = [];
}

unfoldable pub die : Peer → Peer
die p = record p { is_alive = false; is_downloading = false; is_uploading = false }

-- `psvr.peerlist.peers[i] = p`.
unfoldable pub set_peer : PeerServer → ℕ → Peer → PeerServer
set_peer s i p = record s { peers = update s.peers i p }

-- `psvr.getchunks.chunks[i].state = state`.
unfoldable pub set_state : PeerServer → ℕ → ChunkState → PeerServer
set_state s i state = record s {
  getchunks = record (s.getchunks) {
    chunks = update s.getchunks.chunks i (record (s.getchunks.chunks i) { state = state });
  };
}

abbrev pub same_addr : Addr → Addr → Bool
same_addr a b = a.sin_port == b.sin_port && a.sin_addr == b.sin_addr

-- `none` stands for -1 in the next two.
unfoldable pub addr2index : PeerServer → Addr → Option ℕ
addr2index s addr = first_from (λ i. same_addr (s.peers i).addr addr) s.peer_count 0

unfoldable pub hash2index : ChunkList → List ℕ → Option ℕ
hash2index clist hash = first_from (λ i. str_eq (clist.chunks i).sha1 hash) clist.count 0
