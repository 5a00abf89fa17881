-- ===== src/Platform.antt =====
-- What the program asks of the system, and what it leaves there.
-- The system itself (clock, memory mapping, file calls) and SHA-1 (src/sha.c, a copy of another
-- project's file) are the fields of `Platform`, which every operation that needs them takes.
-- Each system call is numbered, so that two calls may answer differently.
use peer_server.Base.{ℕ, ◌+◌, Bool, Option, none, List, ◌∷◌}
use peer_server.Base.Int.{ℤ, pos}
use peer_server.Chunklist.{ChunkList}

pub record Platform : Type 0 where
  -- Seconds and microseconds, or a failure.
  pub gettimeofday : ℕ → Option (ℕ × ℕ)
  -- The bytes of the master chunk file from an offset on, or MAP_FAILED.
  pub mmap : ℕ → ℤ → Option (ℕ → ℕ)
  pub munmap : ℕ → Bool
  pub open_file : ℕ → Bool
  pub lseek : ℕ → ℤ → Bool
  -- How many of a chunk's bytes were written; none if the call fails.
  pub write : ℕ → ℕ
  -- The digest of the first bytes of a buffer.
  pub sha1 : (ℕ → ℕ) → ℕ → List ℕ

-- `pkt_param_t`. The chunk list is the one that the pointer `c` leads to at the time of the call,
-- and the payload is a function of the byte's index.
pub record PktParam : Type 0 where
  pub p_index : ℤ
  pub p_count : ℤ
  pub c : Option (ChunkList)
  pub c_index : ℤ
  pub c_count : ℤ
  pub type : ℕ
  pub seq : ℕ
  pub ack : ℕ
  pub payload : Option (ℕ → ℕ)
  pub payload_size : ℕ

-- PKT_PARAM_CLEAR.
unfoldable pub pkt_param_clear : PktParam
pkt_param_clear = record {
  p_index = pos 0;
  p_count = pos 0;
  c = none;
  c_index = pos 0;
  c_count = pos 0;
  type = 0;
  seq = 0;
  ack = 0;
  payload = none;
  payload_size = 0;
}

-- A line of the window log: the peer, the time since the start, and the window.
pub record WinLine : Type 0 where
  pub peer : ℕ
  pub time : ℕ
  pub window : ℕ

-- A call of `write` to the output file: the first `size` of the bytes are there from the offset on.
pub record Saved : Type 0 where
  pub offset : ℤ
  pub size : ℕ
  pub bytes : ℕ → ℕ

-- The number of system calls so far, the calls of `send_packet`, the window log and the bytes
-- saved, all newest first; and two fields of `psvr` that are fixed once the server runs.
pub record World : Type 0 where
  pub calls : ℕ
  pub sent : List PktParam
  pub winsizes : List WinLine
  pub saved : List Saved
  pub no_output : Bool
  pub start_ts : ℕ

unfoldable pub tick : World → World
tick w = record w { calls = w.calls + 1 }

unfoldable pub emit : PktParam → World → World
emit p w = record w { sent = p ∷ w.sent }
