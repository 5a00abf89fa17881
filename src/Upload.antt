-- ===== src/Upload.antt =====
-- src/upload.c and include/upload.h: the sending end of one chunk, with its congestion control.
-- `write_winsize` of src/peer_server.c, which it calls, stands here too.
pub mod Control
pub mod Valid
pub mod Send
pub mod Congestion
pub mod Progress
pub mod Resend
pub mod Window
pub mod Ahead
use peer_server.Base.{
  ℕ, zero, suc, ◌+◌, ◌-◌, ◌*◌, ◌/◌, Bool, true, false, not, ◌&&◌, ◌||◌, Option, none, some, List,
  [], ◌∷◌, min, max, ltb, leb, ◌==◌, if◌then◌else◌, add32, sub32, mul32, update,
}
use peer_server.Base.Int.{mul_int, ℤ, pos, negsuc, succ, ltb_ℤ}
use peer_server.Chunklist.{ChunkList}
use peer_server.Packet.{type_data}
use peer_server.Platform.{Platform, World, PktParam, pkt_param_clear, emit, tick}
use peer_server.Util.{Rtt, get_timestamp_now, update_rtt, default_timeout}
use peer_server.Download.{chunk_size}

abbrev pub ss_thresh : ℕ
ss_thresh = 64

abbrev pub max_dup_ack : ℕ
max_dup_ack = 3

abbrev pub payload_size : ℕ
payload_size = 1024

-- BT_CHUNK_SIZE / PAYLOAD_SIZE.
abbrev pub last_seq : ℕ
last_seq = chunk_size / payload_size

pub data Status : Type 0 where
  slow_start congestion_avoidance fast_retransmit : Status
  fast_retransmit_ss fast_retransmit_ca fast_recovery : Status

-- The three arrays have `last_seq + 1` entries, and are functions of the index here.
pub record Upload : Type 0 where
  pub has_index : ℕ
  pub p_index : ℕ
  pub ack_cnt : ℕ → ℤ
  pub seq_ts : ℕ → ℕ
  pub seq_timeout : ℕ → ℕ
  pub ss_threshold : ℕ
  pub last_pkt_acked : ℕ
  pub last_pkt_sent : ℕ
  pub max_pkt_sent : ℕ
  pub max_retransmit_seq : ℕ
  pub est : Rtt
  pub rto : ℕ
  pub window_size : ℕ
  pub ca_ts : ℕ
  pub timeout_cnt : ℕ
  pub data_ptr : Option (ℕ → ℕ)
  pub status : Status
  pub finished : Bool

unfoldable pub write_winsize : Platform → ℕ → ℕ → World → World
write_winsize plat p_index window w =
    if w.no_output
    then w
    else let (now, w') = get_timestamp_now plat w in
      if now == 0 then w' else record w' {
        winsizes =
            record { peer = p_index; time = sub32 now w'.start_ts; window = window } ∷ w'.winsizes;
      }

-- GET_CHUNK_OFFSET, a product of two `int`s.
unfoldable pub get_chunk_offset : ℕ → ChunkList → ℤ
get_chunk_offset c_index clist = mul_int (clist.chunks c_index).id chunk_size

-- The result of a function that returns 0 (`true`) or -1.
pub record Sent : Type 0 where
  pub good : Bool
  pub ul : Upload
  pub world : World

-- `load_data` leaves the pointer alone if it fails.
unfoldable pub load_data : Platform → ChunkList → Upload → World → Sent
load_data plat haschunks ul w = elim (plat.mmap w.calls (get_chunk_offset ul.has_index haschunks)) [
  | none ↦ record { good = false; ul = ul; world = tick w }
  | some bytes ↦ record { good = true; ul = record ul { data_ptr = some bytes }; world = tick w }
]

unfoldable pub unload_data : Platform → Upload → World → Bool × World
unload_data plat ul w = (plat.munmap w.calls, tick w)

-- The handler after `memset` and the assignments of `ul_init`.
unfoldable pub fresh_upload : ℕ → ℕ → Upload
fresh_upload p_index has_index = record {
  has_index = has_index;
  p_index = p_index;
  ack_cnt = λ i. pos 0;
  seq_ts = λ i. 0;
  seq_timeout = λ i. 0;
  ss_threshold = ss_thresh;
  last_pkt_acked = 0;
  last_pkt_sent = 0;
  max_pkt_sent = 0;
  max_retransmit_seq = 0;
  est = record { rtt = default_timeout / 2; dev = 0 };
  rto = default_timeout;
  window_size = 1;
  ca_ts = 0;
  timeout_cnt = 0;
  data_ptr = none;
  status = slow_start;
  finished = false;
}

unfoldable pub ul_init : Platform → ChunkList → ℕ → ℕ → World → Sent
ul_init plat haschunks p_index has_index w =
    let ul = fresh_upload p_index has_index in
    load_data plat haschunks ul (write_winsize plat p_index ul.window_size w)

unfoldable pub ul_deinit : Platform → Upload → World → Bool × World
ul_deinit = unload_data

-- `ul->data + i`; the bytes behind a null pointer are a fault in the source, 0 here.
abbrev pub byte_at : Option (ℕ → ℕ) → ℕ → ℕ
byte_at none i = 0
byte_at (some bytes) i = bytes i

-- The packet that the loop of `ul_send` hands to `send_packet`.
unfoldable pub data_param : Upload → ℕ → PktParam
unfolding pkt_param_clear
data_param ul seq = record pkt_param_clear {
  p_index = pos ul.p_index;
  p_count = pos 1;
  type = type_data;
  seq = seq;
  payload = some (λ i. byte_at ul.data_ptr ((seq - 1) * payload_size + i));
  payload_size = payload_size;
}

-- GET_RTO, or the default if it is 0.
unfoldable pub get_rto : Upload → ℕ
get_rto ul = let rto = mul32 2 ul.est.rtt in if rto == 0 then default_timeout else rto

-- The handler once packet `seq` is stamped with the time `now`, before `last_pkt_sent++`.
unfoldable pub stamped : Upload → ℕ → ℕ → Upload
stamped ul seq now = record ul {
  rto = get_rto ul;
  seq_ts = update ul.seq_ts seq now;
  seq_timeout =
      if now == 0 then ul.seq_timeout else update ul.seq_timeout seq (add32 now (get_rto ul));
}

-- The loop of `ul_send`. The first argument counts the rounds that its condition leaves: how far
-- `last_pkt_sent` is from the end of the window, which stays.
unfoldable pub send_loop : Platform → ℕ → Upload → World → Sent
send_loop plat zero ul w = record { good = true; ul = ul; world = w }
send_loop plat (suc left) ul w =
    let seq = add32 ul.last_pkt_sent 1 in
    let stamp = get_timestamp_now plat (emit (data_param ul seq) w) in
    let ul' = stamped ul seq stamp.0 in
    let rest = send_loop plat left (record ul' { last_pkt_sent = seq }) stamp.1 in
    if ltb last_seq seq
    then record { good = true; ul = ul; world = w }
    else if stamp.0 == 0
    then record { good = false; ul = ul'; world = stamp.1 }
    else rest

-- `max_pkt_sent = MAX(max_pkt_sent, last_pkt_sent)`, which a failed loop does not reach.
unfoldable pub send_end : Sent → Sent
send_end s =
    if s.good
    then record s { ul = record (s.ul) { max_pkt_sent = max s.ul.max_pkt_sent s.ul.last_pkt_sent } }
    else s

unfoldable pub ul_send : Platform → Upload → World → Sent
ul_send plat ul w =
    send_end (send_loop plat (add32 ul.last_pkt_acked ul.window_size - ul.last_pkt_sent) ul w)

unfoldable pub ul_loss : Platform → Upload → World → Upload × World
ul_loss plat ul w = (
  record ul {
    ss_threshold = max (ul.window_size / 2) 2;
    window_size = 1;
    last_pkt_sent = ul.last_pkt_acked;
    status = fast_retransmit;
    max_retransmit_seq = ul.max_pkt_sent;
  },
  write_winsize plat ul.p_index 1 w,
)
