-- ===== src/Download.antt =====
-- src/download.c: the receiving end of one chunk. `dl_save_buffer` is in Server, with the state
-- that it changes.
pub mod Content
pub mod Recv
pub mod Complete
use peer_server.Base.{
  ℕ, zero, suc, ◌+◌, ◌-◌, ◌*◌, ◌<◌, Bool, true, false, not, ◌&&◌, ◌||◌, some, List, ltb, leb, ◌==◌,
  if◌then◌else◌, sub32,
}
use peer_server.Base.Int.{ℤ, pos, negsuc}
use peer_server.RecvWin.{
  RecvWin, init_recvwin, seq_fit_in, seq_exist_in, recvwin_mark, recvwin_slideack,
}
use peer_server.Packet.{Packet, get_data_len, get_data, type_ack}
use peer_server.Platform.{Platform, World, PktParam, pkt_param_clear, emit}
use peer_server.Util.{Rtt, get_timestamp_now, update_rtt, default_timeout}

-- BT_CHUNK_SIZE.
abbrev pub chunk_size : ℕ
chunk_size = 512 * 1024

abbrev pub loss_ack_num : ℕ
loss_ack_num = 3

-- The buffer is a function of the byte's index.
pub record Download : Type 0 where
  pub get_index : ℕ
  pub p_index : ℕ
  pub ts : ℕ
  pub timeout_cnt : ℕ
  pub next_pkt_expected : ℕ
  pub rwin : RecvWin
  pub filename : List ℕ
  pub est : Rtt
  pub started : Bool
  pub block_update : Bool
  pub finished : Bool
  pub buffer : ℕ → ℕ
  pub data_length : ℕ

unfoldable pub dl_init : Platform → ℕ → ℕ → List ℕ → World → Download × World
unfolding init_recvwin
dl_init plat p_index get_index filename w =
    let (now, w') = get_timestamp_now plat w in
    (
      record {
        get_index = get_index;
        p_index = p_index;
        ts = now;
        timeout_cnt = 0;
        next_pkt_expected = 1;
        rwin = init_recvwin;
        filename = filename;
        est = record { rtt = 0; dev = 0 };
        started = false;
        block_update = false;
        finished = false;
        buffer = λ i. 0;
        data_length = 0;
      },
      w',
    )

-- `get_ack` changes the handler; the ack that it returns is `ack_of` the new one.
unfoldable pub get_ack : Download → Download
get_ack dl =
    let rwin = recvwin_slideack dl.rwin in
    record dl { rwin = rwin; next_pkt_expected = rwin.next_seq }

unfoldable pub ack_of : Download → ℕ
ack_of dl = sub32 dl.next_pkt_expected 1

unfoldable pub send_ack : ℕ → ℕ → World → World
send_ack p_index ack =
    emit (record pkt_param_clear {
      p_index = pos p_index;
      p_count = pos 1;
      ack = ack;
      type = type_ack;
    })

-- `memcpy(buffer + offset, source, len)`.
unfoldable pub blit : (ℕ → ℕ) → ℕ → (ℕ → ℕ) → ℕ → ℕ → ℕ
blit buffer offset source len i =
    if leb offset i && ltb i (offset + len) then source (i - offset) else buffer i

-- The first part of `dl_recv`: the round-trip time, or the data length of a first packet.
unfoldable pub dl_measure : Platform → Download → Packet → World → Download × World
dl_measure plat dl pkt w =
    if dl.started && not dl.block_update
    then (let (est, w') = update_rtt plat dl.est dl.ts w in (record dl { est = est }, w'))
    else (record dl { data_length = get_data_len pkt; started = true; block_update = false }, w)

-- The offset of a packet's data in the buffer.
unfoldable pub dl_offset : Download → Packet → ℕ
dl_offset dl pkt = sub32 pkt.seq 1 * dl.data_length

-- The second part: the packet's bytes go to the buffer, unless they are there.
unfoldable pub dl_store : Download → Packet → Download
dl_store dl pkt =
    if not (seq_exist_in dl.rwin pkt.seq)
    then record dl {
      buffer = blit dl.buffer (dl_offset dl pkt) (get_data pkt) (get_data_len pkt);
      rwin = recvwin_mark dl.rwin pkt.seq;
    }
    else dl

-- The third part: the ack, the timestamp and the flag.
unfoldable pub dl_answer : Platform → Download → World → Download × World
dl_answer plat dl w =
    let acked = get_ack dl in
    let (now, w') = get_timestamp_now plat (send_ack dl.p_index (ack_of acked) w) in
    (
      record acked {
        ts = now;
        timeout_cnt = 0;
        finished =
            if leb chunk_size (sub32 acked.next_pkt_expected 1 * acked.data_length)
            then true
            else dl.finished;
      },
      w',
    )

pub record Received : Type 0 where
  pub code : ℤ
  pub dl : Download
  pub world : World

-- `offset` is taken after `data_length` is set, as in the source.
unfoldable pub dl_accept : Platform → Download × World → Packet → Received
dl_accept plat (dl, w) pkt =
    if not (seq_fit_in dl.rwin pkt.seq) || ltb chunk_size (dl_offset dl pkt + get_data_len pkt)
    then record { code = negsuc 0; dl = dl; world = w }
    else let (dl', w') = dl_answer plat (dl_store dl pkt) w in
      record { code = pos 0; dl = dl'; world = w' }

unfoldable pub dl_recv : Platform → Download → Packet → World → Received
dl_recv plat dl pkt w =
    if dl.finished
    then record { code = pos 0; dl = dl; world = w }
    else dl_accept plat (dl_measure plat dl pkt w) pkt

-- `dl_loss` sends the same ack three times over.
unfoldable pub ack_again : ℕ → Download → World → Download × World
ack_again zero dl w = (dl, w)
ack_again (suc n) dl w =
    let acked = get_ack dl in ack_again n acked (send_ack acked.p_index (ack_of acked) w)

unfoldable pub dl_loss : Platform → Download → World → Download × World
dl_loss plat dl w =
    let (acked, w₁) = ack_again loss_ack_num dl w in
    let (now, w₂) = get_timestamp_now plat w₁ in
    (record acked { ts = now; block_update = true }, w₂)

unfoldable pub dl_check_timeout : Platform → Download → World → Received
dl_check_timeout plat dl w =
    if dl.finished
    then record { code = negsuc 0; dl = dl; world = w }
    else let (now, w₁) = get_timestamp_now plat w in
      if dl.est.rtt == 0 && ltb (sub32 now dl.ts) default_timeout
      then record { code = pos dl.timeout_cnt; dl = dl; world = w₁ }
      else if ltb (sub32 now dl.ts) 2500
      then record { code = pos dl.timeout_cnt; dl = dl; world = w₁ }
      else let (dl', w₂) = dl_loss plat (record dl { timeout_cnt = dl.timeout_cnt + 1 }) w₁ in
        record { code = pos dl'.timeout_cnt; dl = dl'; world = w₂ }
