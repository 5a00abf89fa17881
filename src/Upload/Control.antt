-- ===== src/Upload/Control.antt =====
-- `ul_handle_ack` and `ul_check_timeout` of src/upload.c: the acks and the timeouts.
use peer_server.Base.{
  ℕ, ◌+◌, ◌-◌, ◌/◌, Bool, true, false, not, ◌&&◌, ◌||◌, min, ltb, leb, ◌==◌, if◌then◌else◌, add32,
  mul32, update,
}
use peer_server.Base.Int.{ℤ, pos, negsuc, succ, ltb_ℤ}
use peer_server.Platform.{Platform, World}
use peer_server.Util.{get_timestamp_now, update_rtt, default_timeout}
use peer_server.Upload.{
  Upload, Status, slow_start, congestion_avoidance, fast_retransmit, fast_retransmit_ss,
  fast_retransmit_ca, fast_recovery, write_winsize, ul_loss, ul_send, max_dup_ack, last_seq,
}

-- The sets of states that the code tests for.
abbrev pub measures_rtt : Status → Bool
measures_rtt slow_start = true
measures_rtt congestion_avoidance = true
measures_rtt _ = false

abbrev pub is_retransmitting : Status → Bool
is_retransmitting fast_retransmit_ss = true
is_retransmitting fast_retransmit_ca = true
is_retransmitting _ = false

abbrev pub is_fast_retransmit : Status → Bool
is_fast_retransmit fast_retransmit = true
is_fast_retransmit _ = false

abbrev pub avoids_congestion : Status → Bool
avoids_congestion congestion_avoidance = true
avoids_congestion fast_retransmit_ca = true
avoids_congestion _ = false

-- MAX_DUP_SEQ: the smaller of 0 and `last_pkt_acked + 1 - ack`, in `int`.
unfoldable pub max_dup_seq : Upload → ℕ → ℤ
max_dup_seq ul ack =
    if leb ack (ul.last_pkt_acked + 1) then pos 0 else negsuc (ack - (ul.last_pkt_acked + 1) - 1)

-- The round-trip time is measured in slow start and congestion avoidance only.
unfoldable pub ack_rtt : Platform → Upload → ℕ → World → Upload × World
ack_rtt plat ul ack w =
    if measures_rtt ul.status
    then (let (est, w') = update_rtt plat ul.est (ul.seq_ts ack) w in (record ul { est = est }, w'))
    else (ul, w)

-- The count of an ack before it is compared: reset while retransmitting, then incremented, but not
-- in fast retransmit.
unfoldable pub counted : Upload → ℕ → ℤ
counted ul ack = succ (if is_retransmitting ul.status then max_dup_seq ul ack else ul.ack_cnt ack)

unfoldable pub ack_count : Upload → ℕ → Upload
ack_count ul ack =
    if is_fast_retransmit ul.status
    then ul
    else record ul { ack_cnt = update ul.ack_cnt ack (counted ul ack) }

-- The window and the state on an ack that is new, by state; the flag tells whether the window is
-- logged.
unfoldable pub grow_in : Status → Upload → ℕ → Upload × Bool
grow_in slow_start ul ack =
    let window = add32 ul.window_size (ack - ul.last_pkt_acked) in
    (
      record ul {
        window_size = window;
        status = if ltb ul.ss_threshold window then congestion_avoidance else slow_start;
      },
      true,
    )
grow_in congestion_avoidance ul ack = (ul, false)
grow_in fast_retransmit ul ack =
    if leb ul.last_pkt_sent ack
    then (record ul { status = fast_retransmit_ss; window_size = add32 ul.window_size 1 }, true)
    else (ul, false)
grow_in fast_retransmit_ss ul ack =
    let window = add32 ul.window_size 1 in
    (
      record ul {
        window_size = window;
        status =
            if leb ul.max_retransmit_seq ack
            then slow_start
            else if ltb ul.ss_threshold window
            then fast_retransmit_ca
            else fast_retransmit_ss;
      },
      true,
    )
grow_in fast_retransmit_ca ul ack =
    if leb ul.max_retransmit_seq ack
    then (record ul { status = congestion_avoidance }, false)
    else (ul, false)
grow_in fast_recovery ul ack = (ul, false)

-- What every new ack does after the switch.
unfoldable pub acknowledged : Upload → ℕ → Upload
acknowledged ul ack = record ul {
  last_pkt_sent = if ltb ul.last_pkt_sent ack then ack else ul.last_pkt_sent;
  timeout_cnt = 0;
  last_pkt_acked = ack;
  finished = if leb last_seq ack then true else ul.finished;
}

unfoldable pub ack_new : Platform → Upload → ℕ → World → Upload × World
ack_new plat ul ack w =
    let (ul', logs) = grow_in ul.status ul ack in
    (acknowledged ul' ack, if logs then write_winsize plat ul'.p_index ul'.window_size w else w)

-- The part of `ul_handle_ack` behind its checks: a loss, a new ack, or neither.
unfoldable pub ack_act : Platform → Upload → ℕ → World → Upload × World
ack_act plat ul ack w =
    if not (is_fast_retransmit ul.status) && ltb_ℤ (pos max_dup_ack) (ul.ack_cnt ack)
    then ul_loss plat (record ul { ack_cnt = update ul.ack_cnt ack (pos 0) }) w
    else if ltb ul.last_pkt_acked ack
    then ack_new plat ul ack w
    else (ul, w)

unfoldable pub ul_handle_ack : Platform → Upload → ℕ → World → Upload × World
ul_handle_ack plat ul ack w =
    if ul.finished
    then (ul, w)
    else if ack == 0
    then (record ul { timeout_cnt = 0 }, w)
    else if ltb ul.max_pkt_sent ack || ltb ack ul.last_pkt_acked
    then (ul, w)
    else let (ul', w') = ack_rtt plat ul ack w in ack_act plat (ack_count ul' ack) ack w'

-- The first steps of `ul_check_timeout`: the time of the next growth, and the growth.
unfoldable pub ca_start : Upload → ℕ → Upload
ca_start ul now =
    if ul.ca_ts == 0 && avoids_congestion ul.status
    then record ul { ca_ts = add32 now ul.est.rtt }
    else ul

unfoldable pub ca_grow : Platform → Upload → ℕ → World → Upload × World
ca_grow plat ul now w =
    if avoids_congestion ul.status && ltb ul.ca_ts now
    then (
      record ul { window_size = add32 ul.window_size 1; ca_ts = add32 now ul.est.rtt },
      write_winsize plat ul.p_index (add32 ul.window_size 1) w,
    )
    else (ul, w)

-- The last step, on a timeout.
unfoldable pub ul_timeout : Platform → Upload → World → Upload × World
ul_timeout plat ul w =
    let backed_off = record ul {
      est = record (ul.est) { rtt = min (mul32 ul.est.rtt 2) (default_timeout / 4) };
      timeout_cnt = ul.timeout_cnt + 1;
    } in
    let (lost, w₁) = ul_loss plat backed_off w in let s = ul_send plat lost w₁ in (s.ul, s.world)

pub record Checked : Type 0 where
  pub code : ℤ
  pub ul : Upload
  pub world : World

unfoldable pub ul_check_timeout : Platform → Upload → World → Checked
ul_check_timeout plat ul w =
    if ul.finished
    then record { code = negsuc 0; ul = ul; world = w }
    else let (now, w₁) = get_timestamp_now plat w in
      let (grown, w₂) = ca_grow plat (ca_start ul now) now w₁ in
      let due = grown.seq_timeout (grown.last_pkt_acked + 1) in
      if due == 0 || ltb now due
      then record { code = pos grown.timeout_cnt; ul = grown; world = w₂ }
      else let (out, w₃) = ul_timeout plat grown w₂ in
        record { code = pos out.timeout_cnt; ul = out; world = w₃ }
