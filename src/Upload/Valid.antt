-- ===== src/Upload/Valid.antt =====
-- The invariant of an upload: its sequence numbers stay in order and inside the three arrays.
use peer_server.Base.{ℕ, zero, suc, ◌≤◌, ◌≡◌, arith, leb, add32, update}
use peer_server.Platform.{Platform, World, emit}
use peer_server.Base.Int.{pos}
use peer_server.Chunklist.{ChunkList}
use peer_server.Util.{get_timestamp_now}
use peer_server.Upload.{
  Upload, Status, slow_start, Sent, ul_loss, ul_send, send_loop, send_end, stamped, ul_init,
  fresh_upload, load_data, data_param,
}
use peer_server.Upload.Control.{
  ack_rtt, ack_count, grow_in, acknowledged, ack_new, ack_act, ul_handle_ack, ca_start, ca_grow,
  ul_timeout, ul_check_timeout,
}

pub record IsValid (ul : Upload) : Type 0 where
  pub acked-le-sent : ul.last_pkt_acked ≤ ul.last_pkt_sent
  pub sent-le : ul.last_pkt_sent ≤ 512
  pub acked-le-max : ul.last_pkt_acked ≤ ul.max_pkt_sent
  pub max-le : ul.max_pkt_sent ≤ 512
  pub done : ul.finished ≡ leb 512 ul.last_pkt_acked

load_data-IsValid :
    (plat : Platform) (chunks : ChunkList) (ul : Upload) (w : World)
    → IsValid ul
    → IsValid (load_data plat chunks ul w).ul
unfolding load_data
load_data-IsValid plat chunks ul w v = ground arith

fresh-IsValid : (p_index has_index : ℕ) → IsValid (fresh_upload p_index has_index)
unfolding fresh_upload
fresh-IsValid p_index has_index = ground arith

-- `ul_init` starts a valid upload, whether or not the chunk could be mapped.
pub ul_init-IsValid :
    (plat : Platform) (chunks : ChunkList) (p_index has_index : ℕ) (w : World)
    → IsValid (ul_init plat chunks p_index has_index w).ul
unfolding ul_init
ul_init-IsValid plat chunks p_index has_index w =
    load_data-IsValid plat chunks _ _ (fresh-IsValid p_index has_index)

-- What the loop of `ul_send` leaves alone, and how far it goes.
pub record Looped (ul out : Upload) : Type 0 where
  pub acked : out.last_pkt_acked ≡ ul.last_pkt_acked
  pub most : out.max_pkt_sent ≡ ul.max_pkt_sent
  pub same : out.finished ≡ ul.finished
  pub status : out.status ≡ ul.status
  pub window : out.window_size ≡ ul.window_size
  pub grows : ul.last_pkt_sent ≤ out.last_pkt_sent
  pub bound : out.last_pkt_sent ≤ 512

pub send_loop-Looped :
    (plat : Platform) (left : ℕ) (ul : Upload) (w : World)
    → ul.last_pkt_sent ≤ 512
    → Looped ul (send_loop plat left ul w).ul
unfolding send_loop stamped
send_loop-Looped plat zero ul w h = ground arith
send_loop-Looped plat (suc left) ul w h =
    let seq = add32 ul.last_pkt_sent 1 in
    let stamp = get_timestamp_now plat (emit (data_param ul seq) w) in
    ground (
      arith,
      send_loop-Looped plat left (record (stamped ul seq stamp.0) { last_pkt_sent = seq }) stamp.1,
    )

send_end-IsValid : (ul : Upload) (s : Sent) → IsValid ul → Looped ul s.ul → IsValid (send_end s).ul
unfolding send_end
send_end-IsValid ul s v l = ground arith

-- `ul_send` keeps the invariant, also if the clock fails half way.
pub ul_send-IsValid :
    (plat : Platform) (ul : Upload) (w : World) → IsValid ul → IsValid (ul_send plat ul w).ul
unfolding ul_send
ul_send-IsValid plat ul w v = send_end-IsValid ul _ v (send_loop-Looped plat _ ul w v.sent-le)

pub ul_loss-IsValid :
    (plat : Platform) (ul : Upload) (w : World) → IsValid ul → IsValid (ul_loss plat ul w).0
unfolding ul_loss
ul_loss-IsValid plat ul w v = ground arith

module _ (plat : Platform) (ul : Upload) (ack : ℕ) (w : World) (v : IsValid ul) where
  ack_rtt-IsValid : IsValid (ack_rtt plat ul ack w).0
  unfolding ack_rtt
  ack_rtt-IsValid = ground arith

  ack_count-IsValid : IsValid (ack_count ul ack)
  unfolding ack_count
  ack_count-IsValid = ground arith

  grow_in-IsValid : (s : Status) → IsValid (grow_in s ul ack).0
  unfolding grow_in
  grow_in-IsValid slow_start = ground arith
  grow_in-IsValid _ = ground arith

  acknowledged-IsValid :
      ul.last_pkt_acked ≤ ack → ack ≤ ul.max_pkt_sent → IsValid (acknowledged ul ack)
  unfolding acknowledged
  acknowledged-IsValid a b = ground arith

grow_in-acked :
    (s : Status) (ul : Upload) (ack : ℕ)
    → ((grow_in s ul ack).0.last_pkt_acked ≡ ul.last_pkt_acked)
      × ((grow_in s ul ack).0.max_pkt_sent ≡ ul.max_pkt_sent)
unfolding grow_in
grow_in-acked slow_start ul ack = ground arith
grow_in-acked _ ul ack = ground arith

ack_act-IsValid :
    (plat : Platform) (ul : Upload) (ack : ℕ) (w : World)
    → IsValid ul
    → ack ≤ ul.max_pkt_sent
    → IsValid (ack_act plat ul ack w).0
unfolding ack_act ack_new
ack_act-IsValid plat ul ack w v m = ground (
  arith,
  ul_loss-IsValid plat (record ul { ack_cnt = update ul.ack_cnt ack (pos 0) }) w,
  grow_in-acked ul.status ul ack,
  acknowledged-IsValid plat (grow_in ul.status ul ack).0 ack w
      (grow_in-IsValid plat ul ack w v ul.status),
)

ack_parts-max :
    (plat : Platform) (ul : Upload) (ack : ℕ) (w : World)
    → (ack_count (ack_rtt plat ul ack w).0 ack).max_pkt_sent ≡ ul.max_pkt_sent
unfolding ack_count ack_rtt
ack_parts-max plat ul ack w = ground arith

-- `ul_handle_ack` keeps the invariant, whatever ack comes: the last packet acknowledged is at most
-- the last one sent, none lies beyond 512, and the upload is finished exactly at 512.
pub ul_handle_ack-IsValid :
    (plat : Platform) (ul : Upload) (ack : ℕ) (w : World)
    → IsValid ul
    → IsValid (ul_handle_ack plat ul ack w).0
unfolding ul_handle_ack
ul_handle_ack-IsValid plat ul ack w v =
    let r = ack_rtt plat ul ack w in
    let counted = ack_count-IsValid plat r.0 ack w (ack_rtt-IsValid plat ul ack w v) in
    ground
      (arith, ack_act-IsValid plat (ack_count r.0 ack) ack r.1 counted, ack_parts-max plat ul ack w)

pub ca_grow-IsValid :
    (plat : Platform) (ul : Upload) (now : ℕ) (w : World)
    → IsValid ul
    → IsValid (ca_grow plat (ca_start ul now) now w).0
unfolding ca_grow ca_start
ca_grow-IsValid plat ul now w v = ground arith

ul_timeout-IsValid :
    (plat : Platform) (ul : Upload) (w : World) → IsValid ul → IsValid (ul_timeout plat ul w).0
unfolding ul_timeout
ul_timeout-IsValid plat ul w v = ul_send-IsValid plat _ _ (ul_loss-IsValid plat _ w (ground arith))

-- `ul_check_timeout` keeps the invariant of an upload, with or without a timeout and whatever the
-- clock says.
pub ul_check_timeout-IsValid :
    (plat : Platform) (ul : Upload) (w : World)
    → IsValid ul
    → IsValid (ul_check_timeout plat ul w).ul
unfolding ul_check_timeout
ul_check_timeout-IsValid plat ul w v =
    let t = get_timestamp_now plat w in
    let grown = ca_grow-IsValid plat ul t.0 t.1 v in
    ground
      (arith, grown, ul_timeout-IsValid plat _ (ca_grow plat (ca_start ul t.0) t.0 t.1).1 grown)
