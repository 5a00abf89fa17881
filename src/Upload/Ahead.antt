-- ===== src/Upload/Ahead.antt =====
-- The window of an upload after a check of the timeouts, and after sending.
use peer_server.Base.{
  if_ind, ℕ, zero, suc, ◌+◌, ◌-◌, ◌^◌, ◌≤◌, ◌<◌, ◌≡◌, refl, ◌∙◌, arith, ltb, ◌==◌, add32,
}
use peer_server.Platform.{Platform, World, emit}
use peer_server.Chunklist.{ChunkList}
use peer_server.Upload.{
  load_data, ul_init, fresh_upload, write_winsize, Upload, Sent, ul_loss, ul_send, send_loop,
  send_end, stamped, data_param,
}
use peer_server.Upload.Control.{ca_start, ca_grow}
use peer_server.Upload.Valid.{IsValid, send_loop-Looped}
use peer_server.Upload.Send.{ClockRuns, ul_send_lem}
use peer_server.Util.{Rtt, get_timestamp_now}
use peer_server.Upload.Window.{Runs, Steady}

-- What the first steps of a check of the timeouts do to the window, and what they leave alone.
record Aged (ul : Upload) (out : Upload) : Type 0 where
  wide : 1 ≤ out.window_size
  narrow : out.window_size ≤ ul.window_size + 1
  cnt : out.ack_cnt ≡ ul.ack_cnt
  acked : out.last_pkt_acked ≡ ul.last_pkt_acked
  sent : out.last_pkt_sent ≡ ul.last_pkt_sent
  most : out.max_pkt_sent ≡ ul.max_pkt_sent

ca_grow-Aged :
    (plat : Platform) (ul : Upload) (now : ℕ) (w : World)
    → 1 ≤ ul.window_size
    → ul.window_size + 1 < 2 ^ 32
    → Aged ul (ca_grow plat (ca_start ul now) now w).0
unfolding ca_grow ca_start
ca_grow-Aged plat ul now w h k = ground arith

pub ca_grow-acked :
    (plat : Platform) (ul : Upload) (now : ℕ) (w : World)
    → (ca_grow plat (ca_start ul now) now w).0.last_pkt_acked ≡ ul.last_pkt_acked
unfolding ca_grow ca_start
ca_grow-acked plat ul now w = ground arith

pub ca_grow-Steady :
    (plat : Platform) {n : ℕ} {ul : Upload} (now : ℕ) (w : World)
    → IsValid ul
    → Runs n ul
    → n + 2000 < 2 ^ 32
    → Steady n ul (ca_grow plat (ca_start ul now) now w).0
ca_grow-Steady plat {n} {ul} now w v r room =
    let g = ca_grow-Aged plat ul now w r.wide (omega (arith, r.narrow, v.acked-le-max, v.max-le)) in
    record {
      runs = record {
        sent-le-max = omega (arith, g.sent, g.most, r.sent-le-max);
        uncounted = λ t k. rw g.cnt (r.uncounted t (omega (arith, g.acked)));
        wide = g.wide;
        narrow = omega (arith, g.narrow, g.acked, r.narrow);
      };
      most = g.most;
    }

-- A loss; before it `ul_timeout` changes the estimate and the number of timeouts.
pub timeout-Runs :
    (plat : Platform) {n : ℕ} {ul : Upload} (est : Rtt) (cnt : ℕ) (w : World)
    → IsValid ul
    → Runs n ul
    → Runs n (ul_loss plat (record ul { est = est; timeout_cnt = cnt }) w).0
unfolding ul_loss
timeout-Runs plat {n} {ul} est cnt w v r = record {
  sent-le-max = v.acked-le-max;
  uncounted = r.uncounted;
  wide = omega arith;
  narrow = omega arith;
}

-- What the loop of `ul_send` leaves to the counts.
send_loop-counts :
    (plat : Platform) (left : ℕ) (ul : Upload) (w : World)
    → (send_loop plat left ul w).ul.ack_cnt ≡ ul.ack_cnt
unfolding send_loop stamped
send_loop-counts plat zero ul w = refl
send_loop-counts plat (suc left) ul w =
    let seq = add32 ul.last_pkt_sent 1 in
    let stamp = get_timestamp_now plat (emit (data_param ul seq) w) in
    let rest =
      send_loop-counts plat left (record (stamped ul seq stamp.0) { last_pkt_sent = seq })
        stamp.1 in
    let same : Sent → Type 0 = λ s. s.ul.ack_cnt ≡ ul.ack_cnt in
    if_ind same (ltb 512 seq) _ _ (λ e. refl)
      (λ e. if_ind same (stamp.0 == 0) _ _ (λ f. refl) (λ f. rest))

-- Sending under a window that is open leaves at least one packet to be acknowledged.
pub record Open (n : ℕ) (ul : Upload) : Type 0 where
  pub runs : Runs n ul
  pub ahead : ul.last_pkt_acked < 512 → ul.last_pkt_acked < ul.max_pkt_sent

send_end-keeps :
    (s : Sent)
    → ((send_end s).ul.ack_cnt ≡ s.ul.ack_cnt)
      × ((send_end s).ul.window_size ≡ s.ul.window_size)
      × ((send_end s).ul.last_pkt_acked ≡ s.ul.last_pkt_acked)
unfolding send_end
send_end-keeps s = ground arith

pub ul_send-keeps :
    (plat : Platform) (ul : Upload) (w : World)
    → ul.last_pkt_sent ≤ 512
    → let out = (ul_send plat ul w).ul in
      (out.ack_cnt ≡ ul.ack_cnt)
      × (out.window_size ≡ ul.window_size)
      × (out.last_pkt_acked ≡ ul.last_pkt_acked)
unfolding ul_send
ul_send-keeps plat ul w h =
    let left = add32 ul.last_pkt_acked ul.window_size - ul.last_pkt_sent in
    let l = send_loop-Looped plat left ul w h in
    let k = send_end-keeps (send_loop plat left ul w) in
    (k.0 ∙ send_loop-counts plat left ul w, k.1 ∙ l.window, k.2 ∙ l.acked)

pub ul_send-Open :
    (plat : Platform) {n : ℕ} {ul : Upload} (w : World)
    → ClockRuns plat
    → IsValid ul
    → Runs n ul
    → n + 2000 < 2 ^ 32
    → Open n (ul_send plat ul w).ul
ul_send-Open plat {n} {ul} w clock v r room =
    let s = ul_send_lem plat clock ul w v (omega (arith, r.narrow, v.acked-le-max, v.max-le)) in
    let k = ul_send-keeps plat ul w v.sent-le in
    record {
      runs = record {
        sent-le-max = omega (arith, s.2, s.3);
        uncounted = λ t h. rw k.0 (r.uncounted t (omega (arith, k.2)));
        wide = omega (arith, k.1, r.wide);
        narrow = omega (arith, k.1, k.2, r.narrow);
      };
      ahead = λ h. omega (arith, s.3, k.2, r.wide, v.acked-le-sent, r.sent-le-max);
    }

-- What `load_data` leaves alone.
load_data-keeps :
    (plat : Platform) (haschunks : ChunkList) (ul : Upload) (w : World)
    → let out = (load_data plat haschunks ul w).ul in
      (out.ack_cnt ≡ ul.ack_cnt)
      × (out.window_size ≡ ul.window_size)
      × (out.last_pkt_acked ≡ ul.last_pkt_acked)
      × (out.last_pkt_sent ≡ ul.last_pkt_sent)
      × (out.max_pkt_sent ≡ ul.max_pkt_sent)
unfolding load_data
load_data-keeps plat haschunks ul w = ground arith

-- Nothing has been sent by a fresh upload, and its window is 1.
pub init-Runs :
    (plat : Platform) (haschunks : ChunkList) (to has_index : ℕ) (w : World)
    → let s = ul_init plat haschunks to has_index w in Runs 0 s.ul × (s.ul.max_pkt_sent ≡ 0)
unfolding ul_init fresh_upload
init-Runs plat haschunks to has_index w =
    let ul = fresh_upload to has_index in
    let k = load_data-keeps plat haschunks ul (write_winsize plat to 1 w) in
    (
      record {
        sent-le-max = omega (arith, k.3, k.4);
        uncounted = λ t h. rw k.0 refl;
        wide = omega (arith, k.1);
        narrow = omega (arith, k.1);
      },
      k.4,
    )
