-- ===== src/Server/Unwritten.antt =====
-- What leaves the file that is being downloaded alone: the functions of uploads and downloads.
use peer_server.Base.{
  if_ind, Option, none, some, ℕ, zero, suc, ◌+◌, ◌-◌, ◌≡◌, refl, ◌∙◌, true, false, not, ◌&&◌, ◌||◌,
  arith, ltb, ◌==◌, add32, update, List,
}
use peer_server.Base.Int.{pos, ltb_ℤ}
use peer_server.Chunklist.{ChunkList}
use peer_server.Packet.{Packet}
use peer_server.Platform.{Platform, World, emit, tick}
use peer_server.Util.{get_timestamp_now, update_rtt}
use peer_server.Upload.{
  Upload, Sent, get_chunk_offset, write_winsize, load_data, unload_data, ul_init, ul_deinit,
  data_param, stamped, send_loop, send_end, ul_send, ul_loss,
}
use peer_server.Upload.Control.{
  Checked, is_fast_retransmit, ack_rtt, ack_count, grow_in, ack_new, ack_act, ul_handle_ack,
  ca_start, ca_grow, ul_timeout, ul_check_timeout,
}
use peer_server.Download.{
  Download, Received, dl_init, dl_measure, dl_answer, dl_accept, dl_recv, get_ack, send_ack,
  ack_again, loss_ack_num, dl_loss, dl_check_timeout,
}

-- The writes so far are the same.
abbrev pub Spared : World → World → Type 0
Spared w w' = w'.saved ≡ w.saved

abbrev Kept : World → Sent → Type 0
Kept w r = Spared w r.world

module _ (plat : Platform) where
  winsize-Spared : (i k : ℕ) (w : World) → Spared w (write_winsize plat i k w)
  unfolding write_winsize get_timestamp_now tick
  winsize-Spared i k w = ground arith

  ack_rtt-Spared : (ul : Upload) (ack : ℕ) (w : World) → Spared w (ack_rtt plat ul ack w).1
  unfolding ack_rtt update_rtt get_timestamp_now tick
  ack_rtt-Spared ul ack w = ground arith

  ul_loss-Spared : (ul : Upload) (w : World) → Spared w (ul_loss plat ul w).1
  unfolding ul_loss
  ul_loss-Spared ul w = winsize-Spared ul.p_index 1 w

  ack_new-Spared : (ul : Upload) (ack : ℕ) (w : World) → Spared w (ack_new plat ul ack w).1
  unfolding ack_new
  ack_new-Spared ul ack w =
      let g = (grow_in ul.status ul ack).0 in
      ground (arith, winsize-Spared g.p_index g.window_size w)

  ack_act-Spared : (ul : Upload) (ack : ℕ) (w : World) → Spared w (ack_act plat ul ack w).1
  unfolding ack_act
  ack_act-Spared ul ack w =
      let kept : Upload × World → Type 0 = λ r. Spared w r.1 in
      if_ind kept (not (is_fast_retransmit ul.status) && ltb_ℤ (pos 3) (ul.ack_cnt ack)) _ _
        (λ e. ul_loss-Spared (record ul { ack_cnt = update ul.ack_cnt ack (pos 0) }) w)
        (λ e.
          if_ind kept (ltb ul.last_pkt_acked ack) _ _ (λ f. ack_new-Spared ul ack w) (λ f. refl))

  pub ul_handle_ack-Spared :
      (ul : Upload) (ack : ℕ) (w : World) → Spared w (ul_handle_ack plat ul ack w).1
  unfolding ul_handle_ack
  ul_handle_ack-Spared ul ack w =
      let kept : Upload × World → Type 0 = λ r. Spared w r.1 in
      let m = ack_rtt plat ul ack w in
      if_ind kept ul.finished _ _ (λ e. refl)
        (λ e.
          if_ind kept (ack == 0) _ _ (λ e. refl)
            (λ e.
              if_ind kept (ltb ul.max_pkt_sent ack || ltb ack ul.last_pkt_acked) _ _ (λ e. refl)
                (λ e. ack_act-Spared (ack_count m.0 ack) ack m.1 ∙ ack_rtt-Spared ul ack w)))

  send_loop-Spared :
      (left : ℕ) (ul : Upload) (w : World) → Spared w (send_loop plat left ul w).world
  unfolding send_loop get_timestamp_now tick emit
  send_loop-Spared zero ul w = refl
  send_loop-Spared (suc left) ul w =
      let seq = add32 ul.last_pkt_sent 1 in
      let stamp = get_timestamp_now plat (emit (data_param ul seq) w) in
      let kept : Sent → Type 0 = λ s. Spared w s.world in
      if_ind kept (ltb 512 seq) _ _ (λ e. refl)
        (λ e.
          if_ind kept (stamp.0 == 0) _ _ (λ e. refl)
            (λ e.
              send_loop-Spared left (record (stamped ul seq stamp.0) { last_pkt_sent = seq })
                stamp.1))

  pub ul_send-Spared : (ul : Upload) (w : World) → Spared w (ul_send plat ul w).world
  unfolding ul_send send_end
  ul_send-Spared ul w =
      let left = add32 ul.last_pkt_acked ul.window_size - ul.last_pkt_sent in
      ground (arith, send_loop-Spared left ul w)

  load_data-Spared :
      (chunks : ChunkList) (ul : Upload) (w : World) → Spared w (load_data plat chunks ul w).world
  unfolding load_data tick
  load_data-Spared chunks ul w = loaded (plat.mmap w.calls (get_chunk_offset ul.has_index chunks))
    where
      loaded :
          (o : Option (ℕ → ℕ))
          → Kept w (elim o [
            | none ↦ record { good = false; ul = ul; world = tick w }
            | some bytes ↦ record {
              good = true;
              ul = record ul { data_ptr = some bytes };
              world = tick w;
            }
          ])
      loaded none = refl
      loaded (some bytes) = refl

  pub ul_init-Spared :
      (chunks : ChunkList) (i h : ℕ) (w : World) → Spared w (ul_init plat chunks i h w).world
  unfolding ul_init
  ul_init-Spared chunks i h w = load_data-Spared chunks _ _ ∙ winsize-Spared i _ w

  pub ul_deinit-Spared : (ul : Upload) (w : World) → Spared w (ul_deinit plat ul w).1
  unfolding ul_deinit unload_data tick
  ul_deinit-Spared ul w = refl

  ca_grow-Spared : (ul : Upload) (now : ℕ) (w : World) → Spared w (ca_grow plat ul now w).1
  unfolding ca_grow
  ca_grow-Spared ul now w = ground (arith, winsize-Spared ul.p_index (add32 ul.window_size 1) w)

  ul_timeout-Spared : (ul : Upload) (w : World) → Spared w (ul_timeout plat ul w).1
  unfolding ul_timeout
  ul_timeout-Spared ul w = ul_send-Spared _ _ ∙ ul_loss-Spared _ w

  pub ul_check_timeout-Spared :
      (ul : Upload) (w : World) → Spared w (ul_check_timeout plat ul w).world
  unfolding ul_check_timeout get_timestamp_now tick
  ul_check_timeout-Spared ul w =
      let t = get_timestamp_now plat w in
      let g = ca_grow plat (ca_start ul t.0) t.0 t.1 in
      let due = g.0.seq_timeout (g.0.last_pkt_acked + 1) in
      let grown = ca_grow-Spared (ca_start ul t.0) t.0 t.1 in
      let kept : Checked → Type 0 = λ r. Spared w r.world in
      if_ind kept ul.finished _ _ (λ e. refl)
        (λ e.
          if_ind kept (due == 0 || ltb t.0 due) _ _ (λ e. grown)
            (λ e. ul_timeout-Spared g.0 g.1 ∙ grown))

  pub dl_init-Spared : (i c : ℕ) (name : List ℕ) (w : World) → Spared w (dl_init plat i c name w).1
  unfolding dl_init get_timestamp_now tick
  dl_init-Spared i c name w = refl

  dl_measure-Spared :
      (dl : Download) (pkt : Packet) (w : World) → Spared w (dl_measure plat dl pkt w).1
  unfolding dl_measure update_rtt get_timestamp_now tick
  dl_measure-Spared dl pkt w = ground arith

  dl_accept-Spared : (m : Download × World) (pkt : Packet) → Spared m.1 (dl_accept plat m pkt).world
  unfolding dl_accept dl_answer send_ack emit get_timestamp_now tick
  dl_accept-Spared m pkt = ground arith

  pub dl_recv-Spared :
      (dl : Download) (pkt : Packet) (w : World) → Spared w (dl_recv plat dl pkt w).world
  unfolding dl_recv
  dl_recv-Spared dl pkt w =
      if_ind (λ (r : Received). Spared w r.world) dl.finished _ _ (λ e. refl)
        (λ e. dl_accept-Spared (dl_measure plat dl pkt w) pkt ∙ dl_measure-Spared dl pkt w)

  ack_again-Spared : (n : ℕ) (dl : Download) (w : World) → Spared w (ack_again n dl w).1
  unfolding ack_again send_ack emit
  ack_again-Spared zero dl w = refl
  ack_again-Spared (suc n) dl w = ack_again-Spared n (get_ack dl) _

  pub dl_check_timeout-Spared :
      (dl : Download) (w : World) → Spared w (dl_check_timeout plat dl w).world
  unfolding dl_check_timeout dl_loss get_timestamp_now tick
  dl_check_timeout-Spared dl w =
      let late = record dl { timeout_cnt = dl.timeout_cnt + 1 } in
      ground (arith, ack_again-Spared loss_ack_num late (tick w))
