-- ===== src/Upload/Progress.antt =====
-- The acks of an upload: which are taken, and when the duplicates of one mean a loss.
use peer_server.Base.{ℕ, ◌≤◌, ◌<◌, ◌≡◌, refl, ◌∙◌, false, not, ◌&&◌, arith, leb, lt→ltb}
use peer_server.Base.Int.{pos, ltb_ℤ}
use peer_server.Platform.{Platform, World}
use peer_server.Upload.{Upload, Status, slow_start}
use peer_server.Upload.Control.{
  is_fast_retransmit, max_dup_seq, counted, ack_rtt, grow_in, acknowledged, ack_new, ack_act,
  ul_handle_ack,
}
use peer_server.Upload.Valid.{IsValid}
use peer_server.Upload.Congestion.{ready, ready-Kept, ready-count}

-- No ack beyond the last one has been counted.
abbrev pub Uncounted : Upload → Type 0
Uncounted ul = (a : ℕ) → ul.last_pkt_acked < a → ul.ack_cnt a ≡ pos 0

grow_in-finished :
    (s : Status) (ul : Upload) (ack : ℕ) → (grow_in s ul ack).0.finished ≡ ul.finished
unfolding grow_in
grow_in-finished slow_start ul ack = refl
grow_in-finished _ ul ack = ground arith

module _ (plat : Platform) (ul : Upload) (ack : ℕ) (w : World) (v : IsValid ul)
    (run : ul.finished ≡ false) (low : ul.last_pkt_acked ≤ ack) (high : ack ≤ ul.max_pkt_sent)
    (nonzero : 0 < ack) where
  -- An ack in range is acted on.
  acts :
      ul_handle_ack plat ul ack w ≡ ack_act plat (ready plat ul ack w) ack (ack_rtt plat ul ack w).1
  unfolding ul_handle_ack
  acts = ground arith

  pub counts_low :
      Uncounted ul
      → ul.last_pkt_acked < ack
      → (not (is_fast_retransmit (ready plat ul ack w).status)
          && ltb_ℤ (pos 3) ((ready plat ul ack w).ack_cnt ack))
        ≡ false
  unfolding counted max_dup_seq
  counts_low u h =
      let k = ready-Kept plat ul ack w in
      rw (k.status, ready-count plat ul ack w) (ground (arith, u ack h))

  takes :
      Uncounted ul
      → ul.last_pkt_acked < ack
      → ul_handle_ack plat ul ack w
        ≡ ack_new plat (ready plat ul ack w) ack (ack_rtt plat ul ack w).1
  unfolding ack_act
  takes u h =
      acts ∙ rw (counts_low u h, (ready-Kept plat ul ack w).acked, lt→ltb ul.last_pkt_acked ack h)

  -- An ack beyond the last one, of a packet that was sent, is taken by an upload that is valid and
  -- unfinished and has counted no ack beyond the last one: the upload is acknowledged up to it, its
  -- timeouts are cleared, and it is finished exactly if the ack is that of the last packet.
  pub new_ack_taken :
      Uncounted ul
      → ul.last_pkt_acked < ack
      → let out = (ul_handle_ack plat ul ack w).0 in
        (out.last_pkt_acked ≡ ack) × (out.timeout_cnt ≡ 0) × (out.finished ≡ leb 512 ack)
  unfolding ack_new acknowledged
  new_ack_taken u h =
      let r = ready plat ul ack w in
      rw (takes u h) (
        refl,
        refl,
        (ground (arith, grow_in-finished r.status r ack, (ready-Kept plat ul ack w).finished)),
      )
