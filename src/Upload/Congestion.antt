-- ===== src/Upload/Congestion.antt =====
-- The congestion control of an upload: its states, its losses and its progress.
use peer_server.Base.{ℕ, ◌≡◌, refl, Bool, true, false, arith, if◌then◌else◌}
use peer_server.Base.Int.{pos, ltb_ℤ}
use peer_server.Platform.{Platform, World}
use peer_server.Upload.{
  Upload, Status, slow_start, congestion_avoidance, fast_retransmit, fast_retransmit_ss,
  fast_retransmit_ca, fast_recovery, ul_loss,
}
use peer_server.Upload.Control.{
  is_retransmitting, is_fast_retransmit, max_dup_seq, counted, ack_rtt, ack_count, grow_in,
  acknowledged, ack_new, ack_act, ul_handle_ack,
}

-- The moves that an ack can make: growth past the threshold, the loss seen by duplicate acks in
-- slow start or congestion avoidance, and the way back from a loss.
abbrev pub ack_moves : Status → Status → Bool
ack_moves slow_start slow_start = true
ack_moves slow_start congestion_avoidance = true
ack_moves slow_start fast_retransmit = true
ack_moves congestion_avoidance congestion_avoidance = true
ack_moves congestion_avoidance fast_retransmit = true
ack_moves fast_retransmit fast_retransmit = true
ack_moves fast_retransmit fast_retransmit_ss = true
ack_moves fast_retransmit_ss fast_retransmit_ss = true
ack_moves fast_retransmit_ss slow_start = true
ack_moves fast_retransmit_ss fast_retransmit_ca = true
ack_moves fast_retransmit_ca fast_retransmit_ca = true
ack_moves fast_retransmit_ca congestion_avoidance = true
ack_moves fast_recovery fast_recovery = true
ack_moves fast_recovery fast_retransmit = true
ack_moves _ _ = false

moves_stay : (s : Status) → ack_moves s s ≡ true
moves_stay slow_start = refl
moves_stay congestion_avoidance = refl
moves_stay fast_retransmit = refl
moves_stay fast_retransmit_ss = refl
moves_stay fast_retransmit_ca = refl
moves_stay fast_recovery = refl

moves_loss : (s : Status) → is_retransmitting s ≡ false → ack_moves s fast_retransmit ≡ true
moves_loss slow_start h = refl
moves_loss congestion_avoidance h = refl
moves_loss fast_retransmit h = refl
moves_loss fast_retransmit_ss h = cc
moves_loss fast_retransmit_ca h = cc
moves_loss fast_recovery h = refl

grow_in-moves :
    (s : Status) (ul : Upload) (ack : ℕ)
    → ul.status ≡ s
    → ack_moves s (grow_in s ul ack).0.status ≡ true
unfolding grow_in
grow_in-moves slow_start ul ack e = ground arith
grow_in-moves congestion_avoidance ul ack e = rw e
grow_in-moves fast_retransmit ul ack e = ground arith
grow_in-moves fast_retransmit_ss ul ack e = ground arith
grow_in-moves fast_retransmit_ca ul ack e = ground arith
grow_in-moves fast_recovery ul ack e = rw e

-- What an ack keeps before it acts.
pub record Kept (ul out : Upload) : Type 0 where
  pub status : out.status ≡ ul.status
  pub acked : out.last_pkt_acked ≡ ul.last_pkt_acked
  pub sent : out.last_pkt_sent ≡ ul.last_pkt_sent
  pub most : out.max_pkt_sent ≡ ul.max_pkt_sent
  pub window : out.window_size ≡ ul.window_size
  pub threshold : out.ss_threshold ≡ ul.ss_threshold
  pub retransmit : out.max_retransmit_seq ≡ ul.max_retransmit_seq
  pub finished : out.finished ≡ ul.finished

module _ (plat : Platform) (ul : Upload) (ack : ℕ) (w : World) where
  abbrev pub ready : Upload
  ready = ack_count (ack_rtt plat ul ack w).0 ack

  pub ready-Kept : Kept ul ready
  unfolding ack_count ack_rtt
  ready-Kept = ground arith

  -- The count that the code compares.
  pub ready-count :
      ready.ack_cnt ack ≡ (if is_fast_retransmit ul.status then ul.ack_cnt ack else counted ul ack)
  unfolding ack_count ack_rtt counted max_dup_seq
  ready-count = ground arith

  retransmitting-count :
      is_retransmitting ul.status ≡ true → ltb_ℤ (pos 3) (ready.ack_cnt ack) ≡ false
  unfolding counted max_dup_seq
  retransmitting-count h = rw ready-count (ground arith)

  -- Whatever ack comes, the status makes one of the moves of `ack_moves`, or stays: it falls to
  -- fast retransmit only from slow start, congestion avoidance and fast recovery, so never while
  -- lost packets are being sent again.
  pub ul_handle_ack-moves : ack_moves ul.status (ul_handle_ack plat ul ack w).0.status ≡ true
  unfolding ul_handle_ack ack_act ack_new acknowledged ul_loss
  ul_handle_ack-moves = ground (
    arith,
    ready-Kept,
    retransmitting-count,
    moves_stay ul.status,
    moves_loss ul.status,
    grow_in-moves ready.status ready ack refl,
  )
