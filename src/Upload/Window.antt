-- ===== src/Upload/Window.antt =====
-- The window of an upload never closes, whatever acks come and whatever times out.
use peer_server.Base.{
  if_ind, ℕ, suc, ◌+◌, ◌-◌, ◌^◌, ◌≤◌, ◌<◌, ◌≡◌, refl, ◌∙◌, true, false, not, ◌&&◌, ◌||◌, arith, ltb,
  ◌==◌, update,
}
use peer_server.Base.Int.{pos, ltb_ℤ}
use native.Mathlib.Decide.{dec_lt}
use peer_server.Platform.{Platform, World}
use peer_server.Upload.{Upload, Status, slow_start, ul_loss}
use peer_server.Upload.Control.{
  is_fast_retransmit, ack_rtt, ack_count, grow_in, acknowledged, ack_new, ack_act, ul_handle_ack,
}
use peer_server.Upload.Valid.{IsValid}
use peer_server.Upload.Congestion.{Kept, ready, ready-Kept}
use peer_server.Upload.Progress.{Uncounted, counts_low}

-- What holds after `n` acks and timeouts at most.
pub record Runs (n : ℕ) (ul : Upload) : Type 0 where
  pub sent-le-max : ul.last_pkt_sent ≤ ul.max_pkt_sent
  pub uncounted : Uncounted ul
  pub wide : 1 ≤ ul.window_size
  pub narrow : ul.window_size ≤ ul.last_pkt_acked + n + 1

-- What an ack does to the window, and what it leaves alone.
record Grown (ul : Upload) (ack : ℕ) (out : Upload) : Type 0 where
  wide : 1 ≤ out.window_size
  narrow : out.window_size ≤ ul.window_size + (ack - ul.last_pkt_acked) + 1
  cnt : out.ack_cnt ≡ ul.ack_cnt
  sent : out.last_pkt_sent ≡ ul.last_pkt_sent
  most : out.max_pkt_sent ≡ ul.max_pkt_sent

grow_in-Grown :
    (s : Status) (ul : Upload) (ack : ℕ)
    → 1 ≤ ul.window_size
    → ul.window_size + (ack - ul.last_pkt_acked) + 1 < 2 ^ 32
    → Grown ul ack (grow_in s ul ack).0
unfolding grow_in
grow_in-Grown slow_start ul ack h k = ground arith
grow_in-Grown _ ul ack h k = ground arith

-- What a step other than sending keeps.
pub record Steady (n : ℕ) (ul : Upload) (out : Upload) : Type 0 where
  pub runs : Runs (suc n) out
  pub most : out.max_pkt_sent ≡ ul.max_pkt_sent

pub same-Steady : {n : ℕ} {ul : Upload} → Runs n ul → Steady n ul ul
same-Steady {n} {ul} r = record {
  runs = record {
    sent-le-max = r.sent-le-max;
    uncounted = r.uncounted;
    wide = r.wide;
    narrow = omega (arith, r.narrow);
  };
  most = refl;
}

-- The counts of all other acks stay.
ready-other :
    (plat : Platform) (ul : Upload) (ack : ℕ) (w : World) (t : ℕ)
    → (t == ack) ≡ false
    → (ready plat ul ack w).ack_cnt t ≡ ul.ack_cnt t
unfolding ack_count ack_rtt
ready-other plat ul ack w t e = ground arith

module _ (plat : Platform) {n : ℕ} {ul : Upload} (ack : ℕ) (w : World) (v : IsValid ul)
    (r : Runs n ul) (room : n + 2000 < 2 ^ 32) (low : ul.last_pkt_acked ≤ ack)
    (high : ack ≤ ul.max_pkt_sent) where
  abbrev mid : Upload
  mid = ready plat ul ack w

  kept : Kept ul mid
  kept = ready-Kept plat ul ack w

  later_count : (t : ℕ) → ack < t → mid.ack_cnt t ≡ pos 0
  later_count t h = ready-other plat ul ack w t (ground arith) ∙ r.uncounted t (omega arith)

  -- An ack that is new.
  new-Steady : (w' : World) → ul.last_pkt_acked < ack → Steady n ul (ack_new plat mid ack w').0
  unfolding ack_new acknowledged
  new-Steady w' h =
      let g =
        grow_in-Grown mid.status mid ack (rw kept.window r.wide)
          (omega (arith, kept.window, kept.acked, r.narrow, v.acked-le-max, v.max-le)) in
      record {
        runs = record {
          sent-le-max = ground (arith, g.sent, g.most, kept.sent, kept.most, r.sent-le-max);
          uncounted = λ t k. rw g.cnt (later_count t k);
          wide = g.wide;
          narrow = omega (arith, g.narrow, kept.window, kept.acked, r.narrow);
        };
        most = g.most ∙ kept.most;
      }

  -- A copy of the last ack.
  module _ (same : ack ≡ ul.last_pkt_acked) where
    copy-Steady : Steady n ul mid
    copy-Steady = record {
      runs = record {
        sent-le-max = omega (arith, kept.sent, kept.most, r.sent-le-max);
        uncounted = λ t k. later_count t (omega (arith, kept.acked));
        wide = omega (arith, kept.window, r.wide);
        narrow = omega (arith, kept.window, kept.acked, r.narrow);
      };
      most = kept.most;
    }

    loss-Steady :
        (w' : World)
        → Steady n ul (ul_loss plat (record mid { ack_cnt = update mid.ack_cnt ack (pos 0) }) w').0
    unfolding ul_loss
    loss-Steady w' = record {
      runs = record {
        sent-le-max = omega (arith, kept.acked, kept.most, v.acked-le-max);
        uncounted = λ t k. ground (arith, later_count t (omega (arith, kept.acked)));
        wide = omega arith;
        narrow = omega arith;
      };
      most = kept.most;
    }

  -- Whatever the code does with an ack in range.
  act-Steady :
      ul.finished ≡ false → 0 < ack → Steady n ul (ack_act plat mid ack (ack_rtt plat ul ack w).1).0
  unfolding ack_act
  act-Steady run nonzero =
      let w' = (ack_rtt plat ul ack w).1 in
      let counts = not (is_fast_retransmit mid.status) && ltb_ℤ (pos 3) (mid.ack_cnt ack) in
      let fits : Upload × World → Type 0 = λ o. Steady n ul o.0 in
      if_ind fits counts _ _ (λ e. loss-Steady (old e) w')
        (λ e.
          if_ind fits (ltb mid.last_pkt_acked ack) _ _
            (λ k. new-Steady w' (ground (arith, k, kept.acked)))
            (λ k. copy-Steady (ground (arith, k, kept.acked))))
    where
      old :
          (not (is_fast_retransmit mid.status) && ltb_ℤ (pos 3) (mid.ack_cnt ack)) ≡ true
          → ack ≡ ul.last_pkt_acked
      old e = elim (dec_lt ul.last_pkt_acked ack) [
        | yes k ↦ absurd (cc (e, counts_low plat ul ack w v run low high nonzero r.uncounted k))
        | no k ↦ omega arith
      ]

-- With room left, whatever ack comes.
pub ul_handle_ack-Steady :
    (plat : Platform) {n : ℕ} {ul : Upload} (ack : ℕ) (w : World)
    → IsValid ul
    → Runs n ul
    → n + 2000 < 2 ^ 32
    → Steady n ul (ul_handle_ack plat ul ack w).0
unfolding ul_handle_ack
ul_handle_ack-Steady plat {n} {ul} ack w v r room =
    let fits : Upload × World → Type 0 = λ o. Steady n ul o.0 in
    let same = same-Steady r in
    if_ind fits ul.finished _ _ (λ e. same)
      (λ run.
        if_ind fits (ack == 0) _ _
          (λ e. record {
            runs = record {
              sent-le-max = same.runs.sent-le-max;
              uncounted = same.runs.uncounted;
              wide = same.runs.wide;
              narrow = same.runs.narrow;
            };
            most = refl;
          })
          (λ e.
            if_ind fits (ltb ul.max_pkt_sent ack || ltb ack ul.last_pkt_acked) _ _ (λ f. same)
              (λ f.
                act-Steady plat ack w v r room (ground (arith, f)) (ground (arith, f)) run
                  (ground (arith, e)))))
