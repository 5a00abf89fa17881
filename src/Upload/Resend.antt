-- ===== src/Upload/Resend.antt =====
-- The timer of an upload: what `ul_check_timeout` sends again.
use mathlib.Core.Path.{subst}
use peer_server.Base.{
  ℕ, ◌+◌, ◌<◌, ◌≡◌, refl, sym, ap, ◌∙◌, Bool, true, false, not, ◌&&◌, ◌||◌, ◌∷◌, arith, ltb, ◌==◌,
  if◌then◌else◌, min, mul32, ◌/◌, inl, inr, Bool-cases, add32,
}
use peer_server.Base.Int.{pos, negsuc}
use peer_server.Platform.{Platform, World, tick}
use peer_server.Util.{get_timestamp_now, default_timeout}
use peer_server.Upload.{Upload, write_winsize, data_param, ul_loss}
use peer_server.Upload.Control.{Checked, ca_start, ca_grow, ul_timeout, ul_check_timeout}
use peer_server.Upload.Valid.{IsValid, ul_loss-IsValid}
use peer_server.Upload.Send.{ClockRuns, sent_from, allowed, ul_send_lem}

winsize-sent : (plat : Platform) (i k : ℕ) (w : World) → (write_winsize plat i k w).sent ≡ w.sent
unfolding write_winsize get_timestamp_now tick
winsize-sent plat i k w = ground arith

-- What the growth in congestion avoidance leaves alone.
record Grown (ul : Upload) (w : World) (out : Upload × World) : Type 0 where
  run : out.0.finished ≡ ul.finished
  valid : IsValid ul → IsValid out.0
  acked : out.0.last_pkt_acked ≡ ul.last_pkt_acked
  last : out.0.last_pkt_sent ≡ ul.last_pkt_sent
  due : out.0.seq_timeout ≡ ul.seq_timeout
  index : out.0.p_index ≡ ul.p_index
  bytes : out.0.data_ptr ≡ ul.data_ptr
  sent : out.1.sent ≡ w.sent

grow-Grown :
    (plat : Platform) (ul : Upload) (now : ℕ) (w : World)
    → Grown ul w (ca_grow plat (ca_start ul now) now w)
unfolding ca_grow ca_start
grow-Grown plat ul now w = record {
  run = ground arith;
  valid = λ v. ground arith;
  acked = ground arith;
  last = ground arith;
  due = ground arith;
  index = ground arith;
  bytes = ground arith;
  sent = ground (arith, winsize-sent plat ul.p_index (add32 ul.window_size 1) w);
}

module _ (plat : Platform) (runs : ClockRuns plat) where
  timeout_lem :
      (ul : Upload) (w : World)
      → IsValid ul
      → ul.finished ≡ false
      → let out = ul_timeout plat ul w in
        (out.1.sent ≡ data_param ul (ul.last_pkt_acked + 1) ∷ w.sent)
        × (out.0.last_pkt_sent ≡ ul.last_pkt_acked + 1)
  unfolding ul_timeout ul_loss data_param
  timeout_lem ul w v run =
      let low : ul.last_pkt_acked < 512 = ground (arith, v.done) in
      let backed_off = record ul {
        est = record (ul.est) { rtt = min (mul32 ul.est.rtt 2) (default_timeout / 4) };
        timeout_cnt = ul.timeout_cnt + 1;
      } in
      let lost = (ul_loss plat backed_off w).0 in
      let once : allowed lost ≡ 1 = omega (arith, low) in
      let r =
        ul_send_lem plat runs lost (write_winsize plat ul.p_index 1 w)
          (ul_loss-IsValid plat backed_off w (ground arith)) (omega arith) in
      let logged = winsize-sent plat ul.p_index 1 w in
      let first = data_param ul (ul.last_pkt_acked + 1) in
      (
        r.1
            ∙ ap
                (λ n.
                  sent_from (data_param lost) (ul.last_pkt_acked + 1) n
                    (write_winsize plat ul.p_index 1 w).sent)
                once
            ∙ ap (λ before. first ∷ before) logged,
        r.2 ∙ ap (λ n. ul.last_pkt_acked + n) once,
      )

  -- Whether the timer of the packet that is waited for has run out, by the clock that is read now.
  abbrev pub is_over : Upload → World → Bool
  is_over ul w =
      let due = ul.seq_timeout (ul.last_pkt_acked + 1) in
      not (due == 0 || ltb (get_timestamp_now plat w).0 due)

  -- The call behind the test for a finished upload.
  abbrev go_on : Upload → World → Checked
  go_on ul w =
      let (now, w₁) = get_timestamp_now plat w in
      let (grown, w₂) = ca_grow plat (ca_start ul now) now w₁ in
      let due = grown.seq_timeout (grown.last_pkt_acked + 1) in
      if due == 0 || ltb now due
      then record { code = pos grown.timeout_cnt; ul = grown; world = w₂ }
      else let (out, w₃) = ul_timeout plat grown w₂ in
        record { code = pos out.timeout_cnt; ul = out; world = w₃ }

  running :
      (ul : Upload) (w : World) → ul.finished ≡ false → ul_check_timeout plat ul w ≡ go_on ul w
  unfolding ul_check_timeout
  running ul w run =
      ap (λ b. if b then record { code = negsuc 0; ul = ul; world = w } else go_on ul w) run

  stopped :
      (ul : Upload) (w : World)
      → ul.finished ≡ true
      → ul_check_timeout plat ul w ≡ record { code = negsuc 0; ul = ul; world = w }
  unfolding ul_check_timeout
  stopped ul w ended =
      ap (λ b. if b then record { code = negsuc 0; ul = ul; world = w } else go_on ul w) ended

  sent-now : (w : World) → (get_timestamp_now plat w).1.sent ≡ w.sent
  unfolding get_timestamp_now tick
  sent-now w = refl

  running_lem :
      (ul : Upload) (w : World)
      → IsValid ul
      → ul.finished ≡ false
      → let out = go_on ul w in
        let expected = ul.last_pkt_acked + 1 in
        (out.world.sent ≡ (if is_over ul w then data_param ul expected ∷ w.sent else w.sent))
        × (out.ul.last_pkt_sent ≡ (if is_over ul w then expected else ul.last_pkt_sent))
  unfolding data_param
  running_lem ul w v run =
      let now = (get_timestamp_now plat w).0 in
      let w₁ = (get_timestamp_now plat w).1 in
      let out = ca_grow plat (ca_start ul now) now w₁ in
      let g = grow-Grown plat ul now w₁ in
      let t = timeout_lem out.0 out.1 (g.valid v) (g.run ∙ run) in
      let due = ul.seq_timeout (ul.last_pkt_acked + 1) in
      let expected = ul.last_pkt_acked + 1 in
      let same : data_param out.0 expected ≡ data_param ul expected = rw (g.index, g.bytes) refl in
      elim (Bool-cases (due == 0 || ltb now due)) [
        | inl later ↦ rw (g.acked, g.due, later) (g.sent ∙ sent-now w, g.last)
        | inr over ↦
            rw (g.acked, g.due, over)
              (
                t.0
                    ∙ ap (λ n. data_param out.0 (n + 1) ∷ out.1.sent) g.acked
                    ∙ ap (λ p. p ∷ out.1.sent) same
                    ∙ ap (λ before. data_param ul expected ∷ before) (g.sent ∙ sent-now w),
                t.1 ∙ ap (λ n. n + 1) g.acked,
              )
      ]

  -- What a call that ends in `out` sent, where the flag tells whether the upload was finished.
  abbrev Resent : Upload → World → Bool → Checked → Type 0
  Resent ul w ended out =
      let expected = ul.last_pkt_acked + 1 in
      let resends = not ended && is_over ul w in
      (out.world.sent ≡ (if resends then data_param ul expected ∷ w.sent else w.sent))
      × (out.ul.last_pkt_sent ≡ (if resends then expected else ul.last_pkt_sent))

  -- On a valid upload, while the clock runs, `ul_check_timeout` sends nothing and leaves
  -- `last_pkt_sent` alone unless the upload is unfinished and the time set for the packet after the
  -- last one acknowledged is set and not after the time now. Then it sends that packet alone again,
  -- with the bytes of the chunk at its place, and `last_pkt_sent` falls back to its number.
  pub ul_check_timeout-resends :
      (ul : Upload) (w : World)
      → IsValid ul
      → let out = ul_check_timeout plat ul w in
        let expected = ul.last_pkt_acked + 1 in
        let resends = not ul.finished && is_over ul w in
        (out.world.sent ≡ (if resends then data_param ul expected ∷ w.sent else w.sent))
        × (out.ul.last_pkt_sent ≡ (if resends then expected else ul.last_pkt_sent))
  ul_check_timeout-resends ul w v = elim (Bool-cases ul.finished) [
    | inl ended ↦ rw (stopped ul w ended) (
        subst (λ b. Resent ul w b record { code = negsuc 0; ul = ul; world = w }) (sym ended)
          (refl, refl))
    | inr run ↦
        rw (running ul w run)
          (subst (λ b. Resent ul w b (go_on ul w)) (sym run) (running_lem ul w v run))
  ]
