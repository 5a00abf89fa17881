-- ===== src/Server/Silent.antt =====
-- A peer that goes silent during a download is given up after six timeouts.
use peer_server.Base.{
  Bool-cases, inl, inr, if_ind, ap, ℕ, zero, suc, ◌+◌, ◌≤◌, ◌<◌, ◌≡◌, refl, ◌∙◌, Bool, true, false,
  ◌&&◌, arith, ltb, ◌==◌, sub32, if◌then◌else◌, update,
}
use native.Mathlib.Nat.{add-zero}
use peer_server.Base.Int.{pos, ltb_ℤ}
use peer_server.Platform.{Platform, World, emit, tick}
use peer_server.Util.{milliseconds, get_timestamp_now}
use peer_server.Download.{
  Download, Received, get_ack, send_ack, ack_of, ack_again, dl_loss, dl_check_timeout,
}
use peer_server.Server.{PeerServer, set_peer, die}
use peer_server.Server.Transfer.{kill_download}
use peer_server.Server.Refresh.{
  abort_download, die_at, put_download, time_download, time_upload, time_peer,
}

-- What repeated acks leave alone.
record Again (dl : Download) (w : World) (out : Download) (w' : World) : Type 0 where
  cnt : out.timeout_cnt ≡ dl.timeout_cnt
  finished : out.finished ≡ dl.finished
  calls : w'.calls ≡ w.calls

ack_again-Again :
    (n : ℕ) (dl : Download) (w : World) → let r = ack_again n dl w in Again dl w r.0 r.1
unfolding ack_again get_ack send_ack emit
ack_again-Again zero dl w = record { cnt = refl; finished = refl; calls = refl }
ack_again-Again (suc n) dl w =
    let a =
      ack_again-Again n (get_ack dl) (send_ack (get_ack dl).p_index (ack_of (get_ack dl)) w) in
    record { cnt = a.cnt; finished = a.finished; calls = a.calls }

update_at {ℓ} : {A : Type ℓ} (f : ℕ → A) (i : ℕ) (v : A) → update f i v i ≡ v
update_at f i v = let e : (i == i) ≡ true = ground arith in rw e refl

module _ (plat : Platform) where
  abbrev clock : ℕ → ℕ
  clock n = milliseconds (plat.gettimeofday n)

  -- A timeout that is due.
  record Counted (dl : Download) (w : World) (r : Received) : Type 0 where
    code : r.code ≡ pos (dl.timeout_cnt + 1)
    cnt : r.dl.timeout_cnt ≡ dl.timeout_cnt + 1
    finished : r.dl.finished ≡ false
    ts : r.dl.ts ≡ clock (w.calls + 1)
    calls : r.world.calls ≡ w.calls + 2

  due-Counted :
      (dl : Download) (w : World)
      → dl.finished ≡ false
      → 5000 ≤ sub32 (clock w.calls) dl.ts
      → Counted dl w (dl_check_timeout plat dl w)
  unfolding dl_check_timeout dl_loss get_timestamp_now tick
  due-Counted dl w run late =
      let a = ack_again-Again 3 (record dl { timeout_cnt = dl.timeout_cnt + 1 }) (tick w) in
      if_ind (Counted dl w) dl.finished _ _ (λ e. cc)
        (λ e.
          if_ind (Counted dl w) (dl.est.rtt == 0 && ltb (sub32 (clock w.calls) dl.ts) 5000) _ _
            (λ f. ground arith)
            (λ f.
              if_ind (Counted dl w) (ltb (sub32 (clock w.calls) dl.ts) 2500) _ _ (λ g. ground arith)
                (λ g. record {
                  code = ap pos a.cnt;
                  cnt = a.cnt;
                  finished = a.finished ∙ run;
                  ts = ap clock a.calls;
                  calls = omega (arith, a.calls);
                })))

  -- A peer that downloads and does not upload, with `cnt` timeouts so far.
  pub record Waits (cnt : ℕ) (s : PeerServer) (i : ℕ) : Type 0 where
    pub alive : (s.peers i).is_alive ≡ true
    pub downloads : (s.peers i).is_downloading ≡ true
    pub uploads : (s.peers i).is_uploading ≡ false
    pub unfinished : (s.peers i).dl.finished ≡ false
    pub count : (s.peers i).dl.timeout_cnt ≡ cnt

  -- At the next call of the clock the last sign of life is five seconds old or more.
  pub record Due (s : PeerServer) (i : ℕ) : Type 0 where
    pub late : 5000 ≤ sub32 (clock s.world.calls) (s.peers i).dl.ts

  -- A peer that has been given up.
  pub record GivenUp (s : PeerServer) (i : ℕ) : Type 0 where
    pub alive : (s.peers i).is_alive ≡ false
    pub downloads : (s.peers i).is_downloading ≡ false
    pub uploads : (s.peers i).is_uploading ≡ false

  die_at-GivenUp : (u : PeerServer) (i : ℕ) → GivenUp (die_at u i) i
  unfolding die_at set_peer die
  die_at-GivenUp u i = record {
    alive = ap (λ p. p.is_alive) (update_at u.peers i _);
    downloads = ap (λ p. p.is_downloading) (update_at u.peers i _);
    uploads = ap (λ p. p.is_uploading) (update_at u.peers i _);
  }

  module _ (cnt : ℕ) (s : PeerServer) (i : ℕ) (h : Waits cnt s i) (due : Due s i) where
    abbrev r : Received
    r = dl_check_timeout plat (s.peers i).dl s.world

    counted : Counted (s.peers i).dl s.world r
    counted = due-Counted (s.peers i).dl s.world h.unfinished due.late

    abbrev t : PeerServer
    t = put_download s i r

    put_peer : t.peers i ≡ record (s.peers i) { dl = r.dl }
    unfolding put_download set_peer
    put_peer = update_at s.peers i _

    checked-Waits : Waits (cnt + 1) t i
    checked-Waits = record {
      alive = ap (λ p. p.is_alive) put_peer ∙ h.alive;
      downloads = ap (λ p. p.is_downloading) put_peer ∙ h.downloads;
      uploads = ap (λ p. p.is_uploading) put_peer ∙ h.uploads;
      unfinished = ap (λ p. p.dl.finished) put_peer ∙ counted.finished;
      count = ap (λ p. p.dl.timeout_cnt) put_peer ∙ counted.cnt ∙ ap (λ n. n + 1) h.count;
    }

    abort-GivenUp : GivenUp (abort_download plat t i) i
    unfolding abort_download
    abort-GivenUp =
        let up : (t.peers i).is_uploading ≡ false = rw put_peer h.uploads in
        rw up (die_at-GivenUp (kill_download t (t.peers i).dl) i)

    timed :
        (b : Bool)
        → ltb_ℤ (pos 5) r.code ≡ b
        → time_peer plat s i ≡ time_upload plat (if b then abort_download plat t i else t) i
    unfolding time_peer time_download
    timed b e = rw (h.alive, h.downloads, e) refl

    over : ltb_ℤ (pos 5) r.code ≡ ltb 5 (cnt + 1)
    over = rw (counted.code, h.count) (ground arith)

    idle : (u : PeerServer) → (u.peers i).is_uploading ≡ false → time_upload plat u i ≡ u
    unfolding time_upload
    idle u e = rw e refl

    time_peer-Waits : cnt < 5 → Waits (cnt + 1) (time_peer plat s i) i
    time_peer-Waits k =
        rw (timed false (over ∙ ground arith), idle t checked-Waits.uploads) checked-Waits

    time_peer-GivenUp : 5 ≤ cnt → GivenUp (time_peer plat s i) i
    time_peer-GivenUp k =
        rw (timed true (over ∙ ground arith), idle (abort_download plat t i) abort-GivenUp.uploads)
          abort-GivenUp

  -- `n` checks of the peer by the timer, each when a timeout is due; between them anything may
  -- happen to the rest of the server and to the clock, but nothing to the peer.
  pub data Rounds (i : ℕ) : ℕ → PeerServer → PeerServer → Type 0 where
    done : {s : PeerServer} → Rounds i 0 s s
    check :
        {n : ℕ} {s u t : PeerServer}
        → Due s i
        → u.peers i ≡ (time_peer plat s i).peers i
        → Rounds i n u t
        → Rounds i (suc n) s t

  Waits-later :
      {cnt : ℕ} {s u : PeerServer} (i : ℕ) → u.peers i ≡ s.peers i → Waits cnt s i → Waits cnt u i
  Waits-later i e h = record {
    alive = ap (λ p. p.is_alive) e ∙ h.alive;
    downloads = ap (λ p. p.is_downloading) e ∙ h.downloads;
    uploads = ap (λ p. p.is_uploading) e ∙ h.uploads;
    unfinished = ap (λ p. p.dl.finished) e ∙ h.unfinished;
    count = ap (λ p. p.dl.timeout_cnt) e ∙ h.count;
  }

  GivenUp-later : {s u : PeerServer} (i : ℕ) → u.peers i ≡ s.peers i → GivenUp s i → GivenUp u i
  GivenUp-later i e h = record {
    alive = ap (λ p. p.is_alive) e ∙ h.alive;
    downloads = ap (λ p. p.is_downloading) e ∙ h.downloads;
    uploads = ap (λ p. p.is_uploading) e ∙ h.uploads;
  }

  module _ (i : ℕ) where
    -- A peer downloads and does not upload, and its download is unfinished with `cnt` timeouts so far,
    -- at most 5; then the timer checks it `n` times, each time five seconds or more after the last
    -- packet or timeout, and nothing else happens to the peer. If `cnt + n` is 5 or less, it still
    -- waits, with as many timeouts; if it is 6, the peer has been given up, neither alive nor
    -- downloading.
    pub silent_peer_ends :
        {n : ℕ} {s t : PeerServer} (cnt : ℕ)
        → Rounds i n s t
        → cnt ≤ 5
        → Waits cnt s i
        → (cnt + n ≤ 5 → Waits (cnt + n) t i) × (cnt + n ≡ 6 → GivenUp t i)
    silent_peer_ends cnt done k h = (λ l. rw (add-zero cnt) h, λ l. absurd (omega arith))
    silent_peer_ends cnt (check {n} {s} {u} {t} due e rest) k h = elim (Bool-cases (ltb cnt 5)) [
      | inl b ↦
          let low : cnt < 5 = ground arith in
          let waits = Waits-later i e (time_peer-Waits cnt s i h due low) in
          let r = silent_peer_ends (cnt + 1) rest (omega arith) waits in
          let sum : cnt + suc n ≡ cnt + 1 + n = omega arith in
          (λ l. rw sum (r.0 (omega arith)), λ l. r.1 (omega arith))
      | inr b ↦
          let high : 5 ≤ cnt = ground arith in
          let given = GivenUp-later i e (time_peer-GivenUp cnt s i h due high) in
          (λ l. absurd (omega arith), λ l. last rest (omega arith) given)
    ]
      where
        last : {m : ℕ} {u t : PeerServer} → Rounds i m u t → m ≡ 0 → GivenUp u i → GivenUp t i
        last done z g = g
        last (check d f r) z g = absurd (omega arith)
