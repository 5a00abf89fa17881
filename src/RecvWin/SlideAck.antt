-- ===== src/RecvWin/SlideAck.antt =====
-- The receive window as the set of the sequence numbers that it holds: what each function of
-- recv_win.c does to that set.
use native.Mathlib.Nat.{add-zero}
use peer_server.Base.{
  ℕ, zero, suc, ◌+◌, ◌-◌, ◌%◌, ◌^◌, ◌≤◌, ◌<◌, ◌≡◌, refl, ◌⊎◌, inl, inr, Bool, true, false, ◌&&◌,
  ◌||◌, arith, ltb, leb, ◌==◌, if◌then◌else◌, Bool-cases, add32, ap,
}
use peer_server.RecvWin.{
  Bm, bm_isset, bm_unset, RecvWin, Slide, seq_in_win, init_recvwin, seq_fit_in, seq_exist_in,
  recvwin_mark, slide_loop, recvwin_slideack,
}
use peer_server.RecvWin.Bitmap.{isset-clr, isset-set, isset-unset}

-- Nothing wraps while the window ends below 2 ^ 32.
pub record IsValid (rwin : RecvWin) : Type 0 where
  pub front_in : rwin.front < 1024
  pub small : rwin.next_seq + 2048 ≤ 2 ^ 32

-- `seq` is in the window and marked.
abbrev pub holds : RecvWin → ℕ → Bool
holds rwin seq = seq_fit_in rwin seq && seq_exist_in rwin seq

-- The bit of the sequence number `t` places into the window.
abbrev place : RecvWin → ℕ → ℕ
place rwin t = (t + rwin.front) % 1024

seq_in_win-place :
    {rwin : RecvWin} (t : ℕ)
    → IsValid rwin
    → t ≤ 1024
    → seq_in_win (rwin.next_seq + t) rwin ≡ place rwin t
unfolding seq_in_win
seq_in_win-place t v h = omega arith

init-IsValid : IsValid init_recvwin
unfolding init_recvwin
init-IsValid = omega arith

-- A fresh window holds nothing and expects 1.
pub init-holds : (seq : ℕ) → holds init_recvwin seq ≡ false
unfolding init_recvwin seq_fit_in seq_exist_in
init-holds seq = ground (arith, isset-clr (seq_in_win seq init_recvwin))

-- Distinct sequence numbers of the window have distinct bits.
seq_in_win-inj :
    {rwin : RecvWin} (s t : ℕ)
    → IsValid rwin
    → seq_fit_in rwin s ≡ true
    → seq_fit_in rwin t ≡ true
    → (seq_in_win t rwin == seq_in_win s rwin) ≡ (t == s)
unfolding seq_in_win seq_fit_in
seq_in_win-inj s t v hs ht = ground arith

-- While nothing wraps, a mark of a sequence number in the window adds it to the set of those held,
-- and adds or drops no other.
pub mark-holds :
    {rwin : RecvWin} (seq s : ℕ)
    → IsValid rwin
    → seq_fit_in rwin seq ≡ true
    → holds (recvwin_mark rwin seq) s ≡ (s == seq || holds rwin s)
unfolding recvwin_mark seq_exist_in seq_fit_in seq_in_win
mark-holds {rwin} seq s v h = ground (
  arith,
  isset-set rwin.bm (seq_in_win seq rwin) (seq_in_win s rwin),
  seq_in_win-inj {rwin = rwin} seq s v h,
)

-- What the loop of `recvwin_slideack` has done, started at place `n`.
record Slid (rwin : RecvWin) (bm : Bm) (n : ℕ) (out : Slide) : Type 0 where
  lower : n ≤ out.size
  upper : out.size ≤ 1024
  run : (t : ℕ) → n ≤ t → t < out.size → bm_isset bm (place rwin t) ≡ true
  stop : (out.size ≡ 1024) ⊎ (bm_isset bm (place rwin out.size) ≡ false)
  bits :
      (t : ℕ)
      → t < 1024
      → bm_isset out.bits (place rwin t)
        ≡ (bm_isset bm (place rwin t) && (ltb t n || leb out.size t))

place-inj :
    (rwin : RecvWin) (s t : ℕ) → s < 1024 → t < 1024 → (place rwin t == place rwin s) ≡ (t == s)
place-inj rwin s t hs ht = ground arith

-- One round of the loop at a set bit.
module _ (rwin : RecvWin) (bm : Bm) (n : ℕ) (out : Slide) (h : n < 1024)
    (here : bm_isset bm (place rwin n) ≡ true)
    (later : Slid rwin (bm_unset bm (place rwin n)) (n + 1) out) where
  unset_later :
      (t : ℕ)
      → t < 1024
      → bm_isset (bm_unset bm (place rwin n)) (place rwin t)
        ≡ (if t == n then false else bm_isset bm (place rwin t))
  unset_later t k = ground (
    arith,
    isset-unset bm (place rwin n) (place rwin t),
    place-inj rwin n t h k,
    ap (λ i. bm_isset bm (place rwin i)) {x = t} {y = n},
  )

  Slid-step : Slid rwin bm n out
  Slid-step = record {
    lower = omega (arith, later.lower);
    upper = later.upper;
    run = λ t a b. ground (arith, later.run t, unset_later t (omega (arith, later.upper)));
    stop = ground (arith, later.stop, later.lower, later.upper, unset_later out.size);
    bits = λ t k. ground (arith, later.bits t k, unset_later t k, later.lower);
  }

slide_loop-Slid :
    {rwin : RecvWin} (left : ℕ) (bm : Bm) (n : ℕ)
    → IsValid rwin
    → n + left ≡ 1024
    → Slid rwin bm n (slide_loop left rwin bm (rwin.next_seq + n) n)
unfolding slide_loop
slide_loop-Slid zero bm n v e = record {
  lower = omega arith;
  upper = omega arith;
  run = λ t h k. absurd (omega arith);
  stop = inl (omega arith);
  bits = λ t h. ground arith;
}
slide_loop-Slid {rwin} (suc left) bm n v e =
    rw (seq_in_win-place {rwin = rwin} n v (omega arith), next)
      (elim (Bool-cases (bm_isset bm (place rwin n))) [
        | inl here ↦ rw here (
            Slid-step rwin bm n _ (omega arith) here
              (slide_loop-Slid left _ (n + 1) v (omega arith)))
        | inr gap ↦ rw gap (record {
          lower = omega arith;
          upper = omega arith;
          run = λ t h k. absurd (omega arith);
          stop = inr gap;
          bits = λ t h. ground arith;
        })
      ])
  where
    next : add32 (rwin.next_seq + n) 1 ≡ rwin.next_seq + (n + 1)
    next = omega arith

-- What `recvwin_slideack` does: it moves the start of the window past all that was received in
-- order, stops at the first sequence number that is missing, and drops nothing that lies beyond.
pub record Acked (w r : RecvWin) : Type 0 where
  pub front_in : r.front < 1024
  pub lower : w.next_seq ≤ r.next_seq
  pub upper : r.next_seq ≤ w.next_seq + 1024
  pub run : (s : ℕ) → w.next_seq ≤ s → s < r.next_seq → holds w s ≡ true
  pub stop : holds w r.next_seq ≡ false
  pub rest : (s : ℕ) → holds r s ≡ (holds w s && leb r.next_seq s)

-- The window that the function builds from the loop's result.
abbrev slid : RecvWin → Slide → RecvWin
slid w out = record {
  bm = out.bits;
  front = seq_in_win (add32 w.next_seq out.size) w;
  next_seq = add32 w.next_seq out.size;
}

seq_in_win-lt : (s : ℕ) (w : RecvWin) → seq_in_win s w < 1024
unfolding seq_in_win
seq_in_win-lt s w = omega arith

seq_in_win-slid :
    {w : RecvWin} (out : Slide) (s : ℕ)
    → IsValid w
    → out.size ≤ 1024
    → w.next_seq + out.size ≤ s
    → s < w.next_seq + out.size + 1024
    → seq_in_win s (slid w out) ≡ place w ((s - w.next_seq) % 1024)
unfolding seq_in_win
seq_in_win-slid out s v a b c = omega arith

seq_in_win-start :
    {w : RecvWin} (s : ℕ)
    → IsValid w
    → w.next_seq ≤ s
    → s < w.next_seq + 1024
    → seq_in_win s w ≡ place w (s - w.next_seq)
unfolding seq_in_win
seq_in_win-start s v a b = omega arith

module _ {w : RecvWin} (out : Slide) (v : IsValid w) (d : Slid w w.bm 0 out) where
  slid-run : (s : ℕ) → w.next_seq ≤ s → s < w.next_seq + out.size → holds w s ≡ true
  unfolding seq_fit_in seq_exist_in
  slid-run s a b = ground (
    arith,
    d.upper,
    d.run (s - w.next_seq) (omega arith) (omega (arith, d.upper)),
    seq_in_win-start {w = w} s v,
  )

  slid-stop : holds w (w.next_seq + out.size) ≡ false
  unfolding seq_fit_in seq_exist_in
  slid-stop = ground (arith, d.upper, d.stop, seq_in_win-place {rwin = w} out.size v d.upper)

  slid-rest : (s : ℕ) → holds (slid w out) s ≡ (holds w s && leb (slid w out).next_seq s)
  unfolding seq_fit_in seq_exist_in
  slid-rest s = ground (
    arith,
    d.upper,
    d.bits ((s - w.next_seq) % 1024) (omega arith),
    seq_in_win-slid {w = w} out s v,
    seq_in_win-start {w = w} s v,
  )

  slid-Acked : Acked w (slid w out)
  slid-Acked =
      let e : add32 w.next_seq out.size ≡ w.next_seq + out.size = omega (arith, d.upper) in
      record {
        front_in = seq_in_win-lt (add32 w.next_seq out.size) w;
        lower = omega arith;
        upper = omega (arith, d.upper);
        run = λ s a b. slid-run s a (omega arith);
        stop = rw e slid-stop;
        rest = slid-rest;
      }

-- While nothing wraps, `recvwin_slideack` moves the start of the window past exactly the run of
-- sequence numbers received in order, keeps those held beyond the gap and drops all others.
pub slideack-Acked : (w : RecvWin) → IsValid w → Acked w (recvwin_slideack w)
unfolding recvwin_slideack
slideack-Acked w v =
    slid-Acked (slide_loop 1024 w w.bm w.next_seq 0) v
      (rw add-zero at (slide_loop-Slid {rwin = w} 1024 w.bm 0 v refl))
