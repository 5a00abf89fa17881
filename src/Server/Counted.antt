-- ===== src/Server/Counted.antt =====
-- The counter of the uploads: which functions change a flag, and the counter with it.
use peer_server.Base.{
  ℕ, ◌+◌, ◌≤◌, ◌<◌, ◌≡◌, ◌≢◌, refl, ap, ◌∙◌, Bool, true, false, arith, if_ind, update,
}
use peer_server.Base.Int.{ℤ, pos, succ, pred, pos_part}
use peer_server.Platform.{Platform}
use peer_server.Download.{Download}
use peer_server.Server.{Peer, PeerServer, set_peer, set_state, die}
use peer_server.Server.Counts.{count_if, count_if_change, count_if_cong, one_if}
use peer_server.Server.Transfer.{finish_upload, kill_download}
use peer_server.Server.Refresh.{die_at, abort_download, abort_upload}
use peer_server.Server.Handle.{set_uploading}
use peer_server.Server.Uploads.{up, IsCounted, Spares, kill_download-Spares}

pub Spares-IsCounted :
    {n : ℕ} {m : ℤ} {s t : PeerServer} → Spares s t → IsCounted n m s → IsCounted n m t
Spares-IsCounted {n} {m} {s} {t} e v =
    let same = count_if_cong (up t) (up s) n e.up_eq in
    record {
      size = e.size ∙ v.size;
      conn = e.conn ∙ v.conn;
      active = e.active ∙ v.active ∙ rw same refl;
      limited = rw same v.limited;
    }

-- What the flag of one peer means for the counter.
abbrev pub step : Bool → Bool → ℤ → ℤ
step true false k = pred k
step false true k = succ k
step _ _ k = k

-- A step that sets the flag of peer `i` to `b`.
pub record Sets (s t : PeerServer) (i : ℕ) (b : Bool) : Type 0 where
  pub size : t.peer_count ≡ s.peer_count
  pub conn : t.max_conn ≡ s.max_conn
  pub active : t.ul_num ≡ step (up s i) b s.ul_num
  pub here : up t i ≡ b
  pub others : (j : ℕ) → j ≢ i → up t j ≡ up s j

step-count : (a b : Bool) (k j : ℕ) → j + one_if a ≡ k + one_if b → step a b (pos k) ≡ pos j
step-count true true k j h = ground arith
step-count true false k j h = ground arith
step-count false true k j h = ground arith
step-count false false k j h = ground arith

step-limit :
    (a b : Bool) (k j p : ℕ)
    → j + one_if a ≡ k + one_if b
    → k ≤ p
    → (b ≡ true → a ≡ false → k < p)
    → j ≤ p
step-limit true true k j p h l r = omega arith
step-limit true false k j p h l r = omega arith
step-limit false true k j p h l r = omega (arith, r refl refl)
step-limit false false k j p h l r = omega arith

pub Sets-IsCounted :
    {n : ℕ} {m : ℤ} {s t : PeerServer} {i : ℕ} {b : Bool}
    → Sets s t i b
    → i < n
    → (b ≡ true → up s i ≡ false → count_if (up s) n < pos_part m)
    → IsCounted n m s
    → IsCounted n m t
Sets-IsCounted {n} {m} {s} {t} {i} {b} e h room v =
    let c : count_if (up t) n + one_if (up s i) ≡ count_if (up s) n + one_if b =
      rw e.here at (count_if_change (up t) (up s) i n h e.others) in
    record {
      size = e.size ∙ v.size;
      conn = e.conn ∙ v.conn;
      active = e.active ∙ rw v.active (step-count (up s i) b _ _ c);
      limited = step-limit (up s i) b _ _ (pos_part m) c v.limited room;
    }

-- What comes before a step, and after it.
pub before-Sets : {s t u : PeerServer} {i : ℕ} {b : Bool} → Spares s t → Sets t u i b → Sets s u i b
before-Sets {s} {t} {u} {i} {b} a c = record {
  size = c.size ∙ a.size;
  conn = c.conn ∙ a.conn;
  active = c.active ∙ rw (a.up_eq i, a.active) refl;
  here = c.here;
  others = λ j h. c.others j h ∙ a.up_eq j;
}

-- A peer's record is replaced by one that does not upload.
record Replaced (s t : PeerServer) (i : ℕ) : Type 0 where
  size : t.peer_count ≡ s.peer_count
  conn : t.max_conn ≡ s.max_conn
  peer : Peer
  idle : peer.is_uploading ≡ false
  peers : (j : ℕ) → t.peers j ≡ update s.peers i peer j

Replaced-Sets :
    {s t : PeerServer} {i : ℕ}
    → Replaced s t i
    → t.ul_num ≡ step (up s i) false s.ul_num
    → Sets s t i false
Replaced-Sets {s} {t} {i} r e = record {
  size = r.size;
  conn = r.conn;
  active = e;
  here = ap (λ p. p.is_uploading) (r.peers i) ∙ ground (arith, r.idle);
  others = λ j h. ap (λ p. p.is_uploading) (r.peers j) ∙ ground arith;
}

die_at-Sets : (s : PeerServer) (i : ℕ) → up s i ≡ false → Sets s (die_at s i) i false
unfolding die_at die set_peer
die_at-Sets s i e =
    Replaced-Sets
      (record { size = refl; conn = refl; peer = die (s.peers i); idle = refl; peers = λ j. refl })
      (rw e refl)

-- The end of an upload.
stop-Sets :
    (plat : Platform) (s : PeerServer) (i : ℕ)
    → up s i ≡ true
    → Sets s (die_at (finish_upload plat s i) i) i false
unfolding die_at die set_peer finish_upload
stop-Sets plat s i e =
    Replaced-Sets
      (record { size = refl; conn = refl; peer = die (s.peers i); idle = refl; peers = λ j. refl })
      (rw e refl)

stop_both-Sets :
    (plat : Platform) (s : PeerServer) (i : ℕ) (dl : Download)
    → up s i ≡ true
    → Sets s (die_at (kill_download (finish_upload plat s i) dl) i) i false
unfolding die_at die set_peer finish_upload kill_download set_state
stop_both-Sets plat s i dl e =
    Replaced-Sets
      (record { size = refl; conn = refl; peer = die (s.peers i); idle = refl; peers = λ j. refl })
      (rw e refl)

pub finish-Sets :
    (plat : Platform) (s : PeerServer) (i : ℕ)
    → up s i ≡ true
    → Sets s (set_uploading (finish_upload plat s i) i false) i false
unfolding set_uploading set_peer finish_upload
finish-Sets plat s i e =
    Replaced-Sets
      (record {
        size = refl;
        conn = refl;
        peer = record (s.peers i) { is_uploading = false };
        idle = refl;
        peers = λ j. refl;
      })
      (rw e refl)

pub abort_download-Sets :
    (plat : Platform) (s : PeerServer) (i : ℕ) → Sets s (abort_download plat s i) i false
unfolding abort_download
abort_download-Sets plat s i =
    let killed = kill_download-Spares s (s.peers i).dl in
    if_ind (λ t. Sets s t i false) (up s i) _ _
      (λ e. before-Sets killed (stop-Sets plat _ i (killed.up_eq i ∙ e)))
      (λ e. before-Sets killed (die_at-Sets _ i (killed.up_eq i ∙ e)))

pub abort_upload-Sets :
    (plat : Platform) (s : PeerServer) (i : ℕ)
    → up s i ≡ true
    → Sets s (abort_upload plat s i) i false
unfolding abort_upload
abort_upload-Sets plat s i e =
    if_ind (λ t. Sets s t i false) (s.peers i).is_downloading _ _ (λ d. stop_both-Sets plat s i _ e)
      (λ d. stop-Sets plat s i e)
