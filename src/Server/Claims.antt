-- ===== src/Server/Claims.antt =====
-- The two steps that change who downloads what: a peer takes up an unfetched chunk, and a peer lets
-- go of its chunk.
use peer_server.Base.{ℕ, suc, ◌+◌, ◌<◌, ◌≡◌, ◌≢◌, ap, ◌∙◌, true, false, arith, ◌==◌, if◌then◌else◌}
use native.Mathlib.Decide.{ℕ_discrete}
use peer_server.Base.Int.{succ, pred}
use peer_server.Chunklist.{ChunkState, unfetched, fetching, is_fetched}
use peer_server.Server.{PeerServer}
use peer_server.Server.Counts.{count_if, one_if, count_if_cong, count_if_change}
use peer_server.Server.Downloads.{IsConsistent, down, index, state, missing}

-- Peer `i` takes up chunk `c`.
pub record Claim (s t : PeerServer) (i c : ℕ) : Type 0 where
  pub here : i < s.peer_count
  pub idle : down s i ≡ false
  pub there : c < s.getchunks.count
  pub free : state s c ≡ unfetched
  pub peers_eq : t.peer_count ≡ s.peer_count
  pub chunks_eq : t.getchunks.count ≡ s.getchunks.count
  pub active_eq : t.dl_num ≡ succ s.dl_num
  pub remain_eq : t.dl_remain ≡ s.dl_remain
  pub down_eq : (j : ℕ) → down t j ≡ (if j == i then true else down s j)
  pub index_eq : (j : ℕ) → index t j ≡ (if j == i then c else index s j)
  pub state_eq : (d : ℕ) → state t d ≡ (if d == c then fetching else state s d)

-- Peer `i` lets go of its chunk, which becomes `st`.
pub record Release (s t : PeerServer) (i : ℕ) (st : ChunkState) : Type 0 where
  pub here : i < s.peer_count
  pub busy : down s i ≡ true
  pub ends : st ≢ fetching
  pub peers_eq : t.peer_count ≡ s.peer_count
  pub chunks_eq : t.getchunks.count ≡ s.getchunks.count
  pub active_eq : t.dl_num ≡ pred s.dl_num
  pub remain_eq : t.dl_remain ≡ (if is_fetched st then pred s.dl_remain else s.dl_remain)
  pub down_eq : (j : ℕ) → down t j ≡ (if j == i then false else down s j)
  pub index_eq : (j : ℕ) → j ≢ i → index t j ≡ index s j
  pub state_eq : (d : ℕ) → state t d ≡ (if d == index s i then st else state s d)

module _ {s t : PeerServer} {i c : ℕ} (e : Claim s t i c) (v : IsConsistent s) where
  claim-active : count_if (down t) s.peer_count ≡ suc (count_if (down s) s.peer_count)
  claim-active = ground (
    arith,
    count_if_change (down s) (down t) i s.peer_count e.here λ j ne. ground (arith, e.down_eq j),
    e.down_eq i,
    e.idle,
  )

  claim-missing : count_if (missing t) s.getchunks.count ≡ count_if (missing s) s.getchunks.count
  claim-missing = count_if_cong (missing t) (missing s) s.getchunks.count λ d.
      elim (ℕ_discrete d c) [
        | yes q ↦ rw (e.state_eq d, q, e.free) (ground arith)
        | no ne ↦ rw (e.state_eq d) (ground arith)
      ]

  pub Claim-IsConsistent : IsConsistent t
  Claim-IsConsistent = record {
    active = e.active_eq ∙ rw (v.active, e.peers_eq, claim-active);
    remain = e.remain_eq ∙ rw (v.remain, e.chunks_eq, claim-missing);
    claimed = λ j h d. ground (
      arith,
      e.index_eq j,
      e.state_eq (index t j),
      e.there,
      e.chunks_eq,
      e.peers_eq,
      e.down_eq j,
      v.claimed j,
    );
    apart = λ j k h l d f x. ground (
      arith,
      e.peers_eq,
      e.free,
      e.down_eq j,
      e.down_eq k,
      e.index_eq j,
      e.index_eq k,
      v.claimed j,
      v.claimed k,
      v.apart j k,
    );
    owned = λ d h f. elim (ℕ_discrete d c) [
      | yes q ↦ (i, rw e.peers_eq e.here, ground (arith, e.down_eq i), ground (arith, e.index_eq i))
      | no ne ↦
          let (j, a, b, x) = v.owned d (rw e.chunks_eq at h) (ground (arith, e.state_eq d)) in
          (j, rw e.peers_eq a, ground (arith, e.down_eq j), ground (arith, e.index_eq j, e.idle))
    ];
  }

module _ {s t : PeerServer} {i : ℕ} {st : ChunkState} where
  module _ (e : Release s t i st) (v : IsConsistent s) where
    held : (index s i < s.getchunks.count) × (state s (index s i) ≡ fetching)
    held = v.claimed i e.here e.busy

    release-active : count_if (down s) s.peer_count ≡ suc (count_if (down t) s.peer_count)
    release-active = ground (
      arith,
      count_if_change (down s) (down t) i s.peer_count e.here λ j ne. ground (arith, e.down_eq j),
      e.down_eq i,
      e.busy,
    )

    release-missing :
        count_if (missing s) s.getchunks.count
        ≡ count_if (missing t) s.getchunks.count + one_if (is_fetched st)
    release-missing = ground (
      arith,
      count_if_change (missing s) (missing t) (index s i) s.getchunks.count held.0
          λ d ne. ground (arith, e.state_eq d),
      e.state_eq (index s i),
      held.1,
    )

    not_mine : (j d : ℕ) → index s j ≡ d → state t d ≡ fetching → j ≢ i
    not_mine j d x f q = ground (arith, e.state_eq d, e.ends, ap (index s) q)

    pub Release-IsConsistent : IsConsistent t
    Release-IsConsistent = record {
      active = e.active_eq ∙ rw (v.active, e.peers_eq, release-active);
      remain =
          ground
            (arith, e.remain_eq, v.remain, release-missing, ap (count_if (missing t)) e.chunks_eq);
      claimed = λ j h d. ground (
        arith,
        e.peers_eq,
        e.chunks_eq,
        e.down_eq j,
        e.index_eq j,
        e.state_eq (index t j),
        v.claimed j,
        v.apart j i,
        e.here,
        e.busy,
      );
      apart = λ j k h l d f x.
          ground
            (arith, e.peers_eq, e.down_eq j, e.down_eq k, e.index_eq j, e.index_eq k, v.apart j k);
      owned = λ d h f.
          let (j, a, b, x) =
            v.owned d (rw e.chunks_eq at h) (ground (arith, e.state_eq d, e.ends)) in
          (
            j,
            rw e.peers_eq a,
            ground (arith, e.down_eq j, e.state_eq d, e.ends),
            e.index_eq j (not_mine j d x f) ∙ x,
          );
    }
