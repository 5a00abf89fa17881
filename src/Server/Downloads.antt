-- ===== src/Server/Downloads.antt =====
-- The downloads of the whole server: which peer downloads which chunk, and the two counters.
use peer_server.Base.{ℕ, ◌<◌, ◌≡◌, sym, ap, ◌∙◌, Bool, true, not}
use peer_server.Base.Int.{pos}
use peer_server.Chunklist.{ChunkState, fetching, is_fetched}
use peer_server.Server.{PeerServer}
use peer_server.Server.Counts.{count_if, count_if_cong}

abbrev pub down : PeerServer → ℕ → Bool
down s i = (s.peers i).is_downloading

abbrev pub index : PeerServer → ℕ → ℕ
index s i = (s.peers i).dl.get_index

abbrev pub state : PeerServer → ℕ → ChunkState
state s c = (s.getchunks.chunks c).state

abbrev pub missing : PeerServer → ℕ → Bool
missing s c = not (is_fetched (state s c))

-- The invariant: `dl_num` counts the peers that download, `dl_remain` the chunks that are not
-- fetched; a peer that downloads works on a chunk of the list that is marked as being fetched, no
-- two peers work on one chunk, and no chunk is so marked without a peer that works on it.
pub record IsConsistent (s : PeerServer) : Type 0 where
  pub active : s.dl_num ≡ pos (count_if (down s) s.peer_count)
  pub remain : s.dl_remain ≡ pos (count_if (missing s) s.getchunks.count)
  pub claimed :
      (i : ℕ)
      → i < s.peer_count
      → down s i ≡ true
      → (index s i < s.getchunks.count) × (state s (index s i) ≡ fetching)
  pub apart :
      (i j : ℕ)
      → i < s.peer_count
      → j < s.peer_count
      → down s i ≡ true
      → down s j ≡ true
      → index s i ≡ index s j
      → i ≡ j
  pub owned :
      (c : ℕ)
      → c < s.getchunks.count
      → state s c ≡ fetching
      → (i : ℕ) × (i < s.peer_count) × (down s i ≡ true) × (index s i ≡ c)

-- A step that touches none of this.
pub record Same (s t : PeerServer) : Type 0 where
  pub peers_eq : t.peer_count ≡ s.peer_count
  pub chunks_eq : t.getchunks.count ≡ s.getchunks.count
  pub active_eq : t.dl_num ≡ s.dl_num
  pub remain_eq : t.dl_remain ≡ s.dl_remain
  pub down_eq : (j : ℕ) → down t j ≡ down s j
  pub index_eq : (j : ℕ) → down s j ≡ true → index t j ≡ index s j
  pub state_eq : (c : ℕ) → state t c ≡ state s c

pub Same-IsConsistent : {s t : PeerServer} → Same s t → IsConsistent s → IsConsistent t
Same-IsConsistent {s} {t} e v = record {
  active =
      e.active_eq
      ∙ v.active
      ∙ rw e.peers_eq (ap pos (sym (count_if_cong (down t) (down s) s.peer_count e.down_eq)));
  remain =
      e.remain_eq
      ∙ v.remain
      ∙ rw e.chunks_eq (
          ap pos (
            sym
              (count_if_cong (missing t) (missing s) s.getchunks.count (λ c. rw (e.state_eq c)))));
  claimed = λ i h d.
      let d' = sym (e.down_eq i) ∙ d in
      let k = v.claimed i (rw e.peers_eq at h) d' in
      rw (e.chunks_eq, e.index_eq i d', e.state_eq) k;
  apart = λ i j h k d f x.
      let d' = sym (e.down_eq i) ∙ d in
      let f' = sym (e.down_eq j) ∙ f in
      v.apart i j (rw e.peers_eq at h) (rw e.peers_eq at k) d' f'
        (sym (e.index_eq i d') ∙ x ∙ e.index_eq j f');
  owned = λ c h f.
      let (i, a, b, x) = v.owned c (rw e.chunks_eq at h) (sym (e.state_eq c) ∙ f) in
      (i, rw e.peers_eq a, e.down_eq i ∙ b, e.index_eq i b ∙ x);
}
