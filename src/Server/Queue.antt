-- ===== src/Server/Queue.antt =====
-- What `find_unfetched_chunk` of src/peer_server.c finds in the queue of a peer.
use peer_server.Base.{
  ◌||◌, Bool, false, ℕ, ◌<◌, ◌≡◌, refl, ap, ◌⊎◌, inl, inr, true, Option, none, some, List, [], ◌∷◌,
  arith,
}
use peer_server.Chunklist.{
  ChunkState, unfetched, fetching, fetched, is_unfetched, str_eq, ChunkList,
}
use peer_server.Chunklist.Search.{first_from-some}
use peer_server.Server.Refresh.{wanted, find_in_queue, Found}

unfetched_state : (st : ChunkState) → is_unfetched st ≡ true → st ≡ unfetched
unfetched_state unfetched e = refl
unfetched_state fetching e = cc
unfetched_state fetched e = cc

wanted-unfetched :
    (c : ChunkList) (h : List ℕ) (k : ℕ)
    → wanted c h ≡ some k
    → (k < c.count) × ((c.chunks k).state ≡ unfetched) × (str_eq (c.chunks k).sha1 h ≡ true)
unfolding wanted
wanted-unfetched c h k e =
    let (a, b, t, first) = first_from-some _ c.count 0 k e in
    (omega arith, unfetched_state (c.chunks k).state (ground arith), ground arith)

abbrev index_of : Option Found → ℕ
index_of none = 0
index_of (some f) = f.index

-- The index found is the one that the front of the queue yields, or the one of the rest.
from_queue :
    (o : Option ℕ) (rest : Option Found) (h : List ℕ) (q : List (List ℕ)) (f : Found)
    → elim o [
      | some i ↦ some (record { index = i; queue = q })
      | none ↦ elim rest [ none ↦ none | some g ↦ some (record g { queue = h ∷ g.queue }) ]
    ]
      ≡ some f
    → (o ≡ some f.index) ⊎ ((g : Found) × (rest ≡ some g) × (g.index ≡ f.index))
from_queue (some k) rest h q f e = inl (ap (λ x. some (index_of x)) e)
from_queue none none h q f e = cc
from_queue none (some g) h q f e = inr (g, refl, ap index_of e)

-- One of the queue's hashes is this one.
abbrev pub has_hash : List (List ℕ) → List ℕ → Bool
has_hash [] sha1 = false
has_hash (h ∷ q) sha1 = str_eq sha1 h || has_hash q sha1

-- What `find_unfetched_chunk` finds in a queue is a chunk of the list that is unfetched, and whose
-- hash is in the queue.
pub find_in_queue-unfetched :
    (c : ChunkList) (q : List (List ℕ)) (f : Found)
    → find_in_queue c q ≡ some f
    → (f.index < c.count)
      × ((c.chunks f.index).state ≡ unfetched)
      × (has_hash q (c.chunks f.index).sha1 ≡ true)
unfolding find_in_queue
find_in_queue-unfetched c [] f e = cc
find_in_queue-unfetched c (h ∷ q) f e = elim (from_queue (wanted c h) (find_in_queue c q) h q f e) [
  | inl x ↦ let (a, b, m) = wanted-unfetched c h f.index x in (a, b, ground arith)
  | inr (g, x, same) ↦
      rw⁻¹ same (let (a, b, m) = find_in_queue-unfetched c q g x in (a, b, ground arith))
]
