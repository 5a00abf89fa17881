-- ===== src/Server/Good.antt =====
-- The invariant of the downloads through `refresh_chunk_download` of src/peer_server.c.
use peer_server.Base.{
  ℕ, zero, suc, ◌+◌, ◌≤◌, ◌<◌, ◌≡◌, refl, ◌∙◌, Bool, true, false, not, Option, none, some, arith,
  if◌then◌else◌,
}
use peer_server.Base.Int.{ltb_ℤ}
use peer_server.Chunklist.{ChunkState}
use peer_server.Platform.{Platform}
use peer_server.Server.{PeerServer}
use peer_server.Server.Refresh.{
  Found, find_in_queue, get_found, try_send_get, ask_peers, not_good_for_download,
  refresh_chunk_download,
}
use peer_server.Server.Downloads.{IsConsistent, Same, Same-IsConsistent, down}
use peer_server.Server.Claims.{Claim, Release, Claim-IsConsistent, Release-IsConsistent}
use peer_server.Server.Steps.{whohas_again-Same}
use peer_server.Server.Queue.{find_in_queue-unfetched}
use peer_server.Server.Moves.{get_found-Claim}

-- The invariant, with the number of peers, which no step changes.
pub record Good (n : ℕ) (s : PeerServer) : Type 0 where
  pub good : IsConsistent s
  pub size : s.peer_count ≡ n

pub Same-Good : {n : ℕ} {s t : PeerServer} → Same s t → Good n s → Good n t
Same-Good e g = record { good = Same-IsConsistent e g.good; size = e.peers_eq ∙ g.size }

pub Claim-Good : {n i c : ℕ} {s t : PeerServer} → Claim s t i c → Good n s → Good n t
Claim-Good e g = record { good = Claim-IsConsistent e g.good; size = e.peers_eq ∙ g.size }

pub Release-Good :
    {n i : ℕ} {st : ChunkState} {s t : PeerServer} → Release s t i st → Good n s → Good n t
Release-Good e g = record { good = Release-IsConsistent e g.good; size = e.peers_eq ∙ g.size }

pub in_range : {n i : ℕ} {s : PeerServer} → Good n s → i < n → i < s.peer_count
in_range g h = rw g.size h

pub count_le : {n : ℕ} {s : PeerServer} → Good n s → 0 + s.peer_count ≤ n
count_le g = ground (arith, g.size)

-- A test, with what it says in each branch.
pub if-Good :
    (n : ℕ) (t u : PeerServer) (b : Bool)
    → (b ≡ true → Good n t)
    → (b ≡ false → Good n u)
    → Good n (if b then t else u)
if-Good n t u true x y = x refl
if-Good n t u false x y = y refl

module _ (plat : Platform) (n : ℕ) where
  pub try_send_get-Good :
      (s : PeerServer) (i : ℕ)
      → i < n
      → down s i ≡ false
      → Good n s
      → Good n (try_send_get plat s i)
  unfolding try_send_get
  try_send_get-Good s i h d g = take-Good (find_in_queue s.getchunks (s.peers i).hasqueue) λ f e.
      let (a, b, m) = find_in_queue-unfetched s.getchunks (s.peers i).hasqueue f e in
      Claim-Good (get_found-Claim plat s i f (in_range g h) d (a, b)) g
    where
      take-Good :
          (o : Option Found)
          → ((f : Found) → o ≡ some f → Good n (get_found plat s i f))
          → Good n (elim o [ none ↦ s | some f ↦ get_found plat s i f ])
      take-Good none x = g
      take-Good (some f) x = x f refl

  ask_peers-Good :
      (left i : ℕ) (s : PeerServer) → i + left ≤ n → Good n s → Good n (ask_peers plat s left i)
  unfolding ask_peers
  ask_peers-Good zero i s h g = g
  ask_peers-Good (suc left) i s h g =
      if-Good n _ _ (not (ltb_ℤ s.dl_num s.max_conn)) (λ e. g)
        λ e.
          if-Good n _ _ (not_good_for_download (s.peers i))
            (λ b. ask_peers-Good left (i + 1) s (omega arith) g)
            λ b.
              ask_peers-Good left (i + 1) _ (omega arith)
                (try_send_get-Good s i (omega arith) (ground arith) g)

  pub refresh_chunk_download-Good :
      (s : PeerServer) → Good n s → Good n (refresh_chunk_download plat s)
  unfolding refresh_chunk_download
  refresh_chunk_download-Good s g =
      let asked = ask_peers-Good s.peer_count 0 s (count_le g) g in
      if-Good n _ _ _ (λ e. Same-Good (whohas_again-Same plat _) asked) λ e. asked
