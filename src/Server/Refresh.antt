-- ===== src/Server/Refresh.antt =====
-- The scheduling of src/peer_server.c: which chunk to ask which peer for, and the timer.
use peer_server.Base.{
  ℕ, zero, suc, ◌+◌, Bool, true, false, ◌&&◌, ◌||◌, not, Option, none, some, List, [], ◌∷◌, ltb,
  if◌then◌else◌, sub32,
}
use peer_server.Base.Int.{ℤ, pos, ltb_ℤ}
use peer_server.Chunklist.{ChunkList, is_unfetched, str_eq, first_from}
use peer_server.Platform.{Platform}
use peer_server.Util.{get_timestamp_now, default_timeout}
use peer_server.Download.{Received, dl_check_timeout}
use peer_server.Upload.Control.{Checked, ul_check_timeout}
use peer_server.Server.{Peer, PeerServer, set_peer, die}
use peer_server.Server.Transfer.{
  send_whohas, send_get, start_download, kill_download, finish_upload,
}

abbrev pub max_timeout_cnt : ℕ
max_timeout_cnt = 5

-- The inner loop of `find_unfetched_chunk`: the first unfetched chunk with this hash.
unfoldable pub wanted : ChunkList → List ℕ → Option ℕ
wanted getchunks hash =
    first_from
      (λ i. is_unfetched (getchunks.chunks i).state && str_eq (getchunks.chunks i).sha1 hash)
      getchunks.count 0

-- A chunk that was found, and the queue without its node.
pub record Found : Type 0 where
  pub index : ℕ
  pub queue : List (List ℕ)

-- The outer loop, over the peer's queue.
unfoldable pub find_in_queue : ChunkList → List (List ℕ) → Option Found
find_in_queue getchunks [] = none
find_in_queue getchunks (hash ∷ queue) =
    let rest = find_in_queue getchunks queue in
    elim (wanted getchunks hash) [
      | some i ↦ some (record { index = i; queue = queue })
      | none ↦ elim rest [ none ↦ none | some f ↦ some (record f { queue = hash ∷ f.queue }) ]
    ]

-- The peer with the node removed and the index noted.
unfoldable pub take_found : PeerServer → ℕ → Found → PeerServer
take_found s p_index f =
    let p = s.peers p_index in
    set_peer s p_index (record p { hasqueue = f.queue; dl = record (p.dl) { get_index = f.index } })

-- The part of `try_send_get` behind its test.
unfoldable pub get_found : Platform → PeerServer → ℕ → Found → PeerServer
get_found plat s p_index f =
    let asked = send_get (take_found s p_index f) p_index f.index in
    let busy = set_peer asked p_index (record (asked.peers p_index) { is_downloading = true }) in
    start_download plat busy p_index f.index

unfoldable pub try_send_get : Platform → PeerServer → ℕ → PeerServer
try_send_get plat s p_index = elim (find_in_queue s.getchunks (s.peers p_index).hasqueue) [
  | none ↦ s
  | some f ↦ get_found plat s p_index f
]

abbrev pub not_good_for_download : Peer → Bool
not_good_for_download p = not p.is_alive || p.is_downloading

-- The loop of `refresh_chunk_download` over the peers that are left.
unfoldable pub ask_peers : Platform → PeerServer → ℕ → ℕ → PeerServer
ask_peers plat s zero i = s
ask_peers plat s (suc left) i =
    let skip = ask_peers plat s left (i + 1) in
    let ask = ask_peers plat (try_send_get plat s i) left (i + 1) in
    if not (ltb_ℤ s.dl_num s.max_conn)
    then s
    else if not_good_for_download (s.peers i)
    then skip
    else ask

-- The time is read only if the two tests before it pass.
unfoldable pub whohas_again : Platform → PeerServer → PeerServer
whohas_again plat s =
    let (now, w₁) = get_timestamp_now plat s.world in
    let sent = send_whohas (record s { world = w₁ }) in
    let (later, w₂) = get_timestamp_now plat sent.world in
    if ltb default_timeout (sub32 now s.last_whohas)
    then record sent { world = w₂; last_whohas = later }
    else record s { world = w₁ }

abbrev pub is_zero : ℤ → Bool
is_zero (pos zero) = true
is_zero _ = false

unfoldable pub refresh_chunk_download : Platform → PeerServer → PeerServer
refresh_chunk_download plat s =
    let asked = ask_peers plat s s.peer_count 0 in
    if is_zero asked.dl_num && ltb_ℤ (pos 0) asked.dl_remain then whohas_again plat asked else asked

-- `die(peer_p)`.
unfoldable pub die_at : PeerServer → ℕ → PeerServer
die_at s i = set_peer s i (die (s.peers i))

-- The first half of the timer's round for a peer. The test is `&&`: the timeout is checked, and the
-- handler changed, only while the peer downloads.
unfoldable pub abort_download : Platform → PeerServer → ℕ → PeerServer
abort_download plat s i =
    let killed = kill_download s (s.peers i).dl in
    if (s.peers i).is_uploading then die_at (finish_upload plat killed i) i else die_at killed i

unfoldable pub put_download : PeerServer → ℕ → Received → PeerServer
put_download s i r = record (set_peer s i (record (s.peers i) { dl = r.dl })) { world = r.world }

unfoldable pub time_download : Platform → PeerServer → ℕ → PeerServer
time_download plat s i =
    let r = dl_check_timeout plat (s.peers i).dl s.world in
    let checked = put_download s i r in
    if (s.peers i).is_downloading
    then (if ltb_ℤ (pos max_timeout_cnt) r.code then abort_download plat checked i else checked)
    else s

-- The second half.
unfoldable pub abort_upload : Platform → PeerServer → ℕ → PeerServer
abort_upload plat s i =
    let killed = finish_upload plat s i in
    if (s.peers i).is_downloading
    then die_at (kill_download killed (s.peers i).dl) i
    else die_at killed i

unfoldable pub put_checked : PeerServer → ℕ → Checked → PeerServer
put_checked s i r = record (set_peer s i (record (s.peers i) { ul = r.ul })) { world = r.world }

unfoldable pub time_upload : Platform → PeerServer → ℕ → PeerServer
time_upload plat s i =
    let r = ul_check_timeout plat (s.peers i).ul s.world in
    let checked = put_checked s i r in
    if (s.peers i).is_uploading
    then (if ltb_ℤ (pos max_timeout_cnt) r.code then abort_upload plat checked i else checked)
    else s

unfoldable pub time_peer : Platform → PeerServer → ℕ → PeerServer
time_peer plat s i =
    if not (s.peers i).is_alive then s else time_upload plat (time_download plat s i) i

unfoldable pub time_peers : Platform → PeerServer → ℕ → ℕ → PeerServer
time_peers plat s zero i = s
time_peers plat s (suc left) i = time_peers plat (time_peer plat s i) left (i + 1)

unfoldable pub check_all_timeout : Platform → PeerServer → PeerServer
check_all_timeout plat s =
    let timed = time_peers plat s s.peer_count 0 in
    if ltb_ℤ (pos 0) timed.dl_remain then refresh_chunk_download plat timed else timed
