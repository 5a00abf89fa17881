-- ===== src/BtParse/Peers.antt =====
-- The list of peers that the file of peers yields, and which peer an id finds in it.
use peer_server.Base.{ℕ, ◌≡◌, refl, true, false, Option, some, List, [], ◌∷◌, if◌then◌else◌}
use peer_server.Base.Int.{ℤ}
use peer_server.BtParse.{
  BtPeer, BtConfig, returns, Scanned, three, Fields, scan, peer_of, is_comment, eq_ℤ, peer_info,
  bt_peer_info, parse_lines, bt_parse_peer_list,
}

-- The peers in the order of the lines, each line a comment or complete, with a host that is known.
pub data Reads (sscanf : List ℕ → Scanned) (gethostbyname : List ℕ → Option ℕ)
    : List (List ℕ) → List BtPeer → Type 0 where
  no_line : Reads sscanf gethostbyname [] []
  comment :
      {line : List ℕ} {lines : List (List ℕ)} {ps : List BtPeer}
      → is_comment line ≡ true
      → Reads sscanf gethostbyname lines ps
      → Reads sscanf gethostbyname (line ∷ lines) ps
  peer :
      {line : List ℕ} {lines : List (List ℕ)} {ps : List BtPeer} (v : Fields) (addr : ℕ)
      → is_comment line ≡ false
      → sscanf line ≡ three v.nodeid v.hostname v.port
      → gethostbyname v.hostname ≡ some addr
      → Reads sscanf gethostbyname lines ps
      → Reads sscanf gethostbyname (line ∷ lines) (peer_of v addr ∷ ps)

-- Each in front of those before it.
abbrev pub rev_onto : List BtPeer → List BtPeer → List BtPeer
rev_onto [] peers = peers
rev_onto (p ∷ ps) peers = rev_onto ps (p ∷ peers)

-- The last of the peers with this id, or else the one that is given.
abbrev pub last_with : List BtPeer → ℤ → Option BtPeer → Option BtPeer
last_with [] id old = old
last_with (p ∷ ps) id old = last_with ps id (if eq_ℤ p.id id then some p else old)

info-rev_onto :
    (ps peers : List BtPeer) (id : ℤ)
    → peer_info (rev_onto ps peers) id ≡ last_with ps id (peer_info peers id)
unfolding peer_info
info-rev_onto [] peers id = refl
info-rev_onto (p ∷ ps) peers id = info-rev_onto ps (p ∷ peers) id

module _ (sscanf : List ℕ → Scanned) (gethostbyname : List ℕ → Option ℕ) where
  parse_lines_lem :
      (lines : List (List ℕ)) (ps : List BtPeer) (v : Fields) (peers : List BtPeer)
      → Reads sscanf gethostbyname lines ps
      → parse_lines sscanf gethostbyname lines v peers ≡ returns (rev_onto ps peers)
  unfolding parse_lines scan
  parse_lines_lem [] ps v peers no_line = refl
  parse_lines_lem (line ∷ lines) ps v peers (comment c r) =
      rw (parse_lines, c) (parse_lines_lem lines ps v peers r)
  parse_lines_lem (line ∷ lines) _ v peers (peer {ps = ps} w addr c s h r) =
      rw (parse_lines, c, s, h) (parse_lines_lem lines ps w (peer_of w addr ∷ peers) r)

  -- With a file of peers in which every line is a comment or complete, and every host is known,
  -- `bt_parse_peer_list` returns. `bt_peer_info` then finds for an id the peer of the last line
  -- that has it, or what it found before if no line has it.
  pub bt_parse_peer_list_lem :
      (lines : List (List ℕ)) (ps : List BtPeer) (v : Fields) (config : BtConfig)
      → Reads sscanf gethostbyname lines ps
      → (out : BtConfig) × (bt_parse_peer_list sscanf gethostbyname (some lines) v config
          ≡ returns out)
        × ((id : ℤ) → bt_peer_info out id ≡ last_with ps id (bt_peer_info config id))
  unfolding bt_parse_peer_list bt_peer_info
  bt_parse_peer_list_lem lines ps v config r = (
    record config { peers = rev_onto ps config.peers },
    rw (parse_lines_lem lines ps v config.peers r) refl,
    info-rev_onto ps config.peers,
  )
