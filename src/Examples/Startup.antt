-- ===== src/Examples/Startup.antt =====
-- A file of peers and a command line.
use peer_server.Base.{ℕ, ◌≡◌, refl, Option, some, List, [], ◌∷◌}
use peer_server.Base.Int.{ℤ, pos}
use peer_server.Packet.Encode.{htons}
use peer_server.BtParse.{
  BtConfig, returns, Scanned, three, nothing, Fields, Opt, peer_of, bt_init, bt_peer_info,
  bt_parse_peer_list, bt_parse_command_line, take_options, take_option, with_name, parse_lines,
  scan, check_config, peer_info, to_short, to_u16,
}
use peer_server.BtParse.Peers.{Reads, no_line, comment, peer, last_with, bt_parse_peer_list_lem}

-- A line with the letter i names the peer 1 on port 2000 + i at the host "h".
abbrev sscanf : List ℕ → Scanned
sscanf [] = nothing
sscanf (c ∷ cs) = three (pos 1) (104 ∷ []) (pos c)

abbrev gethostbyname : List ℕ → Option ℕ
gethostbyname host = some 16777343

abbrev lines : List (List ℕ)
lines = (35 ∷ []) ∷ (49 ∷ []) ∷ (50 ∷ []) ∷ []

abbrev fields : ℤ → Fields
fields port = record { nodeid = pos 1; hostname = 104 ∷ []; port = port }

lines-Reads :
    Reads sscanf gethostbyname lines
      (peer_of (fields (pos 49)) 16777343 ∷ peer_of (fields (pos 50)) 16777343 ∷ [])
lines-Reads = comment refl (
    peer (fields (pos 49)) 16777343 refl refl refl
      (peer (fields (pos 50)) 16777343 refl refl refl no_line))

bt_parse_peer_list_lem_example :
    (out : BtConfig) × (bt_parse_peer_list sscanf gethostbyname
        (some lines)
        (fields (pos 0))
        bt_init
      ≡ returns out)
    × ((id : ℤ)
        → bt_peer_info out id
          ≡ last_with
              (peer_of (fields (pos 49)) 16777343 ∷ peer_of (fields (pos 50)) 16777343 ∷ [])
              id
              (bt_peer_info bt_init id))
bt_parse_peer_list_lem_example =
    bt_parse_peer_list_lem sscanf gethostbyname lines
      (peer_of (fields (pos 49)) 16777343 ∷ peer_of (fields (pos 50)) 16777343 ∷ [])
      (fields (pos 0)) bt_init lines-Reads

abbrev atoi : List ℕ → ℤ
atoi cs = pos 1

-- -f a -c b -i 1
abbrev options : List Opt
options =
    record { c = 102; optarg = 97 ∷ [] }
    ∷ record { c = 99; optarg = 98 ∷ [] }
    ∷ record { c = 105; optarg = 49 ∷ [] }
    ∷ []

abbrev config : BtConfig
config = record bt_init {
  chunk_file = 97 ∷ [];
  has_chunk_file = 98 ∷ [];
  identity = pos 1;
  myport = 50;
  peers = peer_of (fields (pos 50)) 16777343 ∷ peer_of (fields (pos 49)) 16777343 ∷ [];
}

runs :
    bt_parse_command_line atoi sscanf gethostbyname
      (λ name. some lines)
      (fields (pos 0))
      options
      bt_init
    ≡ returns config
unfolding bt_parse_command_line take_options take_option with_name bt_parse_peer_list parse_lines
    scan check_config bt_peer_info peer_info peer_of to_short to_u16 htons bt_init
runs = refl
