-- ===== src/BtParse.antt =====
-- src/bt_parse.c and `set_debug` of src/debug.c: the command line and the file of peers.
-- A C string is the list of its characters. What `getopt`, `atoi`, `fgets`, `sscanf` and
-- `gethostbyname` answer are arguments.
pub mod Peers
use peer_server.Base.{
  ℕ, zero, suc, ◌+◌, ◌-◌, ◌%◌, Bool, true, false, not, ◌&&◌, ◌||◌, Option, none, some, List, [],
  ◌∷◌, ltb, leb, ◌==◌, length, get_or, if◌then◌else◌,
}
use peer_server.Base.Int.{ℤ, pos, negsuc}
use peer_server.Packet.Encode.{htons}
use peer_server.Chunklist.{str_eq}

-- BT_FILENAME_LEN.
abbrev pub filename_len : ℕ
filename_len = 255

-- `bt_peer_t`; the address and the port are in network order.
pub record BtPeer : Type 0 where
  pub id : ℤ
  pub sin_addr : ℕ
  pub sin_port : ℕ

-- `bt_config_t`, without `argc` and `argv`. The list is the chain from `peers` on.
pub record BtConfig : Type 0 where
  pub chunk_file : List ℕ
  pub has_chunk_file : List ℕ
  pub output_file : List ℕ
  pub peer_list_file : List ℕ
  pub max_conn : ℤ
  pub identity : ℤ
  pub myport : ℕ
  pub no_output : Bool
  pub peers : List BtPeer

-- A function that may leave the program by `exit`, stop it by an assertion that fails, or go on with
-- no meaning in C: a copy past the end of an array, about which nothing is claimed.
pub data Outcome {ℓ} (A : Type ℓ) : Type ℓ where
  returns : A → Outcome A
  exits : ℤ → Outcome A
  breaks : Outcome A
  undefined : Outcome A

-- What follows a function that may not return.
abbrev pub and_then {ℓ κ} : {A : Type ℓ} {B : Type κ} → Outcome A → (A → Outcome B) → Outcome B
and_then (returns a) f = f a
and_then (exits code) f = exits code
and_then breaks f = breaks
and_then undefined f = undefined

-- "problem2-peer.txt" and "nodes.map".
unfoldable pub bt_init : BtConfig
bt_init = record {
  chunk_file = [];
  has_chunk_file = [];
  output_file =
      112 ∷ 114 ∷ 111 ∷ 98 ∷ 108 ∷ 101 ∷ 109 ∷ 50 ∷ 45 ∷ 112 ∷ 101 ∷ 101 ∷ 114 ∷ 46 ∷ 116 ∷ 120
      ∷ 116 ∷ [];
  peer_list_file = 110 ∷ 111 ∷ 100 ∷ 101 ∷ 115 ∷ 46 ∷ 109 ∷ 97 ∷ 112 ∷ [];
  max_conn = pos 0;
  identity = pos 0;
  myport = 0;
  no_output = false;
  peers = [];
}

abbrev pub eq_ℤ : ℤ → ℤ → Bool
eq_ℤ (pos a) (pos b) = a == b
eq_ℤ (negsuc a) (negsuc b) = a == b
eq_ℤ _ _ = false

-- The loop of `bt_peer_info`.
unfoldable pub peer_info : List BtPeer → ℤ → Option BtPeer
peer_info [] peer_id = none
peer_info (p ∷ ps) peer_id =
    let rest = peer_info ps peer_id in if eq_ℤ p.id peer_id then some p else rest

unfoldable pub bt_peer_info : BtConfig → ℤ → Option BtPeer
bt_peer_info config = peer_info config.peers

-- The conversions of `sscanf(line, "%d %s %d", ...)`: the end of the line, none, one, two or all.
pub data Scanned : Type 0 where
  eof : Scanned
  nothing : Scanned
  one : ℤ → Scanned
  two : ℤ → List ℕ → Scanned
  three : ℤ → List ℕ → ℤ → Scanned

-- The variables of the loop, which no statement initialises, and which keep what the last line
-- left.
pub record Fields : Type 0 where
  pub nodeid : ℤ
  pub hostname : List ℕ
  pub port : ℤ

-- The variables after `sscanf`; `none` if the assertion on its result fails.
unfoldable pub scan : Scanned → Fields → Option Fields
scan eof v = some v
scan nothing v = none
scan (one id) v = some (record v { nodeid = id })
scan (two id host) v = some (record v { nodeid = id; hostname = host })
scan (three id host port) v = some (record { nodeid = id; hostname = host; port = port })

-- An `int` in a `short`, and in a `uint16_t`.
unfoldable pub to_u16 : ℤ → ℕ
to_u16 (pos n) = n % 65536
to_u16 (negsuc n) = 65535 - n % 65536

unfoldable pub to_short : ℤ → ℤ
to_short z = let u = to_u16 z in if ltb u 32768 then pos u else negsuc (65535 - u)

abbrev pub is_comment : List ℕ → Bool
is_comment [] = false
is_comment (c ∷ cs) = c == 35

-- The peer of a line.
unfoldable pub peer_of : Fields → ℕ → BtPeer
peer_of v addr = record {
  id = to_short v.nodeid;
  sin_addr = addr;
  sin_port = htons (to_u16 v.port);
}

module _ (sscanf : List ℕ → Scanned) (gethostbyname : List ℕ → Option ℕ) where
  -- The loop of `bt_parse_peer_list` over the lines that `fgets` returns.
  unfoldable pub parse_lines : List (List ℕ) → Fields → List BtPeer → Outcome (List BtPeer)
  parse_lines [] v peers = returns peers
  parse_lines (line ∷ lines) v peers = elim (is_comment line) [
    | true ↦ parse_lines lines v peers
    | false ↦ elim (scan (sscanf line) v) [
      | none ↦ breaks
      | some v' ↦ elim (gethostbyname v'.hostname) [
        | none ↦ breaks
        | some addr ↦ parse_lines lines v' (peer_of v' addr ∷ peers)
      ]
    ]
  ]

  -- `file` is `none` if `fopen` fails.
  unfoldable pub bt_parse_peer_list : Option (List (List ℕ)) → Fields → BtConfig → Outcome BtConfig
  bt_parse_peer_list none v config = breaks
  bt_parse_peer_list (some lines) v config =
      and_then (parse_lines lines v config.peers)
        (λ peers. returns (record config { peers = peers }))

-- What `set_debug` returns.
unfoldable pub set_debug : List ℕ → ℤ
set_debug arg =
    if length arg == 0
    then negsuc 0
    else if get_or arg 0 0 == 63 || str_eq arg (108 ∷ 105 ∷ 115 ∷ 116 ∷ [])
    then negsuc 0
    else pos 0

-- What `getopt` returns, and `optarg`.
pub record Opt : Type 0 where
  pub c : ℕ
  pub optarg : List ℕ

-- `strcpy` to an array of `filename_len` bytes. The source does not test the length: a name that
-- does not fit is written past the array, and what follows is undefined.
unfoldable pub with_name : List ℕ → BtConfig → Outcome BtConfig
with_name arg config = if ltb (length arg) filename_len then returns config else undefined

module _ (atoi : List ℕ → ℤ) where
  -- The `switch`: the letters are h, d, p, c, f, m, i and n.
  unfoldable pub take_option : BtConfig → Opt → Outcome BtConfig
  take_option config o =
      if o.c == 104
      then exits (pos 0)
      else if o.c == 100
      then (if eq_ℤ (set_debug o.optarg) (negsuc 0) then exits (negsuc 0) else returns config)
      else if o.c == 112
      then with_name o.optarg (record config { peer_list_file = o.optarg })
      else if o.c == 99
      then with_name o.optarg (record config { has_chunk_file = o.optarg })
      else if o.c == 102
      then with_name o.optarg (record config { chunk_file = o.optarg })
      else if o.c == 109
      then returns (record config { max_conn = atoi o.optarg })
      else if o.c == 105
      then returns (record config { identity = to_short (atoi o.optarg) })
      else if o.c == 110
      then returns (record config { no_output = true })
      else exits (negsuc 0)

  unfoldable pub take_options : List Opt → BtConfig → Outcome BtConfig
  take_options [] config = returns config
  take_options (o ∷ os) config = and_then (take_option config o) (take_options os)

-- The checks behind the parsing.
unfoldable pub check_config : BtConfig → Outcome BtConfig
check_config config =
    if eq_ℤ config.identity (pos 0)
    then exits (negsuc 0)
    else elim (bt_peer_info config config.identity) [
      | none ↦ exits (negsuc 0)
      | some p ↦
          if length config.chunk_file == 0 || length config.has_chunk_file == 0
          then breaks
          else returns (record config { myport = htons p.sin_port })
    ]

-- `files` is what the file of a name holds.
unfoldable pub bt_parse_command_line :
    (List ℕ → ℤ)
    → (List ℕ → Scanned)
    → (List ℕ → Option ℕ)
    → (List ℕ → Option (List (List ℕ)))
    → Fields
    → List Opt
    → BtConfig
    → Outcome BtConfig
bt_parse_command_line atoi sscanf gethostbyname files v opts config =
    and_then (take_options atoi opts config) λ c.
      and_then (bt_parse_peer_list sscanf gethostbyname (files c.peer_list_file) v c) check_config
