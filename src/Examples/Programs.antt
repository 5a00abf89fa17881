-- ===== src/Examples/Programs.antt =====
-- A program whose user types one command.
use peer_server.Base.{ap, length, ◌≤◌, ◌≡◌, refl, none, some, Option, [], ◌∷◌, arith}
use mathlib.Core.Path.{subst}
use peer_server.Base.Int.{pos, pos_part}
use peer_server.InputBuffer.{
  UserIobuf, fill, shift, after_line, find_newline, create_userbuf, handle_lines,
  process_user_input,
}
use peer_server.Packet.Encode.{read_bytes}
use peer_server.Server.{PeerServer, init_peer}
use peer_server.Server.Init.{
  is_defined, read_string, peer_init, init_peerlist, fill_peers, set_counters,
}
use peer_server.Server.Refresh.{check_all_timeout}
use peer_server.BtParse
use peer_server.BtParse.{
  Scanned, returns, bt_init, bt_parse_command_line, take_options, take_option, with_name,
  bt_parse_peer_list, parse_lines, scan, check_config, bt_peer_info, peer_info, peer_of, to_short,
  to_u16,
}
use peer_server.Packet.Encode.{htons}
use peer_server.Server.Counts.{count_if}
use peer_server.Server.Uploads.{up}
use peer_server.Server.Begins.{Works}
use peer_server.Server.Started.{uploads_lem}
use peer_server.Util.{milliseconds}
use peer_server.Server.Main.{
  peer_turns, Setup, psvr_config, listed_peer, main, Turn, Program, handle_each, take_inbound,
  take_typed, read_typed, end_turn, peer_turn,
}
use peer_server.Server.Starts.{some_inj}
use peer_server.Server.Runs.{Idle, Permitted, here, turn, main-IsConsistent}
use peer_server.Server.DlLimits.{downloads-limited}
use peer_server.Server.Downloads.{IsConsistent, down}
use peer_server.Util.{get_timestamp_now}
use peer_server.Chunklist.{parse_chunk}
use peer_server.Examples.Samples.{sample_platform, sample_server}

-- "-f a -c b -i 2", and a file of peers with two lines.
abbrev setup : Setup
setup = record {
  options =
      record { c = 102; optarg = 97 ∷ [] }
      ∷ record { c = 99; optarg = 98 ∷ [] }
      ∷ record { c = 105; optarg = 50 ∷ [] }
      ∷ [];
  atoi = λ text. pos 2;
  sscanf = λ line. Scanned.three (pos (length line)) [] (pos 7);
  gethostbyname = λ name. some 16777343;
  peer_files = λ name. some ((49 ∷ []) ∷ (50 ∷ 50 ∷ []) ∷ []);
  chunk_files = λ name. some ((pos 4, 1 ∷ 2 ∷ []) ∷ []);
  master_line = 109 ∷ 10 ∷ [];
  fields = record { nodeid = pos 0; hostname = []; port = pos 0 };
}

abbrev parsed : BtParse.BtConfig
parsed = record bt_init {
  chunk_file = 97 ∷ [];
  has_chunk_file = 98 ∷ [];
  identity = pos 2;
  myport = 7;
  peers =
      record { id = pos 2; sin_addr = 16777343; sin_port = 1792 }
      ∷ record { id = pos 1; sin_addr = 16777343; sin_port = 1792 }
      ∷ [];
}

parses :
    bt_parse_command_line setup.atoi setup.sscanf setup.gethostbyname setup.peer_files setup.fields
      setup.options bt_init
    ≡ returns parsed
unfolding bt_parse_command_line take_options take_option with_name bt_parse_peer_list parse_lines
    scan check_config bt_peer_info peer_info peer_of to_short to_u16 htons bt_init
parses = refl

-- `psvr` at the start, as `peer_init` finds it.
abbrev blank : PeerServer
blank = record sample_server {
  world = record (sample_server.world) { no_output = parsed.no_output };
}

abbrev or_sample : Option PeerServer → PeerServer
or_sample none = sample_server
or_sample (some s) = s

abbrev first : Program
first = record {
  psvr = or_sample (peer_init sample_platform (psvr_config setup parsed) blank);
  userbuf = create_userbuf;
}

started : peer_init sample_platform (psvr_config setup parsed) blank ≡ some first.psvr
unfolding peer_init parse_chunk get_timestamp_now psvr_config listed_peer to_u16 bt_init
started = refl

reaches_loop : main sample_platform setup sample_server ≡ returns first
unfolding main peer_init parse_chunk get_timestamp_now psvr_config listed_peer to_u16 bt_init
    is_defined init_peerlist fill_peers read_string
reaches_loop = rw parses refl

-- "GET a b" and a newline.
abbrev command : Turn
command = record {
  inbound = none;
  typed = some (71 ∷ 69 ∷ 84 ∷ 32 ∷ 97 ∷ 32 ∷ 98 ∷ 10 ∷ []);
  sscanf = λ line. record { ret = pos 2; chunkf = 97 ∷ []; outf = 98 ∷ [] };
  file = λ name. some ((pos 0, 9 ∷ []) ∷ []);
  stack = λ i. 0;
  rounds = 2;
}

abbrev second_buffer : UserIobuf
second_buffer = shift (fill create_userbuf (71 ∷ 69 ∷ 84 ∷ 32 ∷ 97 ∷ 32 ∷ 98 ∷ 10 ∷ [])) 7

reads :
    read_typed command create_userbuf
    ≡ some
        (record { lines = (71 ∷ 69 ∷ 84 ∷ 32 ∷ 97 ∷ 32 ∷ 98 ∷ []) ∷ []; userbuf = second_buffer })
unfolding read_typed process_user_input handle_lines find_newline after_line fill create_userbuf
    shift read_bytes
reads = refl

-- The first turn, as far as the timer.
abbrev second : Program
second = record {
  psvr = check_all_timeout sample_platform (
      handle_each sample_platform command first.psvr
        ((71 ∷ 69 ∷ 84 ∷ 32 ∷ 97 ∷ 32 ∷ 98 ∷ []) ∷ []));
  userbuf = second_buffer;
}

taken : peer_turn sample_platform command first ≡ some second
unfolding peer_turn take_inbound take_typed end_turn peer_init parse_chunk get_timestamp_now
taken = rw reads refl

first-Idle : Idle first.psvr
unfolding peer_init parse_chunk get_timestamp_now psvr_config listed_peer to_u16 bt_init
    init_peerlist fill_peers init_peer set_counters
first-Idle i h = ground arith

permitted : Permitted sample_platform command first
unfolding take_inbound
permitted s h a b c = subst Idle (some_inj a) first-Idle

main-IsConsistent_example : IsConsistent second.psvr
main-IsConsistent_example =
    main-IsConsistent sample_platform setup sample_server first second reaches_loop
      (turn command permitted taken here)

works : Works sample_platform
unfolding milliseconds
works = record { maps = λ n offset e. cc; clock = λ n. omega arith }

one_turn : peer_turns sample_platform (command ∷ []) first ≡ some second
unfolding peer_turns
one_turn = ap (λ o. elim o [ none ↦ none | some q ↦ peer_turns sample_platform [] q ]) taken

uploads_lem_example :
    (second.psvr.ul_num ≡ pos (count_if (up second.psvr) second.psvr.peer_count))
    × (count_if (up second.psvr) second.psvr.peer_count ≤ pos_part second.psvr.max_conn)
uploads_lem_example =
    uploads_lem sample_platform works setup sample_server first second (command ∷ []) reaches_loop
      one_turn

downloads-limited_example :
    count_if (down second.psvr) second.psvr.peer_count ≤ pos_part second.psvr.max_conn
downloads-limited_example =
    downloads-limited sample_platform setup sample_server first second reaches_loop
      (turn command permitted taken here)
