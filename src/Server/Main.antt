-- ===== src/Server/Main.antt =====
-- `handle_user_input` and the loop of `peer_run` of src/peer.c, with datagrams and typed lines as
-- bytes.
use peer_server.Base.{
  ℕ, Bool, true, ◌&&◌, not, Option, none, some, List, [], ◌∷◌, ltb, ◌==◌, length, if◌then◌else◌,
}
use peer_server.Base.Int.{ℤ, pos, negsuc}
use peer_server.Platform.{Platform}
use peer_server.Spiffy.{Inbound}
use peer_server.InputBuffer.{UserIobuf, Handled, process_user_input}
use mathlib.Core.List.{map}
use peer_server.BtParse
use peer_server.BtParse.{
  Outcome, returns, exits, undefined, and_then, Opt, Fields, to_u16, bt_init, bt_parse_command_line,
}
use peer_server.Server.Init.{is_defined, BtPeer, BtConfig, peer_init}
use peer_server.InputBuffer.{create_userbuf}
use peer_server.Server.{PeerServer}
use peer_server.Server.Handle.{process_get}
use peer_server.Server.Inbound.{receive_udp}
use peer_server.Server.Refresh.{check_all_timeout}

-- What `sscanf` returns, and what it leaves in the two cleared buffers.
pub record Scanned : Type 0 where
  pub ret : ℤ
  pub chunkf : List ℕ
  pub outf : List ℕ

-- The answers of the system during a turn: a datagram if there is one, what was typed if there is
-- something, what `sscanf` makes of a line, and the lines of a chunk file.
pub record Turn : Type 0 where
  pub inbound : Option Inbound
  pub typed : Option (List ℕ)
  pub sscanf : List ℕ → Scanned
  pub file : List ℕ → Option (List (ℤ × List ℕ))
  -- What the variable `pkt` held.
  pub stack : ℕ → ℕ
  -- The rounds of the loop over the lines.
  pub rounds : ℕ

pub record Program : Type 0 where
  pub psvr : PeerServer
  pub userbuf : UserIobuf

-- A result that counts as true.
unfoldable pub is_true : ℤ → Bool
is_true (pos n) = not (n == 0)
is_true (negsuc n) = true

-- The condition under which a line is a GET command.
unfoldable pub is_get : Scanned → Bool
is_get sc = is_true sc.ret && ltb 0 (length sc.outf)

unfoldable pub handle_user_input : Platform → Turn → PeerServer → List ℕ → PeerServer
handle_user_input plat t s line =
    let sc = t.sscanf line in
    if is_get sc then process_get plat s sc.chunkf (t.file sc.chunkf) sc.outf else s

-- The calls of `handle_line`, one after the other.
unfoldable pub handle_each : Platform → Turn → PeerServer → List (List ℕ) → PeerServer
handle_each plat t s [] = s
handle_each plat t s (line ∷ lines) = handle_each plat t (handle_user_input plat t s line) lines

unfoldable pub take_inbound : Platform → Turn → PeerServer → Option Inbound → Option PeerServer
take_inbound plat t s none = some s
take_inbound plat t s (some r) = receive_udp plat s t.stack r

unfoldable pub take_typed : Platform → Turn → PeerServer → Option Handled → Option Program
take_typed plat t s none = none
take_typed plat t s (some h) =
    some (record { psvr = handle_each plat t s h.lines; userbuf = h.userbuf })

-- The lines that the user's input completes.
unfoldable pub read_typed : Turn → UserIobuf → Option Handled
read_typed t b = elim (t.typed) [
  | none ↦ some (record { lines = []; userbuf = b })
  | some bytes ↦ process_user_input t.rounds b bytes
]

unfoldable pub end_turn : Platform → Option Program → Option Program
end_turn plat none = none
end_turn plat (some p) = some (record p { psvr = check_all_timeout plat p.psvr })

-- One turn of the loop; `none` stands for an exit, and for the copy of a negative size.
unfoldable pub peer_turn : Platform → Turn → Program → Option Program
peer_turn plat t p = elim (take_inbound plat t p.psvr t.inbound) [
  | none ↦ none
  | some s ↦ end_turn plat (take_typed plat t s (read_typed t p.userbuf))
]

-- The loop, for the turns given.
unfoldable pub peer_turns : Platform → List Turn → Program → Option Program
peer_turns plat [] p = some p
peer_turns plat (t ∷ ts) p = elim (peer_turn plat t p) [
  | none ↦ none
  | some q ↦ peer_turns plat ts q
]

-- What the start of the program reads: the options, the files of peers and of owned chunks, the
-- characters of the master chunk file behind "File: ", and what the functions of the C library
-- answer. `fields` is what the variables of `bt_parse_peer_list` held.
pub record Setup : Type 0 where
  pub options : List Opt
  pub atoi : List ℕ → ℤ
  pub sscanf : List ℕ → BtParse.Scanned
  pub gethostbyname : List ℕ → Option ℕ
  pub peer_files : List ℕ → Option (List (List ℕ))
  pub chunk_files : List ℕ → Option (List (ℤ × List ℕ))
  pub master_line : List ℕ
  pub fields : Fields

-- A peer of the configuration, as `init_peerlist` finds it; a `short` is its bit pattern.
unfoldable pub listed_peer : BtParse.BtPeer → BtPeer
listed_peer p = record {
  id = to_u16 p.id;
  addr = record { sin_addr = p.sin_addr; sin_port = p.sin_port };
}

-- The part of `psvr.config` that `peer_init` reads.
unfoldable pub psvr_config : Setup → BtParse.BtConfig → BtConfig
psvr_config setup c = record {
  identity = to_u16 c.identity;
  peers = map listed_peer c.peers;
  max_conn = c.max_conn;
  has_chunks = setup.chunk_files c.has_chunk_file;
}

-- `main` as far as the loop of `peer_run`, with the memory of `psvr` at the start.
unfoldable pub main : Platform → Setup → PeerServer → Outcome Program
main plat setup psvr =
    and_then
      (bt_parse_command_line setup.atoi setup.sscanf setup.gethostbyname setup.peer_files
        setup.fields setup.options bt_init)
      λ c.
        let config = psvr_config setup c in
        let s = record psvr { world = record (psvr.world) { no_output = c.no_output } } in
        if is_defined config setup.master_line s
        then elim (peer_init plat config s) [
          | none ↦ exits (pos 0)
          | some started ↦ returns (record { psvr = started; userbuf = create_userbuf })
        ]
        else undefined
