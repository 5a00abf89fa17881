-- ===== src/Server/Runs.antt =====
-- The program from its start on: turns of the loop of `peer_run`, with commands.
use peer_server.Base.Int.{ℤ}
use peer_server.Base.{
  if_ind, ℕ, inl, inr, Bool-cases, ◌<◌, ◌≡◌, refl, Bool, true, false, ◌||◌, not, Option, none, some,
  List, [], ◌∷◌, ltb, length, arith,
}
use mathlib.Core.Path.{subst}
use peer_server.Platform.{Platform}
use peer_server.Chunklist.{parse_chunk}
use peer_server.InputBuffer.{Handled, create_userbuf}
use peer_server.Server.{PeerServer}
use peer_server.Server.Transfer.{send_whohas, emit_param}
use peer_server.Server.Handle.{process_get, start_get, bt_filename_len}
use peer_server.Server.Init.{BtConfig, peer_init}
use peer_server.Server.Main.{
  Turn, Program, is_get, handle_user_input, handle_each, take_inbound, take_typed, read_typed,
  end_turn, peer_turn,
}
use peer_server.BtParse.{returns}
use peer_server.Server.Main.{Setup, main}
use peer_server.Server.Downloads.{IsConsistent, down}
use peer_server.Server.Consistent.{process_inbound_udp-IsConsistent, check_all_timeout-IsConsistent}
use peer_server.Server.Loop.{inbound-Inv}
use peer_server.Server.Starts.{some_inj, main-Fresh}
use peer_server.Server.Start.{
  counters-IsConsistent, peer_init-IsConsistent, process_get-IsConsistent,
}

-- No peer is downloading.
abbrev pub Idle : PeerServer → Type 0
Idle s = (i : ℕ) → i < s.peer_count → down s i ≡ false

-- Some line is a GET command.
unfoldable pub some_get : Turn → List (List ℕ) → Bool
some_get t [] = false
some_get t (line ∷ lines) = is_get (t.sscanf line) || some_get t lines

-- The rule for the user: whatever else is typed in the turn, a GET only while nobody downloads.
abbrev pub Permitted : Platform → Turn → Program → Type 0
Permitted plat t p =
    (s : PeerServer) (h : Handled)
    → take_inbound plat t p.psvr t.inbound ≡ some s
    → read_typed t p.userbuf ≡ some h
    → some_get t h.lines ≡ true
    → Idle s

-- Turns of the loop from one state of the program to another.
pub data Turns (plat : Platform) : Program → Program → Type 0 where
  here : {p : Program} → Turns plat p p
  turn :
      {p q r : Program} (t : Turn)
      → Permitted plat t p
      → peer_turn plat t p ≡ some q
      → Turns plat q r
      → Turns plat p r

module _ (plat : Platform) where
  process_get-Idle :
      (s : PeerServer) (chunkfile outputfile : List ℕ) (lines : Option (List (ℤ × List ℕ)))
      → Idle s
      → Idle (process_get plat s chunkfile lines outputfile)
  unfolding process_get parse_chunk start_get send_whohas emit_param
  process_get-Idle s chunkfile outputfile lines idle =
      if_ind Idle (not (ltb (length outputfile) bt_filename_len)) _ _ (λ e. idle)
        (λ e.
          if_ind Idle (not (ltb (length chunkfile) bt_filename_len)) _ _ (λ f. idle)
            (λ f. parsed lines))
    where
      parsed :
          (lines : Option (List (ℤ × List ℕ)))
          → Idle (elim (parse_chunk s.getchunks lines) [
            | none ↦ record s { dl_filename = outputfile; getchunk_file = chunkfile }
            | some getchunks ↦
                start_get plat
                  (record s { dl_filename = outputfile; getchunk_file = chunkfile })
                  getchunks
          ])
      parsed none = idle
      parsed (some l) = idle

  module _ (t : Turn) where
    -- Lines that are no commands change nothing.
    handle_each-none :
        (s : PeerServer) (lines : List (List ℕ))
        → some_get t lines ≡ false
        → handle_each plat t s lines ≡ s
    unfolding handle_each some_get handle_user_input
    handle_each-none s [] e = refl
    handle_each-none s (line ∷ lines) e =
        let no : is_get (t.sscanf line) ≡ false = ground arith in
        let rest : some_get t lines ≡ false = ground arith in rw no (handle_each-none s lines rest)

    handle_each-IsConsistent :
        (s : PeerServer) (lines : List (List ℕ))
        → IsConsistent s
        → Idle s
        → IsConsistent (handle_each plat t s lines)
    unfolding handle_each handle_user_input
    handle_each-IsConsistent s [] v idle = v
    handle_each-IsConsistent s (line ∷ lines) v idle =
        let sc = t.sscanf line in
        let got = process_get plat s sc.chunkf (t.file sc.chunkf) sc.outf in
        if_ind (λ u. IsConsistent (handle_each plat t u lines)) (is_get sc) got s
          (λ e.
            handle_each-IsConsistent got lines
              (process_get-IsConsistent plat s sc.chunkf sc.outf (t.file sc.chunkf) v idle)
              (process_get-Idle s sc.chunkf sc.outf (t.file sc.chunkf) idle))
          (λ e. handle_each-IsConsistent s lines v idle)

    typed-IsConsistent :
        (s : PeerServer) (h : Option Handled) (q : Program)
        → IsConsistent s
        → ((l : Handled) → h ≡ some l → some_get t l.lines ≡ true → Idle s)
        → end_turn plat (take_typed plat t s h) ≡ some q
        → IsConsistent q.psvr
    unfolding end_turn take_typed
    typed-IsConsistent s none q v allowed e = cc
    typed-IsConsistent s (some l) q v allowed e =
        subst (λ r. IsConsistent r.psvr) (some_inj e)
          (check_all_timeout-IsConsistent plat _ handled).0
      where
        handled : IsConsistent (handle_each plat t s l.lines)
        handled = elim (Bool-cases (some_get t l.lines)) [
          | inl g ↦ handle_each-IsConsistent s l.lines v (allowed l refl g)
          | inr g ↦ rw (handle_each-none s l.lines g) v
        ]

    peer_turn-IsConsistent :
        (p q : Program)
        → IsConsistent p.psvr
        → Permitted plat t p
        → peer_turn plat t p ≡ some q
        → IsConsistent q.psvr
    unfolding peer_turn
    peer_turn-IsConsistent p q v permitted e = came (take_inbound plat t p.psvr t.inbound) refl e
      where
        came :
            (o : Option PeerServer)
            → take_inbound plat t p.psvr t.inbound ≡ o
            → elim o [
              | none ↦ none
              | some s ↦ end_turn plat (take_typed plat t s (read_typed t p.userbuf))
            ]
              ≡ some q
            → IsConsistent q.psvr
        came none a d = cc
        came (some s) a d =
            typed-IsConsistent s (read_typed t p.userbuf) q
              (inbound-Inv plat t IsConsistent (process_inbound_udp-IsConsistent plat) p.psvr s
                t.inbound v a)
              (λ l. permitted s l a) d

  Turns-IsConsistent : {p q : Program} → Turns plat p q → IsConsistent p.psvr → IsConsistent q.psvr
  Turns-IsConsistent here v = v
  Turns-IsConsistent (turn t permitted e rest) v =
      Turns-IsConsistent rest (peer_turn-IsConsistent t _ _ v permitted e)

  -- Once `peer_init` has succeeded, the invariant of the downloads holds after any number of turns
  -- of the main loop, whatever datagrams arrive, whatever is typed, and whatever the clock, the
  -- files and `sscanf` answer, if each GET command comes while nobody is downloading.
  pub program-IsConsistent :
      (config : BtConfig) (s t : PeerServer) (q : Program)
      → peer_init plat config s ≡ some t
      → Turns plat (record { psvr = t; userbuf = create_userbuf }) q
      → IsConsistent q.psvr
  program-IsConsistent config s t q e turns =
      Turns-IsConsistent turns (peer_init-IsConsistent plat config s t e)

  -- Once `main` has reached its loop, whatever the command line was, the invariant of the downloads
  -- holds after any number of turns, whatever datagrams arrive, whatever is typed, and whatever the
  -- clock, the files and the functions of the C library answer, if each GET command comes while
  -- nobody is downloading.
  pub main-IsConsistent :
      (setup : Setup) (psvr : PeerServer) (p q : Program)
      → main plat setup psvr ≡ returns p
      → Turns plat p q
      → IsConsistent q.psvr
  main-IsConsistent setup psvr p q e turns =
      Turns-IsConsistent turns (main-Fresh plat IsConsistent counters-IsConsistent setup psvr p e)
