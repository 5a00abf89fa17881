-- ===== src/Server/Loop.antt =====
-- The main loop: what each command, each packet and each round of the timer keeps, any turns keep.
use mathlib.Core.Path.{subst}
use peer_server.Base.{ℕ, ◌≡◌, refl, Option, none, some, List, [], ◌∷◌, if_ind}
use peer_server.Base.Int.{ℤ, pos, negsuc}
use peer_server.Packet.{Packet}
use peer_server.Packet.Encode.{decode_pkt, read_bytes}
use peer_server.Platform.{Platform}
use peer_server.Spiffy.{Inbound}
use peer_server.InputBuffer.{Handled}
use peer_server.Server.{Addr, PeerServer}
use peer_server.Server.Handle.{process_get, process_inbound_udp}
use peer_server.Server.Inbound.{receive_udp}
use peer_server.Server.Main.{
  Turn, Program, handle_user_input, handle_each, take_inbound, take_typed, read_typed, end_turn,
  peer_turn, peer_turns, is_get,
}
use peer_server.Server.Starts.{some_inj}
use peer_server.Server.Refresh.{check_all_timeout}

module _ (plat : Platform) (t : Turn) (Inv : PeerServer → Type 0)
    (hears : (s : PeerServer) (pkt : Packet) (addr : Addr)
      → Inv s
      → Inv (process_inbound_udp plat s pkt addr)) where
  pub inbound-Inv :
      (s u : PeerServer) (o : Option Inbound) → Inv s → take_inbound plat t s o ≡ some u → Inv u
  unfolding take_inbound receive_udp
  inbound-Inv s u none v e = subst Inv (some_inj e) v
  inbound-Inv s u (some r) v e = received r.ret e
    where
      pkt : ℕ → Packet
      pkt k = decode_pkt t.stack (read_bytes r.buffer 0 k)

      from : Addr
      from = record { sin_addr = r.addr.addr; sin_port = r.addr.port }

      received :
          (k : ℤ)
          → elim k [ negsuc j ↦ none | pos j ↦ some (process_inbound_udp plat s (pkt j) from) ]
            ≡ some u
          → Inv u
      received (negsuc k) d = cc
      received (pos k) d = subst Inv (some_inj d) (hears s (pkt k) from v)

module _ (plat : Platform) (Inv : PeerServer → Type 0)
    (asks : (s : PeerServer) (chunkfile outputfile : List ℕ) (lines : Option (List (ℤ × List ℕ)))
      → Inv s
      → Inv (process_get plat s chunkfile lines outputfile))
    (hears : (s : PeerServer) (pkt : Packet) (addr : Addr)
      → Inv s
      → Inv (process_inbound_udp plat s pkt addr))
    (times : (s : PeerServer) → Inv s → Inv (check_all_timeout plat s)) where
  handle_each-Inv :
      (t : Turn) (s : PeerServer) (lines : List (List ℕ)) → Inv s → Inv (handle_each plat t s lines)
  unfolding handle_each handle_user_input
  handle_each-Inv t s [] v = v
  handle_each-Inv t s (line ∷ lines) v =
      let sc = t.sscanf line in
      let got = process_get plat s sc.chunkf (t.file sc.chunkf) sc.outf in
      if_ind (λ u. Inv (handle_each plat t u lines)) (is_get sc) got s
        (λ e. handle_each-Inv t got lines (asks s sc.chunkf sc.outf (t.file sc.chunkf) v))
        (λ e. handle_each-Inv t s lines v)

  module _ (t : Turn) where
    typed-Inv :
        (s : PeerServer) (h : Option Handled) (q : Program)
        → Inv s
        → end_turn plat (take_typed plat t s h) ≡ some q
        → Inv q.psvr
    unfolding end_turn take_typed
    typed-Inv s none q v e = cc
    typed-Inv s (some l) q v e =
        subst (λ r. Inv r.psvr) (some_inj e) (times _ (handle_each-Inv t s l.lines v))

    pub peer_turn-Inv : (p q : Program) → Inv p.psvr → peer_turn plat t p ≡ some q → Inv q.psvr
    unfolding peer_turn
    peer_turn-Inv p q v e = came (take_inbound plat t p.psvr t.inbound) refl e
      where
        came :
            (o : Option PeerServer)
            → take_inbound plat t p.psvr t.inbound ≡ o
            → elim o [
              | none ↦ none
              | some s ↦ end_turn plat (take_typed plat t s (read_typed t p.userbuf))
            ]
              ≡ some q
            → Inv q.psvr
        came none a d = cc
        came (some s) a d =
            typed-Inv s (read_typed t p.userbuf) q
              (inbound-Inv plat t Inv hears p.psvr s t.inbound v a) d

  pub peer_turns-Inv :
      (ts : List Turn) (p q : Program) → Inv p.psvr → peer_turns plat ts p ≡ some q → Inv q.psvr
  unfolding peer_turns
  peer_turns-Inv [] p q v e = subst (λ r. Inv r.psvr) (some_inj e) v
  peer_turns-Inv (t ∷ ts) p q v e = came (peer_turn plat t p) refl (λ r. peer_turns-Inv ts r q) e
    where
      came :
          (o : Option Program)
          → peer_turn plat t p ≡ o
          → ((r : Program) → Inv r.psvr → peer_turns plat ts r ≡ some q → Inv q.psvr)
          → elim o [ none ↦ none | some r ↦ peer_turns plat ts r ] ≡ some q
          → Inv q.psvr
      came none a rest d = cc
      came (some r) a rest d = rest r (peer_turn-Inv t p r v a) d
