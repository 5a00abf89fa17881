-- ===== src/Server/Inbound.antt =====
-- `process_inbound_udp` of src/peer.c from the datagram on.
use peer_server.Base.{
  ◌⊎◌, Bool-cases, inl, inr, min, leb, ◌==◌, ℕ, suc, ◌+◌, ◌^◌, ◌≤◌, ◌<◌, ◌≡◌, refl, ap, ap₂, sym,
  ◌∙◌, true, Option, none, some, List, [], ◌∷◌, arith, get_or, length,
}
use native.Mathlib.Nat.{zero-add}
use peer_server.Base.Int.{pos, negsuc}
use peer_server.Packet.{Packet}
use peer_server.Packet.Encode.{encode_pkt, decode_pkt, read_bytes}
use peer_server.Packet.Roundtrip.{Fits, Arrives, decode-encode, encode-length}
use peer_server.Platform.{Platform}
use peer_server.Spiffy.{SockAddr, Spiffy, Inbound, spiffy_sendto, spiffy_recvfrom}
use peer_server.Spiffy.Carries.{sent, sendto_lem, recvfrom-Delivered}
use peer_server.Server.{PeerServer}
use peer_server.Server.Handle.{process_inbound_udp}

-- BUFLEN.
abbrev pub buf_len : ℕ
buf_len = 1500

-- `stack` is what the variable `pkt` held. With a negative length DECODE_PKT copies past the end
-- of all memory, which is `none`.
unfoldable pub receive_udp : Platform → PeerServer → (ℕ → ℕ) → Inbound → Option PeerServer
receive_udp plat s stack r = elim (r.ret) [
  | negsuc n ↦ none
  | pos n ↦ some (
      process_inbound_udp plat s (decode_pkt stack (read_bytes r.buffer 0 n))
        (record { sin_addr = r.addr.addr; sin_port = r.addr.port }))
]

bytes-list :
    (mem : ℕ → ℕ) (k : ℕ) (xs : List ℕ)
    → ((i : ℕ) → i < length xs → mem (k + i) ≡ get_or xs i 0)
    → read_bytes mem k (length xs) ≡ xs
unfolding read_bytes
bytes-list mem k [] h = refl
bytes-list mem k (x ∷ xs) h =
    let e : k + 0 ≡ k = omega arith in
    ap₂ ◌∷◌ (rw e at (h 0 (omega arith))) (
      bytes-list mem (k + 1) xs
        (λ i l. let f : k + 1 + i ≡ k + suc i = omega arith in rw f (h (suc i) (omega arith))))

-- The bytes of a call of `sendto`.
abbrev option_bytes : Option (SockAddr × List ℕ) → List ℕ
option_bytes none = []
option_bytes (some (to, bytes)) = bytes

module _ (plat : Platform) (s : PeerServer) (stack heap : ℕ → ℕ) (g g_r : Spiffy)
    (on : g.enabled ≡ true) (on_r : g_r.enabled ≡ true) (a : g.src_addr < 2 ^ 32)
    (b : g.src_port < 65536) where
  -- With the router on at both ends, a packet whose fields lie in their ranges and whose length
  -- fits is handled by the receiver as one that came from the sender's address, with the same
  -- fields and the same payload.
  pub receive-sendto :
      (p : Packet) (to from router : SockAddr) (datagram : List ℕ) (buffer : ℕ → ℕ)
      (addr : SockAddr)
      → Fits p
      → to.is_inet ≡ true
      → spiffy_sendto g true (encode_pkt p) to ≡ some (router, datagram)
      → (q : Packet) × Arrives p q
        × (receive_udp plat s stack
              (spiffy_recvfrom g_r heap buf_len (some (from, datagram)) buffer addr)
            ≡ some (
                process_inbound_udp plat s q
                  (record { sin_addr = g.src_addr; sin_port = g.src_port })))
  unfolding receive_udp
  receive-sendto p to from router datagram buffer addr f inet e =
      let same : datagram ≡ sent g (encode_pkt p) to =
        ap (option_bytes) (sym e ∙ sendto_lem g (encode_pkt p) to on inet) in
      let room : length (encode_pkt p) ≤ 1500 = omega (arith, encode-length p f, f.room) in
      let d = recvfrom-Delivered g (encode_pkt p) to heap 1500 room g_r from buffer addr on_r a b in
      let in_buffer =
        (spiffy_recvfrom g_r heap 1500 (some (from, sent g (encode_pkt p) to)) buffer
          addr).buffer in
      (
        decode_pkt stack (encode_pkt p),
        decode-encode stack p f,
        rw
            (
              same,
              d.ret,
              bytes-list in_buffer 0 (encode_pkt p) (λ i l. rw (zero-add i) (d.bytes i l)),
              d.addr,
              d.port,
            )
            refl,
      )

module _ (plat : Platform) (s : PeerServer) (stack heap buffer : ℕ → ℕ) (g : Spiffy)
    (on : g.enabled ≡ true) (addr : SockAddr) where
  abbrev handled : Option (SockAddr × List ℕ) → Option PeerServer
  handled o = receive_udp plat s stack (spiffy_recvfrom g heap buf_len o buffer addr)

  -- With the router on, a call of `recvfrom` that fails, and a datagram of 1 to 15 bytes, which is
  -- shorter than the router's header, make `process_inbound_udp` copy past the end of memory; an
  -- empty datagram, and one of 16 bytes or more, are handled.
  pub receive_udp-fault :
      (handled none ≡ none)
      × ((from : SockAddr) (datagram : List ℕ)
          → ((handled (some (from, datagram)) ≡ none)
              × (0 < length datagram)
              × (length datagram < 16))
            ⊎ ((out : PeerServer) × (handled (some (from, datagram)) ≡ some out)
                × ((length datagram ≡ 0) ⊎ (16 ≤ length datagram))))
  unfolding receive_udp spiffy_recvfrom
  receive_udp-fault = (
    refl,
    λ from d. elim (Bool-cases (min 1516 (length d) == 0)) [
      | inl x ↦ inr (rw (on, x) (_, refl, inl (ground arith)))
      | inr x ↦ elim (Bool-cases (leb 16 (min 1516 (length d)))) [
        | inl y ↦ inr (rw (on, x, y) (_, refl, inr (ground arith)))
        | inr y ↦ inl (rw (on, x, y) (refl, ground arith, ground arith))
      ]
    ],
  )
