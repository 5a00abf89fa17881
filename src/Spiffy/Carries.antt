-- ===== src/Spiffy/Carries.antt =====
-- A datagram by way of the router, from `spiffy_sendto` to `spiffy_recvfrom`.
use peer_server.Base.{
  ℕ, ◌+◌, ◌^◌, ◌≤◌, ◌<◌, ◌≡◌, refl, ap, ◌∙◌, true, false, some, List, ◌++◌, arith, ltb, leb, ◌==◌,
  min, get_or, length,
}
use peer_server.Base.Int.{pos, sub_ℕ}
use peer_server.Packet.Roundtrip.{get_or-drop}
use peer_server.Spiffy.{
  SockAddr, Spiffy, Inbound, header_bytes, read_header, header_to, newbuf, spiffy_sendto,
  spiffy_recvfrom,
}

sub_header : (n : ℕ) → sub_ℕ (16 + n) 16 ≡ pos n
sub_header n = let e : leb 16 (16 + n) ≡ true = ground arith in rw e (ap pos (omega arith))

module _ (g : Spiffy) (msg : List ℕ) (to : SockAddr) where
  abbrev pub sent : List ℕ
  sent = header_bytes (header_to g to) ++ msg

  pub sendto_lem :
      g.enabled ≡ true → to.is_inet ≡ true → spiffy_sendto g true msg to ≡ some (g.router, sent)
  unfolding spiffy_sendto
  sendto_lem e f = rw (e, f) refl

  length-sent : length sent ≡ 16 + length msg
  unfolding header_bytes
  length-sent = omega arith

  module _ (heap : ℕ → ℕ) (size : ℕ) (fits : length msg ≤ size) where
    abbrev mem : ℕ → ℕ
    mem = newbuf heap (size + 16) sent

    mem_in : (i : ℕ) → i < 16 + length msg → mem i ≡ get_or sent i 0
    unfolding newbuf
    mem_in i h =
        let e : ltb i (min (size + 16) (length sent)) ≡ true = ground (arith, length-sent) in
        rw e refl

    message : (i : ℕ) → i < length msg → mem (16 + i) ≡ get_or msg i 0
    unfolding header_bytes
    message i h = mem_in (16 + i) (omega arith) ∙ get_or-drop sent 16 i

    source :
        g.src_addr < 2 ^ 32
        → g.src_port < 65536
        → ((read_header mem).src_addr ≡ g.src_addr) × ((read_header mem).src_port ≡ g.src_port)
    unfolding read_header header_bytes header_to
    source a p = (
      rw
          (
            mem_in 4 (omega arith),
            mem_in 5 (omega arith),
            mem_in 6 (omega arith),
            mem_in 7 (omega arith),
          )
          (omega arith),
      rw (mem_in 12 (omega arith), mem_in 13 (omega arith)) (omega arith),
    )

    -- What the receiver reads of it.
    pub record Delivered (r : Inbound) : Type 0 where
      pub ret : r.ret ≡ pos (length msg)
      pub bytes : (i : ℕ) → i < length msg → r.buffer i ≡ get_or msg i 0
      pub inet : r.addr.is_inet ≡ true
      pub addr : r.addr.addr ≡ g.src_addr
      pub port : r.addr.port ≡ g.src_port

    -- With the router on, a message that fits the receiver's buffer is delivered whole, under the
    -- sender's address and port.
    pub recvfrom-Delivered :
        (g_r : Spiffy) (from : SockAddr) (buffer : ℕ → ℕ) (addr : SockAddr)
        → g_r.enabled ≡ true
        → g.src_addr < 2 ^ 32
        → g.src_port < 65536
        → Delivered (spiffy_recvfrom g_r heap size (some (from, sent)) buffer addr)
    unfolding spiffy_recvfrom
    recvfrom-Delivered g_r from buffer addr e a p =
        let got : min (size + 16) (length sent) ≡ 16 + length msg = omega (arith, length-sent) in
        let some_bytes : (min (size + 16) (length sent) == 0) ≡ false = ground (arith, got) in
        rw (e, some_bytes)
          (record {
            ret = rw got (sub_header (length msg));
            bytes = λ i h. ground (arith, message i h);
            inet = refl;
            addr = (source a p).0;
            port = (source a p).1;
          })
