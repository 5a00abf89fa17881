-- ===== src/Spiffy.antt =====
-- src/spiffy.c: datagrams by way of a router that simulates a network. Addresses and ports are
-- kept in network order, as the numbers that the host reads; the host is little-endian. What
-- `malloc`, `getenv`, `inet_aton`, `atoi` and `recvfrom` answer are arguments.
pub mod Carries
use peer_server.Base.{
  ℕ, zero, suc, ◌+◌, ◌*◌, ◌/◌, ◌%◌, Bool, true, false, not, Option, none, some, List, [], ◌∷◌, ◌++◌,
  get_or, drop, length, ◌==◌, if◌then◌else◌, min, ltb, ◌-◌,
}
use peer_server.Base.Int.{ℤ, pos, negsuc, sub_ℕ}
use peer_server.Packet.Encode.{htons, htonl, le16, le32, read16, read32}

-- `struct sockaddr_in`.
pub record SockAddr : Type 0 where
  pub is_inet : Bool
  pub addr : ℕ
  pub port : ℕ

pub record SpiffyHeader : Type 0 where
  pub id : ℕ
  pub src_addr : ℕ
  pub dest_addr : ℕ
  pub src_port : ℕ
  pub dest_port : ℕ

-- The globals of the file.
pub record Spiffy : Type 0 where
  pub enabled : Bool
  pub node_id : ℕ
  pub src_addr : ℕ
  pub src_port : ℕ
  pub router : SockAddr

-- A C string up to the first ':', and what is behind it.
unfoldable pub split_colon : List ℕ → Option (List ℕ × List ℕ)
split_colon [] = none
split_colon (c ∷ cs) =
    let rest = split_colon cs in
    if c == 58
    then some ([], cs)
    else elim rest [ none ↦ none | some (name, port) ↦ some (c ∷ name, port) ]

-- The low 16 bits of an `int`.
unfoldable pub low16 : ℤ → ℕ
low16 (pos n) = n % 65536
low16 (negsuc n) = 65535 - n % 65536

-- The result code, and the globals.
unfoldable pub spiffy_init :
    (List ℕ → Option ℕ) → (List ℕ → ℤ) → Option (List ℕ) → ℕ → SockAddr → Spiffy → ℤ × Spiffy
spiffy_init inet_aton atoi none node_id addr g = (pos 1, g)
spiffy_init inet_aton atoi (some name) node_id addr g = elim (split_colon name) [
  | none ↦ (negsuc 0, g)
  | some (host, port) ↦
      let g' = record g { router = record (g.router) { port = htons (low16 (atoi port)) } } in
      elim (inet_aton host) [
        | none ↦ (negsuc 0, g')
        | some ip ↦ (
          pos 0,
          record g' {
            enabled = true;
            node_id = node_id;
            src_addr = addr.addr;
            src_port = addr.port;
            router = record (g'.router) { addr = ip };
          },
        )
      ]
]

-- The header in memory; the fields have 32 and 16 bits.
unfoldable pub header_bytes : SpiffyHeader → List ℕ
header_bytes h =
    le32 h.id (le32 h.src_addr (le32 h.dest_addr (le16 h.src_port (le16 h.dest_port []))))

unfoldable pub read_header : (ℕ → ℕ) → SpiffyHeader
read_header mem = record {
  id = read32 mem 0;
  src_addr = read32 mem 4;
  dest_addr = read32 mem 8;
  src_port = read16 mem 12;
  dest_port = read16 mem 14;
}

abbrev pub spiffy_header_size : ℕ
spiffy_header_size = 16

-- The header of a message to this address.
unfoldable pub header_to : Spiffy → SockAddr → SpiffyHeader
header_to g to = record {
  id = htonl g.node_id;
  src_addr = g.src_addr;
  dest_addr = to.addr;
  src_port = g.src_port;
  dest_port = to.port;
}

-- The call of `sendto` that `spiffy_sendto` makes, if it makes one: to whom, and the bytes. `room`
-- tells whether `malloc` succeeds.
unfoldable pub spiffy_sendto : Spiffy → Bool → List ℕ → SockAddr → Option (SockAddr × List ℕ)
spiffy_sendto g room msg to =
    if not g.enabled
    then some (to, msg)
    else if not room
    then none
    else if to.is_inet
    then some (g.router, header_bytes (header_to g to) ++ msg)
    else none

-- What `spiffy_recvfrom` returns, the buffer, and the address that it fills in.
pub record Inbound : Type 0 where
  pub ret : ℤ
  pub buffer : ℕ → ℕ
  pub addr : SockAddr

-- The bytes of `newbuf`: what `recvfrom` has written, at most `room` bytes, and what `malloc` left
-- there.
unfoldable pub newbuf : (ℕ → ℕ) → ℕ → List ℕ → ℕ → ℕ
newbuf heap room datagram i =
    if ltb i (min room (length datagram)) then get_or datagram i 0 else heap i

-- `recvfrom` fails, or returns a datagram and its sender; a datagram that is too long is cut.
-- `buffer` and `addr` are what the caller's variables held.
unfoldable pub spiffy_recvfrom :
    Spiffy → (ℕ → ℕ) → ℕ → Option (SockAddr × List ℕ) → (ℕ → ℕ) → SockAddr → Inbound
spiffy_recvfrom g heap size none buffer addr = record {
  ret = negsuc 0;
  buffer = buffer;
  addr = addr;
}
spiffy_recvfrom g heap size (some (from, datagram)) buffer addr =
    if not g.enabled
    then record {
      ret = pos (min size (length datagram));
      buffer = λ i. newbuf buffer size datagram i;
      addr = from;
    }
    else let got = min (size + spiffy_header_size) (length datagram) in
      let mem = newbuf heap (size + spiffy_header_size) datagram in
      let head = read_header mem in
      if got == 0 then record { ret = pos 0; buffer = buffer; addr = addr } else record {
        ret = sub_ℕ got spiffy_header_size;
        buffer = λ i. if ltb i size then mem (spiffy_header_size + i) else buffer i;
        addr = record { is_inet = true; addr = head.src_addr; port = head.src_port };
      }
