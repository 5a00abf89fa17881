-- ===== src/Packet/Encode.antt =====
-- ENCODE_PKT and DECODE_PKT of src/include/packet.h: a packet as the bytes of a datagram, on a
-- little-endian host. The struct has no padding: sixteen bytes of fields, then the payload.
use peer_server.Base.{
  ℕ, zero, suc, ◌+◌, ◌*◌, ◌/◌, ◌%◌, List, [], ◌∷◌, ltb, get_or, take, length, if◌then◌else◌,
}
use peer_server.Packet.{Packet, max_payload_size, header_size}

-- The bytes of a field change places; `ntohs` and `ntohl` are the same functions.
unfoldable pub htons : ℕ → ℕ
htons v = v % 256 * 256 + v / 256 % 256

unfoldable pub htonl : ℕ → ℕ
htonl v = v % 256 * 16777216 + v / 256 % 256 * 65536 + v / 65536 % 256 * 256 + v / 16777216 % 256

unfoldable pub swap_fields : Packet → Packet
swap_fields p = record p {
  magic = htons p.magic;
  hdr_len = htons p.hdr_len;
  pkt_len = htons p.pkt_len;
  seq = htonl p.seq;
  ack = htonl p.ack;
}

-- The bytes of the struct in memory.
abbrev pub le16 : ℕ → List ℕ → List ℕ
le16 v rest = v % 256 ∷ v / 256 % 256 ∷ rest

abbrev pub le32 : ℕ → List ℕ → List ℕ
le32 v rest = v % 256 ∷ v / 256 % 256 ∷ v / 65536 % 256 ∷ v / 16777216 % 256 ∷ rest

unfoldable pub struct_bytes : Packet → List ℕ
struct_bytes p = le16 p.magic (
    p.version % 256
    ∷ p.type % 256
    ∷ le16 p.hdr_len (le16 p.pkt_len (le32 p.seq (le32 p.ack p.payload))))

unfoldable pub encode_pkt : Packet → List ℕ
encode_pkt p = let q = swap_fields p in take (htons q.pkt_len) (struct_bytes q)

abbrev pub read16 : (ℕ → ℕ) → ℕ → ℕ
read16 mem i = mem i + mem (i + 1) * 256

abbrev pub read32 : (ℕ → ℕ) → ℕ → ℕ
read32 mem i = mem i + mem (i + 1) * 256 + mem (i + 2) * 65536 + mem (i + 3) * 16777216

unfoldable pub read_bytes : (ℕ → ℕ) → ℕ → ℕ → List ℕ
read_bytes mem i zero = []
read_bytes mem i (suc n) = mem i ∷ read_bytes mem (i + 1) n

-- The struct that lies in the memory.
unfoldable pub struct_of : (ℕ → ℕ) → Packet
struct_of mem = record {
  magic = read16 mem 0;
  version = mem 2;
  type = mem 3;
  hdr_len = read16 mem 4;
  pkt_len = read16 mem 6;
  seq = read32 mem 8;
  ack = read32 mem 12;
  payload = read_bytes mem header_size max_payload_size;
}

-- `memcpy` of the bytes received: behind them the struct holds what was on the stack.
unfoldable pub received : (ℕ → ℕ) → List ℕ → ℕ → ℕ
received stack buf i = if ltb i (length buf) then get_or buf i 0 else stack i

unfoldable pub decode_pkt : (ℕ → ℕ) → List ℕ → Packet
decode_pkt stack buf = swap_fields (struct_of (received stack buf))
