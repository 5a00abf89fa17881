-- ===== src/Packet.antt =====
-- src/include/packet.h and `valid_packet` of src/packet.c: the packet, its fields and the test that
-- every received packet passes first.
pub mod Fields
pub mod Send
pub mod Encode
pub mod Roundtrip
pub mod Sent
pub mod Readback
use peer_server.Base.{
  ℕ, ◌+◌, ◌-◌, ◌*◌, ◌/◌, Bool, true, false, not, ◌||◌, List, min, get_or, ltb, ◌==◌, if◌then◌else◌,
}

abbrev pub magic_number : ℕ
magic_number = 15441

abbrev pub version_number : ℕ
version_number = 1

abbrev pub header_size : ℕ
header_size = 16

abbrev pub packet_size : ℕ
packet_size = 1500

abbrev pub max_payload_size : ℕ
max_payload_size = packet_size - header_size

abbrev pub sha1_hash_size : ℕ
sha1_hash_size = 20

-- The packet types.
module _ where
  abbrev pub type_whohas : ℕ
  type_whohas = 0

  abbrev pub type_ihave : ℕ
  type_ihave = 1

  abbrev pub type_get : ℕ
  type_get = 2

  abbrev pub type_data : ℕ
  type_data = 3

  abbrev pub type_ack : ℕ
  type_ack = 4

  abbrev pub type_denied : ℕ
  type_denied = 5

pub record Packet : Type 0 where
  pub magic : ℕ
  pub version : ℕ
  pub type : ℕ
  pub hdr_len : ℕ
  pub pkt_len : ℕ
  pub seq : ℕ
  pub ack : ℕ
  pub payload : List ℕ

-- The macros. Where the source's `int` would be negative (`pkt_len < hdr_len`, `hdr_len < 16`) the
-- difference is 0 here; `valid_packet` refuses such packets before any of these is read.
unfoldable pub get_data_len : Packet → ℕ
get_data_len p = p.pkt_len - p.hdr_len

unfoldable pub max_offset : Packet → ℕ
unfolding get_data_len
max_offset p = get_data_len p - sha1_hash_size

unfoldable pub ext_header_size : Packet → ℕ
ext_header_size p = p.hdr_len - header_size

-- GET_DATA, as the offset into the payload.
unfoldable pub data_offset : Packet → ℕ
unfolding max_offset ext_header_size
data_offset p = min (max_offset p) (ext_header_size p)

unfoldable pub get_data : Packet → ℕ → ℕ
unfolding data_offset
get_data p i = get_or p.payload (data_offset p + i) 0

unfoldable pub get_chunk_cnt : Packet → ℕ
unfolding data_offset
get_chunk_cnt p = get_or p.payload (data_offset p) 0

unfoldable pub hash_offset : Packet → ℕ → ℕ
unfolding max_offset ext_header_size
hash_offset p n =
    min (max_offset p)
      (ext_header_size p + (if p.type == type_get then 0 else 4) + n * sha1_hash_size)

-- The tests of `valid_packet` that depend on the type.
unfoldable pub valid_body : Packet → Bool
unfolding get_data_len get_chunk_cnt
valid_body p =
    if p.type == type_whohas || p.type == type_ihave
    then (if ltb (get_data_len p) 4
        then false
        else if get_chunk_cnt p == 0
            || ltb ((get_data_len p - 4) / sha1_hash_size) (get_chunk_cnt p)
        then false
        else true)
    else if p.type == type_get
    then (if ltb (get_data_len p) sha1_hash_size then false else true)
    else true

unfoldable pub valid_packet : Packet → Bool
unfolding valid_body
valid_packet p =
    if not (p.magic == magic_number)
    then false
    else if not (p.version == version_number)
    then false
    else if ltb p.pkt_len p.hdr_len || ltb p.hdr_len header_size
    then false
    else if ltb packet_size p.pkt_len
    then false
    else valid_body p
