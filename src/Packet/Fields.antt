-- ===== src/Packet/Fields.antt =====
-- What a packet that passes `valid_packet` guarantees to the code that reads its fields.
use peer_server.Base.{ℕ, ◌+◌, ◌*◌, ◌≤◌, ◌<◌, ◌≡◌, true, arith}
use peer_server.Packet.{
  Packet, valid_packet, get_data_len, ext_header_size, data_offset, get_chunk_cnt, hash_offset,
}

-- In a valid packet every hash, whatever its number, and all the data lie inside the payload array
-- of 1484 bytes.
pub valid-in_bounds :
    (p : Packet) (n : ℕ)
    → valid_packet p ≡ true
    → (hash_offset p n + 20 ≤ 1484)
      × (data_offset p + get_data_len p ≤ 1484)
      × (data_offset p < 1484)
unfolding valid_packet hash_offset data_offset
valid-in_bounds p n h = ground arith

-- Without an extended header the hashes that a valid WHOHAS or IHAVE packet counts lie one after
-- the other behind the count, and within the data.
valid-hash_offset :
    (p : Packet) (n : ℕ)
    → valid_packet p ≡ true
    → p.hdr_len ≡ 16
    → p.type < 2
    → n < get_chunk_cnt p
    → (hash_offset p n ≡ 4 + n * 20) × (hash_offset p n + 20 ≤ get_data_len p)
unfolding valid_packet hash_offset data_offset
valid-hash_offset p n h e t c = ground arith

-- In a valid WHOHAS or IHAVE packet with an extended header and room for exactly `n + 1` hashes,
-- the last hash is read from in front of its place.
pub extended-hash_offset :
    (p : Packet) (n : ℕ)
    → valid_packet p ≡ true
    → 16 < p.hdr_len
    → p.type < 2
    → get_data_len p ≡ 4 + (n + 1) * 20
    → hash_offset p n < ext_header_size p + 4 + n * 20
unfolding valid_packet hash_offset data_offset
extended-hash_offset p n h e t c = ground arith
