-- ===== src/Packet/Send.antt =====
-- `send_packet` of src/packet.c: the packets that one call sends, and to whom. The bytes of the
-- payload that no statement writes are those found on the stack, which are an argument.
use peer_server.Base.{
  ℕ, zero, suc, ◌+◌, ◌-◌, ◌*◌, ◌/◌, ◌%◌, Bool, true, false, ◌||◌, not, none, some, List, [], ◌∷◌,
  ◌++◌, min, max, ltb, ◌==◌, if◌then◌else◌, length, take,
}
use peer_server.Base.Int.{ℤ, pos, negsuc, pos_part}
use peer_server.Chunk.{hex2binary}
use peer_server.Chunklist.{ChunkList, is_unfetched}
use peer_server.Platform.{PktParam}
use peer_server.Packet.{
  Packet, magic_number, version_number, header_size, max_payload_size, sha1_hash_size, type_whohas,
  type_ihave, type_get, type_data, type_ack, type_denied,
}

-- HASH_NUM_PKT.
abbrev pub hash_num_pkt : ℕ
hash_num_pkt = (max_payload_size - 4) / sha1_hash_size

abbrev pub nondata : ℕ → Bool
nondata type = type == type_whohas || type == type_ihave || type == type_get || type == type_denied

-- The number of packets for `c_count` chunks.
unfoldable pub pkt_num : ℕ → ℕ
pkt_num c_count = (c_count * sha1_hash_size + max_payload_size - 1) / max_payload_size

-- A hash in bytes, as SET_HASH writes it; the string of a hash has 40 characters.
abbrev pub hash_bytes : ChunkList → ℕ → List ℕ
hash_bytes c i = hex2binary (take 40 (c.chunks i).sha1)

-- The loop over the chunks of one packet, from `j` on: the hashes that are written, one behind the
-- other. A WHOHAS packet names only the chunks that are unfetched in `psvr.getchunks`.
unfoldable pub pick_hashes : ChunkList → ℕ → ChunkList → ℕ → ℕ → ℕ → List (List ℕ)
pick_hashes getchunks type c c_index zero j = []
pick_hashes getchunks type c c_index (suc left) j =
    let rest = pick_hashes getchunks type c c_index left (j + 1) in
    let wanted = is_unfetched (getchunks.chunks (c_index + j)).state in
    let hash = hash_bytes c (c_index + j) in
    if type == type_whohas
    then (if wanted then hash ∷ rest else rest)
    else if type == type_ihave || type == type_get
    then hash ∷ rest
    else rest

-- The hashes of each packet, from packet `i` on; `j` goes on from one packet to the next.
unfoldable pub hash_rounds : ChunkList → ℕ → ChunkList → ℕ → ℕ → ℕ → ℕ → ℕ → List (List (List ℕ))
hash_rounds getchunks type c c_index c_count zero i j = []
hash_rounds getchunks type c c_index c_count (suc left) i j =
    let limit = min c_count (hash_num_pkt * (i + 1)) in
    pick_hashes getchunks type c c_index (limit - j) j
    ∷ hash_rounds getchunks type c c_index c_count left (i + 1) (max j limit)

unfoldable pub concat_bytes : List (List ℕ) → List ℕ
concat_bytes [] = []
concat_bytes (h ∷ hs) = h ++ concat_bytes hs

-- A packet of hashes. GET has no count in front of them.
unfoldable pub hash_packet : (ℕ → ℕ) → ℕ → List (List ℕ) → Packet
hash_packet stack type hashes = record {
  magic = magic_number;
  version = version_number;
  type = type;
  hdr_len = header_size;
  pkt_len =
      (header_size + (if type == type_get then 0 else 4) + sha1_hash_size * length hashes) % 65536;
  seq = 0;
  ack = 0;
  payload =
      if type == type_get
      then concat_bytes hashes
      else length hashes % 256 ∷ stack 1 ∷ stack 2 ∷ stack 3 ∷ concat_bytes hashes;
}

unfoldable pub hash_packets : (ℕ → ℕ) → ℕ → List (List (List ℕ)) → List Packet
hash_packets stack type [] = []
hash_packets stack type (hashes ∷ rounds) =
    hash_packet stack type hashes ∷ hash_packets stack type rounds

unfoldable pub copy_bytes : (ℕ → ℕ) → ℕ → ℕ → List ℕ
copy_bytes payload zero i = []
copy_bytes payload (suc left) i = payload i ∷ copy_bytes payload left (i + 1)

-- A packet without hashes, which is DATA or ACK, or any without a chunk list.
unfoldable pub plain_packet : PktParam → List ℕ → Packet
plain_packet pp payload = record {
  magic = magic_number;
  version = version_number;
  type = pp.type;
  hdr_len = header_size;
  pkt_len = (header_size + length payload) % 65536;
  seq = if pp.type == type_data then pp.seq else 0;
  ack = if pp.type == type_ack then pp.ack else 0;
  payload = payload;
}

-- A payload that is too big is not sent at all.
unfoldable pub data_packets : PktParam → List Packet
data_packets pp = elim (pp.payload) [
  | none ↦ plain_packet pp [] ∷ []
  | some bytes ↦
      if not (pp.type == type_data)
      then plain_packet pp [] ∷ []
      else if ltb max_payload_size pp.payload_size
      then []
      else plain_packet pp (copy_bytes bytes pp.payload_size 0) ∷ []
]

abbrev pub is_negative : ℤ → Bool
is_negative (pos n) = false
is_negative (negsuc n) = true

-- A negative number of chunks means all of the list.
unfoldable pub chunk_packets : (ℕ → ℕ) → ChunkList → PktParam → ChunkList → List Packet
chunk_packets stack getchunks pp c =
    let c_count = if is_negative pp.c_count then c.count else pos_part pp.c_count in
    if nondata pp.type
    then hash_packets stack pp.type
        (hash_rounds getchunks pp.type c (pos_part pp.c_index) c_count (pkt_num c_count) 0 0)
    else data_packets pp

unfoldable pub packets_of : (ℕ → ℕ) → ChunkList → PktParam → List Packet
packets_of stack getchunks pp =
    if is_negative pp.p_index || is_negative pp.c_index
    then []
    else elim (pp.c) [ none ↦ data_packets pp | some c ↦ chunk_packets stack getchunks pp c ]

-- `send_udp`: the packet goes to `count` peers, from number `i` on.
unfoldable pub send_udp : ℕ → ℕ → Packet → List (ℕ × Packet)
send_udp zero i pkt = []
send_udp (suc count) i pkt = (i, pkt) ∷ send_udp count (i + 1) pkt

unfoldable pub send_all : ℕ → ℕ → List Packet → List (ℕ × Packet)
send_all count i [] = []
send_all count i (pkt ∷ pkts) = send_udp count i pkt ++ send_all count i pkts

-- The datagrams of one call, in order. A negative number of peers means all of them.
unfoldable pub send_packet : (ℕ → ℕ) → ChunkList → ℕ → PktParam → List (ℕ × Packet)
send_packet stack getchunks peer_count pp =
    let p_count = if is_negative pp.p_count then peer_count else pos_part pp.p_count in
    send_all p_count (pos_part pp.p_index) (packets_of stack getchunks pp)
