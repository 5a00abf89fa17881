-- ===== src/Transfer/Wire.antt =====
-- The packets that the two ends send, as they arrive.
use peer_server.Base.{
  ℕ, ◌^◌, zero, suc, ◌+◌, ◌-◌, ◌*◌, ◌≤◌, ◌<◌, ◌≡◌, refl, ap, ◌∙◌, [], ◌∷◌, arith, length, get_or,
}
use native.Mathlib.Nat.{zero-add}
use peer_server.Base.Int.{pos}
use peer_server.Chunklist.{ChunkList}
use peer_server.Packet.{Packet, get_data_len, get_data, data_offset, type_ack}
use peer_server.Packet.Encode.{encode_pkt, decode_pkt}
use peer_server.Packet.Roundtrip.{Fits, decode-encode, Arrives-data_len, Arrives-data}
use peer_server.Packet.Send.{packets_of, plain_packet, data_packets, copy_bytes}
use peer_server.Platform.{PktParam, pkt_param_clear}
use peer_server.Download.Content.{IsData}
use peer_server.Upload.{Upload, data_param, byte_at}

length-copy_bytes : (bytes : ℕ → ℕ) (n i : ℕ) → length (copy_bytes bytes n i) ≡ n
unfolding copy_bytes
length-copy_bytes bytes zero i = refl
length-copy_bytes bytes (suc n) i = ap suc (length-copy_bytes bytes n (i + 1))

get_or-copy_bytes :
    (bytes : ℕ → ℕ) (n i k : ℕ) → k < n → get_or (copy_bytes bytes n i) k 0 ≡ bytes (i + k)
unfolding copy_bytes
get_or-copy_bytes bytes zero i k h = absurd (omega arith)
get_or-copy_bytes bytes (suc n) i zero h = ap bytes (omega arith)
get_or-copy_bytes bytes (suc n) i (suc k) h =
    get_or-copy_bytes bytes n (i + 1) k (omega arith) ∙ ap bytes (omega arith)

-- A call of `send_packet` that the upload of this chunk makes.
pub record IsPiece (chunk : ℕ → ℕ) (p : PktParam) : Type 0 where
  pub from : Upload
  pub seq : ℕ
  pub first : 1 ≤ seq
  pub last : seq ≤ 512
  pub bytes : (i : ℕ) → i < 524288 → byte_at from.data_ptr i ≡ chunk i
  pub call : p ≡ data_param from seq

-- The DATA packet of such a call.
abbrev pub piece : Upload → ℕ → Packet
piece ul seq =
    plain_packet (data_param ul seq)
      (copy_bytes (λ i. byte_at ul.data_ptr ((seq - 1) * 1024 + i)) 1024 0)

pub packets-data_param :
    (stack : ℕ → ℕ) (getchunks : ChunkList) (ul : Upload) (seq : ℕ)
    → packets_of stack getchunks (data_param ul seq) ≡ piece ul seq ∷ []
unfolding packets_of data_packets data_param pkt_param_clear
packets-data_param stack getchunks ul seq = refl

piece_data :
    (ul : Upload) (seq i : ℕ)
    → i < 1024
    → get_data (piece ul seq) i ≡ byte_at ul.data_ptr ((seq - 1) * 1024 + i)
unfolding get_data plain_packet data_param pkt_param_clear
piece_data ul seq i h =
    rw (length-copy_bytes (λ k. byte_at ul.data_ptr ((seq - 1) * 1024 + k)) 1024 0, zero-add i)
      (get_or-copy_bytes (λ k. byte_at ul.data_ptr ((seq - 1) * 1024 + k)) 1024 0 i h
        ∙ ap (λ k. byte_at ul.data_ptr ((seq - 1) * 1024 + k)) (zero-add i))

piece_len : (ul : Upload) (seq : ℕ) → get_data_len (piece ul seq) ≡ 1024
unfolding get_data_len plain_packet data_param pkt_param_clear
piece_len ul seq =
    rw (length-copy_bytes (λ k. byte_at ul.data_ptr ((seq - 1) * 1024 + k)) 1024 0) refl

piece_seq : (ul : Upload) (seq : ℕ) → (piece ul seq).seq ≡ seq
unfolding plain_packet data_param pkt_param_clear
piece_seq ul seq = refl

piece-IsData :
    (chunk : ℕ → ℕ) (p : PktParam) (e : IsPiece chunk p) → IsData chunk (piece e.from e.seq)
piece-IsData chunk p e = record {
  first = rw (piece_seq e.from e.seq) e.first;
  last = rw (piece_seq e.from e.seq) e.last;
  len = piece_len e.from e.seq;
  bytes = λ i h.
      piece_data e.from e.seq i h
      ∙ rw (piece_seq e.from e.seq)
          (e.bytes ((e.seq - 1) * 1024 + i) (omega (arith, e.first, e.last)));
}

-- The call of `send_packet` that acknowledges packet `ack`.
unfoldable pub ack_param : ℕ → ℕ → PktParam
unfolding pkt_param_clear
ack_param p_index ack = record pkt_param_clear {
  p_index = pos p_index;
  p_count = pos 1;
  ack = ack;
  type = type_ack;
}

-- A call of `send_packet` that a download makes before the packet `next` has come.
pub record IsAck (next : ℕ) (p : PktParam) : Type 0 where
  pub to : ℕ
  pub ack : ℕ
  pub low : ack < next
  pub call : p ≡ ack_param to ack

pub packets-ack_param :
    (stack : ℕ → ℕ) (getchunks : ChunkList) (to ack : ℕ)
    → packets_of stack getchunks (ack_param to ack) ≡ plain_packet (ack_param to ack) [] ∷ []
unfolding packets_of data_packets ack_param
packets-ack_param stack getchunks to ack = refl

ack_seq : (to ack : ℕ) → (plain_packet (ack_param to ack) []).ack ≡ ack
unfolding plain_packet ack_param
ack_seq to ack = refl

-- Both kinds of packet survive the way over the network.
piece-Fits : (ul : Upload) (seq : ℕ) → seq ≤ 512 → Fits (piece ul seq)
unfolding plain_packet data_param pkt_param_clear
piece-Fits ul seq h =
    let n = length-copy_bytes (λ k. byte_at ul.data_ptr ((seq - 1) * 1024 + k)) 1024 0 in
    record {
      magic = omega arith;
      version = omega arith;
      type = omega arith;
      hdr_len = omega arith;
      pkt_len = rw n refl;
      room = omega (arith, n);
      seq = omega arith;
      ack = omega arith;
    }

piece_offset : (ul : Upload) (seq : ℕ) → data_offset (piece ul seq) ≡ 0
unfolding data_offset plain_packet
piece_offset ul seq = omega arith

piece_room :
    (ul : Upload) (seq i : ℕ)
    → i < 1024
    → data_offset (piece ul seq) + i < length (piece ul seq).payload
unfolding plain_packet
piece_room ul seq i h =
    rw
      (
        piece_offset ul seq,
        length-copy_bytes (λ k. byte_at ul.data_ptr ((seq - 1) * 1024 + k)) 1024 0,
      )
      (omega arith)

pub arrived-IsData :
    (chunk : ℕ → ℕ) (p : PktParam) (e : IsPiece chunk p) (stack : ℕ → ℕ)
    → IsData chunk (decode_pkt stack (encode_pkt (piece e.from e.seq)))
arrived-IsData chunk p e stack =
    let d = piece-IsData chunk p e in
    let a = decode-encode stack (piece e.from e.seq) (piece-Fits e.from e.seq e.last) in
    record {
      first = rw a.seq d.first;
      last = rw a.seq d.last;
      len = Arrives-data_len a ∙ d.len;
      bytes = λ i h. Arrives-data a i (piece_room e.from e.seq i h) ∙ d.bytes i h ∙ rw a.seq refl;
    }

pub arrived_seq :
    (ul : Upload) (seq : ℕ) (stack : ℕ → ℕ)
    → seq ≤ 512
    → (decode_pkt stack (encode_pkt (piece ul seq))).seq ≡ seq
arrived_seq ul seq stack h =
    (decode-encode stack (piece ul seq) (piece-Fits ul seq h)).seq ∙ piece_seq ul seq

ack-Fits : (to ack : ℕ) → ack < 2 ^ 32 → Fits (plain_packet (ack_param to ack) [])
unfolding plain_packet ack_param
ack-Fits to ack h = record {
  magic = omega arith;
  version = omega arith;
  type = omega arith;
  hdr_len = omega arith;
  pkt_len = refl;
  room = omega arith;
  seq = omega arith;
  ack = h;
}

pub arrived_ack :
    (to ack : ℕ) (stack : ℕ → ℕ)
    → ack < 2 ^ 32
    → (decode_pkt stack (encode_pkt (plain_packet (ack_param to ack) []))).ack ≡ ack
arrived_ack to ack stack h =
    (decode-encode stack (plain_packet (ack_param to ack) []) (ack-Fits to ack h)).ack
    ∙ ack_seq to ack
