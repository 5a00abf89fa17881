-- ===== src/Packet/Roundtrip.antt =====
-- A packet that is encoded, sent and decoded again.
use peer_server.Base.{
  ℕ, zero, suc, ◌+◌, ◌*◌, ◌/◌, ◌%◌, ◌^◌, ◌≤◌, ◌<◌, ◌≡◌, refl, ap, ◌∙◌, List, [], ◌∷◌, arith, get_or,
  take, drop, length,
}
use peer_server.Packet.{Packet, get_data_len, data_offset, get_data}
use peer_server.Packet.Encode.{
  htons, htonl, swap_fields, struct_bytes, encode_pkt, read_bytes, struct_of, received, decode_pkt,
}

-- The fields lie in the range of their types, and `pkt_len` counts the header and the payload.
pub record Fits (p : Packet) : Type 0 where
  pub magic : p.magic < 65536
  pub version : p.version < 256
  pub type : p.type < 256
  pub hdr_len : p.hdr_len < 65536
  pub pkt_len : p.pkt_len ≡ 16 + length p.payload
  pub room : length p.payload ≤ 1484
  pub seq : p.seq < 2 ^ 32
  pub ack : p.ack < 2 ^ 32

htons-htons : (v : ℕ) → v < 65536 → htons (htons v) ≡ v
unfolding htons
htons-htons v h = omega arith

htons_read : (v : ℕ) → htons v % 256 + htons v / 256 % 256 * 256 ≡ htons v
unfolding htons
htons_read v = omega arith

htonl_read :
    (v : ℕ)
    → htonl v % 256
        + htonl v / 256 % 256 * 256
        + htonl v / 65536 % 256 * 65536
        + htonl v / 16777216 % 256 * 16777216
      ≡ htonl v
unfolding htonl
htonl_read v = omega arith

htonl-htonl : (v : ℕ) → v < 2 ^ 32 → htonl (htonl v) ≡ v
unfolding htonl
htonl-htonl v h = omega arith

take-length {ℓ} : {A : Type ℓ} (xs : List A) → take (length xs) xs ≡ xs
take-length [] = refl
take-length (x ∷ xs) = ap (λ ys. x ∷ ys) (take-length xs)

get_or-read_bytes :
    (mem : ℕ → ℕ) (i n k : ℕ) → k < n → get_or (read_bytes mem i n) k 0 ≡ mem (i + k)
unfolding read_bytes
get_or-read_bytes mem i zero k h = absurd (omega arith)
get_or-read_bytes mem i (suc n) zero h = ap mem (omega arith)
get_or-read_bytes mem i (suc n) (suc k) h =
    get_or-read_bytes mem (i + 1) n k (omega arith) ∙ ap mem (omega arith)

received_in :
    (stack : ℕ → ℕ) (buf : List ℕ) (i : ℕ) → i < length buf → received stack buf i ≡ get_or buf i 0
unfolding received
received_in stack buf i h = ground arith

-- A field from its bytes.
field16 :
    (mem : ℕ → ℕ) (i v : ℕ)
    → v < 65536
    → mem i ≡ htons v % 256
    → mem (i + 1) ≡ htons v / 256 % 256
    → htons (mem i + mem (i + 1) * 256) ≡ v
field16 mem i v h a b = rw (a, b, htons_read v) (htons-htons v h)

field32 :
    (mem : ℕ → ℕ) (i v : ℕ)
    → v < 2 ^ 32
    → mem i ≡ htonl v % 256
    → mem (i + 1) ≡ htonl v / 256 % 256
    → mem (i + 2) ≡ htonl v / 65536 % 256
    → mem (i + 3) ≡ htonl v / 16777216 % 256
    → htonl (mem i + mem (i + 1) * 256 + mem (i + 2) * 65536 + mem (i + 3) * 16777216) ≡ v
field32 mem i v h a b c d = rw (a, b, c, d, htonl_read v) (htonl-htonl v h)

pub get_or-drop : (xs : List ℕ) (k i : ℕ) → get_or xs (k + i) 0 ≡ get_or (drop k xs) i 0
get_or-drop xs zero i = ap (λ j. get_or xs j 0) (omega arith)
get_or-drop [] (suc k) i = refl
get_or-drop (x ∷ xs) (suc k) i =
    let e : suc k + i ≡ suc (k + i) = omega arith in rw e (get_or-drop xs k i)

-- What the receiver finds in the struct: the fields, and the payload as far as it was sent.
pub record Arrives (p q : Packet) : Type 0 where
  pub magic : q.magic ≡ p.magic
  pub version : q.version ≡ p.version
  pub type : q.type ≡ p.type
  pub hdr_len : q.hdr_len ≡ p.hdr_len
  pub pkt_len : q.pkt_len ≡ p.pkt_len
  pub seq : q.seq ≡ p.seq
  pub ack : q.ack ≡ p.ack
  pub bytes : (i : ℕ) → i < length p.payload → get_or q.payload i 0 ≡ get_or p.payload i 0

module _ (p : Packet) (f : Fits p) where
  -- The whole struct is sent.
  encode-struct_bytes : encode_pkt p ≡ struct_bytes (swap_fields p)
  unfolding encode_pkt swap_fields struct_bytes
  encode-struct_bytes =
      let len : htons (htons p.pkt_len) ≡ length (struct_bytes (swap_fields p)) =
        htons-htons p.pkt_len (omega (arith, f.pkt_len, f.room)) ∙ f.pkt_len ∙ omega arith in
      rw len (take-length (struct_bytes (swap_fields p)))

  pub encode-length : length (encode_pkt p) ≡ 16 + length p.payload
  unfolding struct_bytes swap_fields
  encode-length = rw encode-struct_bytes (omega arith)

module _ (stack : ℕ → ℕ) (p : Packet) (f : Fits p) where
  abbrev wire : List ℕ
  wire = struct_bytes (swap_fields p)

  mem_in : (i : ℕ) → i < 16 + length p.payload → received stack wire i ≡ get_or wire i 0
  unfolding struct_bytes swap_fields
  mem_in i h = received_in stack wire i (omega arith)

  in_payload : (i : ℕ) → i < length p.payload → received stack wire (16 + i) ≡ get_or p.payload i 0
  unfolding struct_bytes swap_fields
  in_payload i h = mem_in (16 + i) (omega arith) ∙ get_or-drop wire 16 i

  struct-Arrives : Arrives p (swap_fields (struct_of (received stack wire)))
  unfolding struct_of swap_fields struct_bytes
  struct-Arrives =
      let mem = received stack wire in
      record {
        magic = field16 mem 0 p.magic f.magic (mem_in 0 (omega arith)) (mem_in 1 (omega arith));
        version = mem_in 2 (omega arith) ∙ omega (arith, f.version);
        type = mem_in 3 (omega arith) ∙ omega (arith, f.type);
        hdr_len =
            field16 mem 4 p.hdr_len f.hdr_len (mem_in 4 (omega arith)) (mem_in 5 (omega arith));
        pkt_len =
            field16 mem 6 p.pkt_len (omega (arith, f.pkt_len, f.room)) (mem_in 6 (omega arith))
              (mem_in 7 (omega arith));
        seq =
            field32 mem 8 p.seq f.seq (mem_in 8 (omega arith)) (mem_in 9 (omega arith))
              (mem_in 10 (omega arith)) (mem_in 11 (omega arith));
        ack =
            field32 mem 12 p.ack f.ack (mem_in 12 (omega arith)) (mem_in 13 (omega arith))
              (mem_in 14 (omega arith)) (mem_in 15 (omega arith));
        bytes = λ i h. get_or-read_bytes mem 16 1484 i (omega (arith, f.room)) ∙ in_payload i h;
      }

  -- A packet whose fields lie in their ranges, and whose `pkt_len` counts its header and its
  -- payload, arrives as it was: all fields, and the payload as far as it was sent, whatever was on
  -- the receiver's stack.
  pub decode-encode : Arrives p (decode_pkt stack (encode_pkt p))
  unfolding decode_pkt
  decode-encode = rw (encode-struct_bytes p f) struct-Arrives

-- The macros read the same of both.
module _ {p q : Packet} (a : Arrives p q) where
  pub Arrives-data_len : get_data_len q ≡ get_data_len p
  unfolding get_data_len
  Arrives-data_len = rw (a.pkt_len, a.hdr_len) refl

  Arrives-data_offset : data_offset q ≡ data_offset p
  unfolding data_offset
  Arrives-data_offset = rw (a.pkt_len, a.hdr_len) refl

  pub Arrives-data : (i : ℕ) → data_offset p + i < length p.payload → get_data q i ≡ get_data p i
  unfolding get_data
  Arrives-data i h = rw Arrives-data_offset (a.bytes (data_offset p + i) h)
