-- ===== src/Packet/Readback.antt =====
-- The hashes that SET_HASH writes into a packet, read back by GET_HASH.
use peer_server.Base.{
  ℕ, ◌+◌, ◌*◌, ◌%◌, ◌≤◌, ◌<◌, ◌≡◌, refl, sym, ap, ap₂, ◌∙◌, List, [], ◌∷◌, ◌++◌, map, arith, length,
  length-append, get_or,
}
use peer_server.Chunk.{binary2hex}
use peer_server.Packet.{Packet, hash_offset}
use peer_server.Packet.Send.{hash_packet, concat_bytes}
use peer_server.Server.Transfer.{payload_bytes, get_hash, packet_hashes}

snoc : (xs : List ℕ) (y : ℕ) (zs : List ℕ) → (xs ++ (y ∷ [])) ++ zs ≡ xs ++ (y ∷ zs)
snoc [] y zs = refl
snoc (x ∷ xs) y zs = ap (λ l. x ∷ l) (snoc xs y zs)

assoc : (xs ys zs : List ℕ) → (xs ++ ys) ++ zs ≡ xs ++ (ys ++ zs)
assoc [] ys zs = refl
assoc (x ∷ xs) ys zs = ap (λ l. x ∷ l) (assoc xs ys zs)

get_or-append : (xs : List ℕ) (y : ℕ) (zs : List ℕ) → get_or (xs ++ (y ∷ zs)) (length xs) 0 ≡ y
get_or-append [] y zs = refl
get_or-append (x ∷ xs) y zs = get_or-append xs y zs

-- A stretch of the payload.
payload_bytes-middle :
    (pkt : Packet) (h xs zs : List ℕ)
    → pkt.payload ≡ xs ++ (h ++ zs)
    → payload_bytes pkt (length xs) (length h) ≡ h
unfolding payload_bytes
payload_bytes-middle pkt [] xs zs e = refl
payload_bytes-middle pkt (x ∷ h) xs zs e =
    let n : length xs + 1 ≡ length (xs ++ (x ∷ [])) = omega (arith, length-append xs (x ∷ [])) in
    ap₂ ◌∷◌ (rw e (get_or-append xs x (h ++ zs)))
      (rw n (payload_bytes-middle pkt h (xs ++ (x ∷ [])) zs (e ∙ sym (snoc xs x (h ++ zs)))))

-- Every hash has 20 bytes.
abbrev pub AllHashes : List (List ℕ) → Type 0
AllHashes [] = Unit {0}
AllHashes (h ∷ hs) = (length h ≡ 20) × AllHashes hs

packet_hashes-tail :
    (pkt : Packet) (hs : List (List ℕ)) (i : ℕ) (xs : List ℕ)
    → AllHashes hs
    → ((n : ℕ) → n < i + length hs → hash_offset pkt n ≡ 4 + n * 20)
    → length xs ≡ 4 + i * 20
    → pkt.payload ≡ xs ++ concat_bytes hs
    → packet_hashes pkt (length hs) i ≡ map binary2hex hs
unfolding packet_hashes concat_bytes
packet_hashes-tail pkt [] i xs a o l e = refl
packet_hashes-tail pkt (h ∷ hs) i xs a o l e = ap₂ ◌∷◌ here (
    packet_hashes-tail pkt hs (i + 1) (xs ++ h) a.1 (λ n k. o n (omega arith))
      (omega (arith, length-append xs h, a.0)) (e ∙ sym (assoc xs h (concat_bytes hs))))
  where
    here : get_hash pkt i ≡ binary2hex h
    here =
        let at : hash_offset pkt i ≡ length xs = o i (omega arith) ∙ sym l in
        unfold get_hash in
        rw (at, sym a.0) (ap binary2hex (payload_bytes-middle pkt h xs (concat_bytes hs) e))

-- Of a WHOHAS or IHAVE packet with up to 74 hashes of 20 bytes the receiver reads exactly the
-- hashes that were written, in order, as hexadecimal strings.
pub packet_hashes-hash_packet :
    (stack : ℕ → ℕ) (type : ℕ) (hashes : List (List ℕ))
    → type < 2
    → length hashes ≤ 74
    → AllHashes hashes
    → packet_hashes (hash_packet stack type hashes) (length hashes) 0 ≡ map binary2hex hashes
unfolding hash_packet hash_offset
packet_hashes-hash_packet stack type hashes t b a =
    packet_hashes-tail (hash_packet stack type hashes) hashes 0
      ((length hashes % 256) ∷ stack 1 ∷ stack 2 ∷ stack 3 ∷ []) a (λ n k. ground arith)
      (omega arith) (ground arith)
