-- ===== src/Packet/Sent.antt =====
-- What `send_packet` sends: which hashes, and that the receiver accepts them.
use peer_server.Base.{
  ℕ, zero, suc, ◌+◌, ◌-◌, ◌*◌, ◌/◌, ◌≤◌, ◌<◌, ◌≡◌, refl, ◌∙◌, true, List, [], ◌∷◌, ◌++◌, min, max,
  arith, length,
}
use native.Mathlib.Nat.{zero-add, add-zero}
use peer_server.Chunklist.{ChunkList}
use peer_server.Packet.{valid_packet, get_chunk_cnt}
use peer_server.Packet.Send.{pkt_num, pick_hashes, hash_rounds, hash_packet}

-- All the hashes of the packets, in the order in which they are sent.
abbrev pub all_hashes : List (List (List ℕ)) → List (List ℕ)
all_hashes [] = []
all_hashes (r ∷ rs) = r ++ all_hashes rs

module _ (getchunks : ChunkList) (type : ℕ) (c : ChunkList) (c_index : ℕ) where
  abbrev pick : ℕ → ℕ → List (List ℕ)
  pick = pick_hashes getchunks type c c_index

  pick-add : (a b j : ℕ) → pick (a + b) j ≡ pick a j ++ pick b (j + a)
  unfolding pick_hashes
  pick-add zero b j = rw (zero-add, add-zero)
  pick-add (suc a) b j =
      let e : suc a + b ≡ suc (a + b) = omega arith in
      let f : j + suc a ≡ j + 1 + a = omega arith in
      rw (e, f) (ground (arith, pick-add a b (j + 1)))

  module _ (c_count : ℕ) where
    rounds-pick :
        (left i j : ℕ)
        → j ≡ min c_count (74 * i)
        → all_hashes (hash_rounds getchunks type c c_index c_count left i j)
          ≡ pick (min c_count (74 * (i + left)) - j) j
    unfolding hash_rounds
    rounds-pick zero i j e =
        let n : min c_count (74 * (i + 0)) - j ≡ 0 = omega arith in unfold pick_hashes in rw n
    rounds-pick (suc left) i j e =
        let limit = min c_count (74 * (i + 1)) in
        let m : max j limit ≡ limit = omega arith in
        let n : min c_count (74 * (i + 1 + left)) ≡ min c_count (74 * (i + suc left)) =
          omega arith in
        let split : min c_count (74 * (i + suc left)) - j
            ≡ limit - j + (min c_count (74 * (i + suc left)) - limit) =
          omega arith in
        let start : j + (limit - j) ≡ limit = omega arith in
        rw (
          m,
          rounds-pick left (i + 1) limit refl,
          n,
          split,
          pick-add (limit - j) (min c_count (74 * (i + suc left)) - limit) j,
          start,
        )

-- The packets of one call carry, up to 370 chunks, exactly the hashes of one pass over the chunks:
-- each once, in order, and for WHOHAS only those of unfetched chunks.
pub hash_rounds-all :
    (getchunks : ChunkList) (type : ℕ) (c : ChunkList) (c_index c_count : ℕ)
    → c_count ≤ 370
    → all_hashes (hash_rounds getchunks type c c_index c_count (pkt_num c_count) 0 0)
      ≡ pick_hashes getchunks type c c_index c_count 0
unfolding pkt_num
hash_rounds-all getchunks type c c_index c_count h =
    let n : min c_count (74 * (0 + (c_count * 20 + 1484 - 1) / 1484)) - 0 ≡ c_count = omega arith in
    rounds-pick getchunks type c c_index c_count (pkt_num c_count) 0 0 (omega arith) ∙ rw n

-- Of 371 chunks the packets of one call carry only the hashes of a pass over the first 370.
pub hash_rounds-lost :
    (getchunks : ChunkList) (type : ℕ) (c : ChunkList) (c_index : ℕ)
    → all_hashes (hash_rounds getchunks type c c_index 371 (pkt_num 371) 0 0)
      ≡ pick_hashes getchunks type c c_index 370 0
unfolding pkt_num
hash_rounds-lost getchunks type c c_index =
    rounds-pick getchunks type c c_index 371 (pkt_num 371) 0 0 (omega arith)

-- A WHOHAS, IHAVE or GET packet with 1 to 74 hashes passes the test of the receiver, and the first
-- two show the receiver the number of their hashes.
pub hash_packet-valid :
    (stack : ℕ → ℕ) (type : ℕ) (hashes : List (List ℕ))
    → type < 3
    → 1 ≤ length hashes
    → length hashes ≤ 74
    → (valid_packet (hash_packet stack type hashes) ≡ true)
      × (type < 2 → get_chunk_cnt (hash_packet stack type hashes) ≡ length hashes)
unfolding valid_packet hash_packet get_chunk_cnt
hash_packet-valid stack zero hashes t a b = (ground arith, λ h. ground arith)
hash_packet-valid stack (suc zero) hashes t a b = (ground arith, λ h. ground arith)
hash_packet-valid stack (suc (suc zero)) hashes t a b = (ground arith, λ h. absurd (omega arith))
hash_packet-valid stack (suc (suc (suc n))) hashes t a b = absurd (omega arith)
