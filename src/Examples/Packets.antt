-- ===== src/Examples/Packets.antt =====
-- Packets of hashes at concrete inputs.
use peer_server.Base.{ℕ, ◌<◌, ◌≡◌, refl, true, List, [], ◌∷◌, map, arith, length}
use peer_server.Chunk.{binary2hex}
use peer_server.Packet.{valid_packet, get_chunk_cnt}
use peer_server.Packet.Send.{hash_packet, hash_rounds, pick_hashes, pkt_num}
use peer_server.Packet.Sent.{all_hashes, hash_rounds-all, hash_rounds-lost, hash_packet-valid}
use peer_server.Packet.Readback.{packet_hashes-hash_packet}
use peer_server.Server.Transfer.{packet_hashes}
use peer_server.Examples.Samples.{cut, sample_list}

abbrev stack : ℕ → ℕ
stack i = 7

abbrev two_hashes : List (List ℕ)
two_hashes = cut (λ i. i) 10 20 ∷ cut (λ i. i) 200 20 ∷ []

hash_rounds-all_example :
    all_hashes (hash_rounds sample_list 1 sample_list 0 2 (pkt_num 2) 0 0)
    ≡ pick_hashes sample_list 1 sample_list 0 2 0
hash_rounds-all_example = hash_rounds-all sample_list 1 sample_list 0 2 (omega arith)

hash_rounds-lost_example :
    all_hashes (hash_rounds sample_list 1 sample_list 0 371 (pkt_num 371) 0 0)
    ≡ pick_hashes sample_list 1 sample_list 0 370 0
hash_rounds-lost_example = hash_rounds-lost sample_list 1 sample_list 0

hash_packet-valid_example :
    (valid_packet (hash_packet stack 1 two_hashes) ≡ true)
    × (1 < 2 → get_chunk_cnt (hash_packet stack 1 two_hashes) ≡ 2)
hash_packet-valid_example =
    hash_packet-valid stack 1 two_hashes (omega arith) (omega arith) (omega arith)

two-lengths : (length (cut (λ i. i) 10 20) ≡ 20) × (length (cut (λ i. i) 200 20) ≡ 20)
unfolding cut
two-lengths = (refl, refl)

packet_hashes-hash_packet_example :
    packet_hashes (hash_packet stack 1 two_hashes) 2 0 ≡ map binary2hex two_hashes
packet_hashes-hash_packet_example =
    packet_hashes-hash_packet stack 1 two_hashes (omega arith) (omega arith)
      (two-lengths.0, (two-lengths.1, tt))
