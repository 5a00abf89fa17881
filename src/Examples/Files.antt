-- ===== src/Examples/Files.antt =====
-- A file of a little more than one chunk.
use peer_server.Base.{ℕ, ◌<◌, ◌≡◌, some, List, arith, length, ◌%◌}
use peer_server.Base.Int.{pos}
use peer_server.Chunk.Make.{make_chunks, ceil_chunks, get_numchunks, Digests, make_chunks_lem}
use peer_server.Examples.Samples.{sample_platform}

abbrev file : ℕ → ℕ
file i = i % 256

few : ceil_chunks 524290 < 3
unfolding ceil_chunks
few = omega arith

make_chunks_lem_example :
    (digests : List (List ℕ)) × (make_chunks sample_platform file 524290 (λ i. 0) 3 ≡ some digests)
    × (pos (length digests) ≡ get_numchunks (some 524290))
    × Digests sample_platform file 0 524290 digests
make_chunks_lem_example = make_chunks_lem sample_platform file 524290 3 (λ i. 0) few
