-- ===== src/Chunk/Make.antt =====
-- `make_chunks` of src/chunk.c and `get_numchunks` of src/make_chunks.c: the digests of a file.
use peer_server.Base.{
  ℕ, zero, suc, ◌+◌, ◌-◌, ◌/◌, ◌<◌, ◌≡◌, refl, ap, sym, ◌∙◌, false, Option, none, some, List, [],
  ◌∷◌, arith, min, ltb, ◌==◌, length, if◌then◌else◌,
}
use peer_server.Base.Int.{ℤ, pos, negsuc}
use peer_server.Platform.{Platform}
use peer_server.Download.{chunk_size}

-- A digest in front of the others.
unfoldable pub add_digest : List ℕ → Option (List (List ℕ)) → Option (List (List ℕ))
add_digest d none = none
add_digest d (some ds) = some (d ∷ ds)

-- The loop, for `fuel` rounds at most, with `left` bytes of the file to read from `offset` on.
-- `fread` leaves the bytes of the buffer alone that it does not fill.
unfoldable pub chunk_loop : Platform → (ℕ → ℕ) → ℕ → ℕ → ℕ → (ℕ → ℕ) → Option (List (List ℕ))
chunk_loop plat file zero offset left buffer = none
chunk_loop plat file (suc fuel) offset left buffer =
    let numbytes = min chunk_size left in
    let read = λ (i : ℕ). if ltb i numbytes then file (offset + i) else buffer i in
    let rest = chunk_loop plat file fuel (offset + numbytes) (left - numbytes) read in
    if numbytes == 0 then some [] else add_digest (plat.sha1 read numbytes) rest

-- `buffer` is what `malloc` returns, and `size` the length of the file.
unfoldable pub make_chunks : Platform → (ℕ → ℕ) → ℕ → (ℕ → ℕ) → ℕ → Option (List (List ℕ))
make_chunks plat file size buffer fuel = chunk_loop plat file fuel 0 size buffer

-- `ceil(length / BT_CHUNK_SIZE)`, for a file of less than 2 ^ 31 chunks.
unfoldable pub ceil_chunks : ℕ → ℕ
ceil_chunks length = (length + (chunk_size - 1)) / chunk_size

-- The size that `stat` gives, if it does.
unfoldable pub get_numchunks : Option ℕ → ℤ
get_numchunks none = negsuc 0
get_numchunks (some size) = pos (ceil_chunks size)

-- The digests of the pieces of the file from `offset` on, of which `left` bytes are left.
pub data Digests (plat : Platform) (file : ℕ → ℕ) : ℕ → ℕ → List (List ℕ) → Type 0 where
  at_end : {offset : ℕ} → Digests plat file offset 0 []
  piece :
      {offset left : ℕ} {ds : List (List ℕ)} (buf : ℕ → ℕ)
      → 0 < left
      → ((i : ℕ) → i < min 524288 left → buf i ≡ file (offset + i))
      → Digests plat file (offset + min 524288 left) (left - min 524288 left) ds
      → Digests plat file offset left (plat.sha1 buf (min 524288 left) ∷ ds)

module _ (plat : Platform) (file : ℕ → ℕ) where
  -- What the loop returns.
  record Made (offset left : ℕ) (o : Option (List (List ℕ))) : Type 0 where
    digests : List (List ℕ)
    ends : o ≡ some digests
    number : length digests ≡ ceil_chunks left
    pieces : Digests plat file offset left digests

  numchunks_step :
      (left : ℕ) → 0 < left → ceil_chunks left ≡ suc (ceil_chunks (left - min 524288 left))
  unfolding ceil_chunks
  numchunks_step left h = omega arith

  module _ (offset left : ℕ) (buf : ℕ → ℕ) (some_left : 0 < left)
      (filled : (i : ℕ) → i < min 524288 left → buf i ≡ file (offset + i)) where
    digest-Made :
        (o : Option (List (List ℕ)))
        → Made (offset + min 524288 left) (left - min 524288 left) o
        → Made offset left (add_digest (plat.sha1 buf (min 524288 left)) o)
    unfolding add_digest
    digest-Made o m = record {
      digests = plat.sha1 buf (min 524288 left) ∷ m.digests;
      ends = rw (m.ends) refl;
      number = ap suc m.number ∙ sym (numchunks_step left some_left);
      pieces = piece buf some_left filled m.pieces;
    }

  chunk_loop-Made :
      (fuel offset left : ℕ) (buffer : ℕ → ℕ)
      → ceil_chunks left < fuel
      → Made offset left (chunk_loop plat file fuel offset left buffer)
  unfolding chunk_loop
  chunk_loop-Made zero offset left buffer h = absurd (omega arith)
  chunk_loop-Made (suc fuel) offset zero buffer h = record {
    digests = [];
    ends = refl;
    number = unfold ceil_chunks in refl;
    pieces = at_end;
  }
  chunk_loop-Made (suc fuel) offset (suc left) buffer h =
      let n = min 524288 (suc left) in
      let read = λ (i : ℕ). if ltb i n then file (offset + i) else buffer i in
      let e : (n == 0) ≡ false = ground arith in
      let fewer = numchunks_step (suc left) (omega arith) in
      rw e (
        digest-Made offset (suc left) read (omega arith) (λ i k. ground arith) _
          (chunk_loop-Made fuel (offset + n) (suc left - n) read (omega (arith, h, fewer))))

  -- With more rounds than the file has pieces of 512 KB, `make_chunks` ends, with as many digests
  -- as `get_numchunks` says that the caller's array holds: those of the pieces of the file, one
  -- after the other, the last piece being what is left.
  pub make_chunks_lem :
      (size fuel : ℕ) (buffer : ℕ → ℕ)
      → ceil_chunks size < fuel
      → (digests : List (List ℕ)) × (make_chunks plat file size buffer fuel ≡ some digests)
        × (pos (length digests) ≡ get_numchunks (some size))
        × Digests plat file 0 size digests
  unfolding make_chunks get_numchunks
  make_chunks_lem size fuel buffer h =
      let m = chunk_loop-Made fuel 0 size buffer h in (m.digests, m.ends, ap pos m.number, m.pieces)
