-- ===== src/Chunklist.antt =====
-- src/chunklist.c and include/chunklist.h: the list of a file's chunks. The array is a
-- function of the index; a hash is the list of its characters, without the NUL. `fscanf` reads it
-- without a limit into an array of 41 bytes: only lists whose hashes have at most 40 characters
-- describe what the source does.
pub mod Search
use peer_server.Base.Int.{ℤ}
use peer_server.Base.{
  ℕ, zero, suc, ◌+◌, ◌*◌, Bool, true, false, Option, none, some, List, [], ◌∷◌, ◌&&◌, ◌==◌,
  if◌then◌else◌, update, ltb,
}

pub data ChunkState : Type 0 where
  unfetched fetching fetched : ChunkState

pub record ChunkLine : Type 0 where
  pub state : ChunkState
  pub id : ℤ
  pub sha1 : List ℕ

pub record ChunkList : Type 0 where
  pub count : ℕ
  pub chunks : ℕ → ChunkLine

abbrev pub max_chunk_num : ℕ
max_chunk_num = 4096

-- `strcmp(a, b) == 0`.
abbrev pub str_eq : List ℕ → List ℕ → Bool
str_eq [] [] = true
str_eq [] (y ∷ ys) = false
str_eq (x ∷ xs) [] = false
str_eq (x ∷ xs) (y ∷ ys) = x == y && str_eq xs ys

abbrev pub is_unfetched : ChunkState → Bool
is_unfetched unfetched = true
is_unfetched fetching = false
is_unfetched fetched = false

abbrev pub is_fetched : ChunkState → Bool
is_fetched unfetched = false
is_fetched fetching = false
is_fetched fetched = true

-- The first index from `i` on that passes the test, among the next `left`: the loops that search
-- an array. `none` stands for -1.
unfoldable pub first_from : (ℕ → Bool) → ℕ → ℕ → Option ℕ
first_from test zero i = none
first_from test (suc left) i =
    let rest = first_from test left (i + 1) in if test i then some i else rest

-- The loop of `parse_chunk` over the pairs that `fscanf` reads from the file, from line `i` on,
-- with the room that is left; the lines behind the last one stay as they were.
unfoldable pub read_lines : ℕ → ℕ → (ℕ → ChunkLine) → List (ℤ × List ℕ) → ChunkList
read_lines zero i chunks lines = record { count = i; chunks = chunks }
read_lines (suc room) i chunks [] = record { count = i; chunks = chunks }
read_lines (suc room) i chunks ((id, sha1) ∷ lines) =
    read_lines room (i + 1) (update chunks i (record { state = unfetched; id = id; sha1 = sha1 }))
      lines

-- `none` is a file that cannot be opened.
unfoldable pub parse_chunk : ChunkList → Option (List (ℤ × List ℕ)) → Option ChunkList
unfolding read_lines
parse_chunk cl none = none
parse_chunk cl (some lines) = some (read_lines max_chunk_num 0 cl.chunks lines)

-- Behind the first loop `i` is `count`.
unfoldable pub add_chunk : ChunkList → ChunkLine → ChunkList
add_chunk clist cline =
    elim (first_from (λ i. str_eq (clist.chunks i).sha1 cline.sha1) clist.count 0) [
      | some i ↦ clist
      | none ↦
          if ltb clist.count clist.count
          then record { count = clist.count + 1; chunks = update clist.chunks clist.count cline }
          else clist
    ]
