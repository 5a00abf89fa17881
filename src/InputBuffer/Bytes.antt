-- ===== src/InputBuffer/Bytes.antt =====
-- What the buffer holds, byte by byte.
use native.Mathlib.Nat.{add-zero}
use peer_server.Base.{
  ℕ, zero, suc, ◌+◌, ◌-◌, ◌*◌, ◌≤◌, ◌<◌, ◌≡◌, refl, ap₂, false, none, some, List, [], ◌∷◌, ◌++◌,
  arith, get_or, length, length-append,
}
use peer_server.InputBuffer.{UserIobuf, fill, find_newline, shift}
use peer_server.InputBuffer.Lines.{has_byte}
use peer_server.Packet.Encode.{read_bytes}

-- The buffer holds the text, and zeros behind it.
pub record Holds (b : UserIobuf) (xs : List ℕ) : Type 0 where
  pub cur : b.cur ≡ length xs
  pub bytes : (i : ℕ) → i < 8192 → b.buf i ≡ get_or xs i 0

later :
    (buf : ℕ → ℕ) (left i x : ℕ) (xs : List ℕ)
    → ((k : ℕ) → k < suc left → buf (i + k) ≡ get_or (x ∷ xs) k 0)
    → (k : ℕ) → k < left
    → buf (i + 1 + k) ≡ get_or xs k 0
later buf left i x xs h k l =
    let e : i + 1 + k ≡ i + suc k = omega arith in rw e (h (suc k) (omega arith))

pub find_newline-none :
    (buf : ℕ → ℕ) (left i : ℕ) (xs : List ℕ)
    → ((k : ℕ) → k < left → buf (i + k) ≡ get_or xs k 0)
    → has_byte 10 xs ≡ false
    → find_newline buf left i ≡ none
unfolding find_newline
find_newline-none buf zero i xs h n = refl
find_newline-none buf (suc left) i [] h n = ground (arith, rw add-zero at (h 0 (omega arith)))
find_newline-none buf (suc left) i (x ∷ xs) h n = ground (
  arith,
  rw add-zero at (h 0 (omega arith)),
  find_newline-none buf left (i + 1) xs (later buf left i x xs h) (ground arith),
)

pub find_newline-some :
    (buf : ℕ → ℕ) (left i : ℕ) (line rest : List ℕ)
    → ((k : ℕ) → k < left → buf (i + k) ≡ get_or (line ++ 10 ∷ rest) k 0)
    → has_byte 10 line ≡ false
    → has_byte 0 line ≡ false
    → length line < left
    → find_newline buf left i ≡ some (i + length line)
unfolding find_newline
find_newline-some buf zero i line rest h n z l = absurd (omega arith)
find_newline-some buf (suc left) i [] rest h n z l =
    ground (arith, rw add-zero at (h 0 (omega arith)))
find_newline-some buf (suc left) i (x ∷ line) rest h n z l =
    let e : i + 1 + length line ≡ i + suc (length line) = omega arith in
    ground (
      arith,
      rw add-zero at (h 0 (omega arith)),
      rw e at (
          find_newline-some buf left (i + 1) line rest (later buf left i x (line ++ 10 ∷ rest) h)
            (ground arith) (ground arith) (omega arith)),
    )

get_or-behind :
    (xs : List ℕ) (y : ℕ) (ys : List ℕ) (k : ℕ)
    → get_or (xs ++ y ∷ ys) (length xs + 1 + k) 0 ≡ get_or ys k 0
get_or-behind [] y ys k = let e : 0 + 1 + k ≡ suc k = omega arith in rw e refl
get_or-behind (x ∷ xs) y ys k =
    let e : suc (length xs) + 1 + k ≡ suc (length xs + 1 + k) = omega arith in
    rw e (get_or-behind xs y ys k)

get_or-past : (xs : List ℕ) (k : ℕ) → length xs ≤ k → get_or xs k 0 ≡ 0
get_or-past [] k h = refl
get_or-past (x ∷ xs) zero h = absurd (omega arith)
get_or-past (x ∷ xs) (suc k) h = get_or-past xs k (omega arith)

pub bytes-line :
    (buf : ℕ → ℕ) (i : ℕ) (line rest : List ℕ)
    → ((k : ℕ) → k < length line → buf (i + k) ≡ get_or (line ++ rest) k 0)
    → read_bytes buf i (length line) ≡ line
unfolding read_bytes
bytes-line buf i [] rest h = refl
bytes-line buf i (x ∷ line) rest h =
    ap₂ ◌∷◌ (rw add-zero at (h 0 (omega arith)))
      (bytes-line buf (i + 1) line rest (later buf (length line) i x (line ++ rest) h))

module _ (b : UserIobuf) (line rest : List ℕ) (v : Holds b (line ++ 10 ∷ rest))
    (room : 2 * length line + length rest < 8191) where
  pub shift-Holds : Holds (shift b (length line)) rest
  unfolding shift
  shift-Holds =
      let n : length (line ++ 10 ∷ rest) ≡ length line + suc (length rest) =
        length-append line (10 ∷ rest) in
      record {
        cur = omega (arith, v.cur, n);
        bytes = λ i l. ground (
          arith,
          n,
          v.bytes i l,
          v.bytes (length line + 1 + i),
          get_or-behind line 10 rest i,
          get_or-past (line ++ 10 ∷ rest) i,
          get_or-past rest i,
        );
      }

get_or-in : (xs ys : List ℕ) (k : ℕ) → k < length xs → get_or (xs ++ ys) k 0 ≡ get_or xs k 0
get_or-in [] ys k h = absurd (omega arith)
get_or-in (x ∷ xs) ys zero h = refl
get_or-in (x ∷ xs) ys (suc k) h = get_or-in xs ys k (omega arith)

get_or-after :
    (xs ys : List ℕ) (k : ℕ) → length xs ≤ k → get_or (xs ++ ys) k 0 ≡ get_or ys (k - length xs) 0
get_or-after [] ys k h = let e : k - 0 ≡ k = omega arith in rw e refl
get_or-after (x ∷ xs) ys zero h = absurd (omega arith)
get_or-after (x ∷ xs) ys (suc k) h =
    let e : suc k - suc (length xs) ≡ k - length xs = omega arith in
    rw e (get_or-after xs ys k (omega arith))

pub fill-Holds :
    (b : UserIobuf) (xs bytes : List ℕ)
    → Holds b xs
    → length xs + length bytes < 8191
    → Holds (fill b bytes) (xs ++ bytes)
unfolding fill
fill-Holds b xs bytes v h = record {
  cur = omega (arith, v.cur, length-append xs bytes);
  bytes = λ i l. ground (
    arith,
    v.cur,
    v.bytes i l,
    get_or-in xs bytes i,
    get_or-after xs bytes i,
    get_or-past xs i,
    get_or-past bytes (i - length xs),
  );
}
