-- ===== src/Chunk.antt =====
-- src/chunk.c: hashes as bytes and as text. A text is the list of its characters.
pub mod Hex
pub mod Make
use peer_server.Base.{ℕ, ◌+◌, ◌-◌, ◌*◌, ◌/◌, ◌%◌, List, [], ◌∷◌, ◌&&◌, ltb, leb, if◌then◌else◌}
use Prim.Native.Nat.{bit_or}

-- A digit of `%.2x`.
unfoldable pub hex_digit : ℕ → ℕ
hex_digit d = if ltb d 10 then b'0' + d else b'a' + (d - 10)

-- `sprintf(hex + i * 2, "%.2x", buf[i])` for every byte.
unfoldable pub binary2hex : List ℕ → List ℕ
unfolding hex_digit
binary2hex [] = []
binary2hex (b ∷ buf) = hex_digit (b / 16) ∷ hex_digit (b % 16) ∷ binary2hex buf

-- `toupper` on the ASCII letters.
unfoldable pub toupper : ℕ → ℕ
toupper c = if leb b'a' c && leb c b'z' then c - 32 else c

-- `_hex2binary`, whose result is a `uint8_t`. A character is below 128 here.
unfoldable pub hex2binary_digit : ℕ → ℕ
unfolding toupper
hex2binary_digit hex =
    let up = toupper hex in
    if leb up b'9' then (up + 256 - b'0') % 256 else (up + 256 - (b'A' - 0x0a)) % 256

-- The byte of two characters; the shift is made in `int`, and the store cuts it to 8 bits.
unfoldable pub hex_byte : ℕ → ℕ → ℕ
unfolding hex2binary_digit
hex_byte hi lo = bit_or (hex2binary_digit hi * 16) (hex2binary_digit lo) % 256

-- A text of odd length would make the source read one character too many: it ends there instead.
unfoldable pub hex2binary : List ℕ → List ℕ
unfolding hex_byte
hex2binary (hi ∷ lo ∷ rest) = hex_byte hi lo ∷ hex2binary rest
hex2binary (hi ∷ []) = []
hex2binary [] = []
