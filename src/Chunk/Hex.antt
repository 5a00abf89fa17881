-- ===== src/Chunk/Hex.antt =====
-- Bytes written as hexadecimal digits and read back.
use peer_server.Base.{
  ℕ, zero, suc, ◌/◌, ◌%◌, ◌<◌, ◌≡◌, refl, ap₂, Bool, true, List, [], ◌∷◌, ◌&&◌, arith, ◌==◌, ==_iff,
}
use peer_server.Chunk.{hex_digit, binary2hex, hex_byte, hex2binary}

abbrev pub AllBytes : List ℕ → Type 0
AllBytes [] = Unit {0}
AllBytes (b ∷ bs) = (b < 256) × AllBytes bs

all_below : ℕ → (ℕ → Bool) → Bool
all_below zero p = true
all_below (suc n) p = p n && all_below n p

all_below-lt : (n : ℕ) (p : ℕ → Bool) (x : ℕ) → all_below n p ≡ true → x < n → p x ≡ true
unfolding all_below
all_below-lt zero p x h k = absurd (omega arith)
all_below-lt (suc n) p x h k = ground (arith, all_below-lt n p x)

-- Every byte, checked by evaluation.
byte_table : all_below 256 (λ b. hex_byte (hex_digit (b / 16)) (hex_digit (b % 16)) == b) ≡ true
unfolding all_below hex_byte hex_digit
byte_table = refl

byte_back : (b : ℕ) → b < 256 → hex_byte (hex_digit (b / 16)) (hex_digit (b % 16)) ≡ b
byte_back b h = (==_iff _ b).0 (all_below-lt 256 _ b byte_table h)

-- `hex2binary` reads back what `binary2hex` writes, for any list of bytes.
pub hex2binary-binary2hex : (bs : List ℕ) → AllBytes bs → hex2binary (binary2hex bs) ≡ bs
unfolding binary2hex hex2binary
hex2binary-binary2hex [] h = refl
hex2binary-binary2hex (b ∷ bs) h = ap₂ ◌∷◌ (byte_back b h.0) (hex2binary-binary2hex bs h.1)
