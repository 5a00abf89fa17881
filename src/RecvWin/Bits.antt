-- ===== src/RecvWin/Bits.antt =====
-- One bit of a word under the operations that BM_SET, BM_UNSET and BM_ISSET make with `1 << k`.
use Prim.Native.Nat.{
  bit_and, bit_or, bit_xor, digits, differ, bit_and-bitwise, bit_or-bitwise, bit_xor-bitwise,
}
use native.Mathlib.Nat.{pow-suc}
use peer_server.Base.{
  ℕ, zero, suc, ◌+◌, ◌-◌, ◌*◌, ◌/◌, ◌%◌, ◌^◌, ◌≤◌, ◌<◌, min, max, ◌≡◌, refl, Bool, not, ◌||◌, arith,
  ◌==◌, if◌then◌else◌,
}

-- The bit of weight 2 ^ k.
abbrev pub bit : ℕ → ℕ → Bool
bit w zero = w % 2 == 1
bit w (suc k) = bit (w / 2) k

-- Fuel beyond the first number changes nothing.
module _ (z : ℕ → ℕ) (f : ℕ → ℕ → ℕ) where
  digits_enough : (a b n m : ℕ) → a ≤ n → a ≤ m → digits z f n a b ≡ digits z f m a b
  digits_enough zero b zero zero h k = refl
  digits_enough zero b zero (suc m) h k = refl
  digits_enough zero b (suc n) zero h k = refl
  digits_enough zero b (suc n) (suc m) h k = refl
  digits_enough (suc a) b zero m h k = absurd (omega arith)
  digits_enough (suc a) b (suc n) zero h k = absurd (omega arith)
  digits_enough (suc a) b (suc n) (suc m) h k =
      rw (digits_enough (suc a / 2) (b / 2) n m (omega arith) (omega arith))

  digits_halve :
      (a b : ℕ)
      → digits z f (suc a) (suc a) b
        ≡ digits z f (suc a / 2) (suc a / 2) (b / 2) * 2 + f (suc a % 2) (b % 2)
  digits_halve a b =
      rw (digits_enough (suc a / 2) (b / 2) a (suc a / 2) (omega arith) (omega arith))

bit_and_halve : (a b : ℕ) → bit_and a b ≡ bit_and (a / 2) (b / 2) * 2 + min (a % 2) (b % 2)
bit_and_halve zero b = simp bit_and-bitwise (omega arith)
bit_and_halve (suc a) b = simp bit_and-bitwise (digits_halve (λ b. 0) min a b)

bit_or_halve : (a b : ℕ) → bit_or a b ≡ bit_or (a / 2) (b / 2) * 2 + max (a % 2) (b % 2)
bit_or_halve zero b = simp bit_or-bitwise (omega arith)
bit_or_halve (suc a) b = simp bit_or-bitwise (digits_halve (λ b. b) max a b)

differ-zero : (a : ℕ) → differ a 0 ≡ a
differ-zero zero = refl
differ-zero (suc a) = refl

bit_xor_halve : (a b : ℕ) → bit_xor a b ≡ bit_xor (a / 2) (b / 2) * 2 + differ (a % 2) (b % 2)
bit_xor_halve zero b = simp bit_xor-bitwise (omega arith)
bit_xor_halve (suc a) b = simp bit_xor-bitwise (digits_halve (λ b. b) differ a b)

-- With 0 the bits stay, or are gone: by fuel, since the laws go from `a / 2` to `a`.
module _ (f : ℕ → ℕ) where
  eq_self : (h : (a : ℕ) → f a ≡ f (a / 2) * 2 + a % 2) → (n a : ℕ) → a ≤ n → f 0 ≡ 0 → f a ≡ a
  eq_self h n zero p e = e
  eq_self h zero (suc a) p e = absurd (omega arith)
  eq_self h (suc n) (suc a) p e = omega (arith, h (suc a), eq_self h n (suc a / 2) (omega arith) e)

  eq_zero : (h : (a : ℕ) → f a ≡ f (a / 2) * 2) → (n a : ℕ) → a ≤ n → f 0 ≡ 0 → f a ≡ 0
  eq_zero h n zero p e = e
  eq_zero h zero (suc a) p e = absurd (omega arith)
  eq_zero h (suc n) (suc a) p e = omega (arith, h (suc a), eq_zero h n (suc a / 2) (omega arith) e)

bit_and-zero : (a : ℕ) → bit_and a 0 ≡ 0
bit_and-zero a =
    eq_zero (λ a. bit_and a 0) (λ a. omega (arith, bit_and_halve a 0)) a a (omega arith) refl

bit_or-zero : (a : ℕ) → bit_or a 0 ≡ a
bit_or-zero a =
    eq_self (λ a. bit_or a 0) (λ a. omega (arith, bit_or_halve a 0)) a a (omega arith) refl

bit_xor-zero : (a : ℕ) → bit_xor a 0 ≡ a
bit_xor-zero a =
    eq_self (λ a. bit_xor a 0) (λ a. omega (arith, bit_xor_halve a 0, differ-zero (a % 2))) a a
      (omega arith) refl

differ-one : (a : ℕ) → differ (a % 2) 1 ≡ 1 - a % 2
differ-one a = differ_bit (a % 2) (omega arith)
  where
    differ_bit : (d : ℕ) → d < 2 → differ d 1 ≡ 1 - d
    differ_bit zero h = refl
    differ_bit (suc zero) h = refl
    differ_bit (suc (suc d)) h = absurd (omega arith)

pow-halve : (k : ℕ) → (2 ^ suc k / 2 ≡ 2 ^ k) × (2 ^ suc k % 2 ≡ 0)
pow-halve k = omega (arith, pow-suc 2 k)

-- BM_ISSET on one word.
pub bit_and-pow : (k w : ℕ) → not (bit_and w (2 ^ k) == 0) ≡ bit w k
bit_and-pow zero w = ground (arith, bit_and_halve w 1, bit_and-zero (w / 2))
bit_and-pow (suc k) w =
    ground (arith, bit_and_halve w (2 ^ suc k), pow-halve k, bit_and-pow k (w / 2))

or_half : (k w : ℕ) → bit_or w (2 ^ suc k) / 2 ≡ bit_or (w / 2) (2 ^ k)
or_half k w = ground (arith, bit_or_halve w (2 ^ suc k), pow-halve k)

or_half_one : (w : ℕ) → bit_or w 1 / 2 ≡ w / 2
or_half_one w = ground (arith, bit_or_halve w 1, bit_or-zero (w / 2))

xor_half : (k w : ℕ) → bit_xor w (2 ^ suc k) / 2 ≡ bit_xor (w / 2) (2 ^ k)
xor_half k w = ground (arith, bit_xor_halve w (2 ^ suc k), pow-halve k, differ-zero (w % 2))

xor_half_one : (w : ℕ) → bit_xor w 1 / 2 ≡ w / 2
xor_half_one w = ground (arith, bit_xor_halve w 1, bit_xor-zero (w / 2), differ-one w)

-- BM_SET on one word.
pub bit-bit_or : (k j w : ℕ) → bit (bit_or w (2 ^ k)) j ≡ (j == k || bit w j)
bit-bit_or zero zero w = ground (arith, bit_or_halve w 1)
bit-bit_or zero (suc j) w = rw (or_half_one w) (ground arith)
bit-bit_or (suc k) zero w = ground (arith, bit_or_halve w (2 ^ suc k), pow-halve k)
bit-bit_or (suc k) (suc j) w = rw (or_half k w) (ground (arith, bit-bit_or k j (w / 2)))

-- BM_UNSET on one word: it flips the bit.
pub bit-bit_xor :
    (k j w : ℕ) → bit (bit_xor w (2 ^ k)) j ≡ (if j == k then not (bit w j) else bit w j)
bit-bit_xor zero zero w = ground (arith, bit_xor_halve w 1, differ-one w)
bit-bit_xor zero (suc j) w = rw (xor_half_one w) (ground arith)
bit-bit_xor (suc k) zero w =
    ground (arith, bit_xor_halve w (2 ^ suc k), pow-halve k, differ-zero (w % 2))
bit-bit_xor (suc k) (suc j) w = rw (xor_half k w) (ground (arith, bit-bit_xor k j (w / 2)))
