-- ===== src/Server/Counts.antt =====
-- Counting the entries of an array that pass a test.
use peer_server.Base.{ℕ, zero, suc, ◌+◌, ◌<◌, ◌≡◌, ◌≢◌, refl, ap, fun_ext, Bool, true, false, arith}
use native.Mathlib.Decide.{ℕ_discrete}

abbrev pub one_if : Bool → ℕ
one_if true = 1
one_if false = 0

unfoldable pub count_if : (ℕ → Bool) → ℕ → ℕ
count_if f zero = 0
count_if f (suc n) = one_if (f n) + count_if f n

pub count_if_cong : (f g : ℕ → Bool) (n : ℕ) → ((j : ℕ) → f j ≡ g j) → count_if f n ≡ count_if g n
count_if_cong f g n h = ap (λ k. count_if k n) (fun_ext h)

count_if_outside :
    (f g : ℕ → Bool) (i n : ℕ)
    → ((j : ℕ) → j ≢ i → f j ≡ g j)
    → n < suc i
    → count_if f n ≡ count_if g n
unfolding count_if
count_if_outside f g i zero h k = refl
count_if_outside f g i (suc n) h k =
    rw (h n (omega arith), count_if_outside f g i n h (omega arith))

-- Two arrays that differ at one index.
pub count_if_change :
    (f g : ℕ → Bool) (i n : ℕ)
    → i < n
    → ((j : ℕ) → j ≢ i → f j ≡ g j)
    → count_if f n + one_if (g i) ≡ count_if g n + one_if (f i)
unfolding count_if
count_if_change f g i zero k h = absurd (omega arith)
count_if_change f g i (suc n) k h = elim (ℕ_discrete i n) [
  | yes e ↦ rw e (omega (arith, count_if_outside f g i n h (omega arith)))
  | no ne ↦ rw (h n (omega arith)) (omega (arith, count_if_change f g i n (omega arith) h))
]

pub count_if-none : (f : ℕ → Bool) (n : ℕ) → ((j : ℕ) → j < n → f j ≡ false) → count_if f n ≡ 0
unfolding count_if
count_if-none f zero h = refl
count_if-none f (suc n) h =
    rw (h n (omega arith)) (omega (arith, count_if-none f n λ j k. h j (omega arith)))

pub count_if-all : (f : ℕ → Bool) (n : ℕ) → ((j : ℕ) → j < n → f j ≡ true) → count_if f n ≡ n
unfolding count_if
count_if-all f zero h = refl
count_if-all f (suc n) h =
    rw (h n (omega arith)) (omega (arith, count_if-all f n λ j k. h j (omega arith)))

pub count_if-zero : (f : ℕ → Bool) (n : ℕ) → count_if f n ≡ 0 → (j : ℕ) → j < n → f j ≡ false
unfolding count_if
count_if-zero f zero e j h = absurd (omega arith)
count_if-zero f (suc n) e j h = elim (ℕ_discrete j n) [
  | yes y ↦ rw y (ground arith)
  | no ne ↦ count_if-zero f n (omega (arith, e)) j (omega arith)
]
