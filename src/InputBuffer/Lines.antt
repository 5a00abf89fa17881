-- ===== src/InputBuffer/Lines.antt =====
-- The lines of a text.
use peer_server.Base.{
  ℕ, ◌≡◌, refl, ap, ◌⊎◌, inl, inr, Bool, false, ◌||◌, List, [], ◌∷◌, ◌++◌, arith, ◌==◌,
  if◌then◌else◌, Bool-cases, ==_iff,
}

abbrev pub has_byte : ℕ → List ℕ → Bool
has_byte c [] = false
has_byte c (x ∷ xs) = x == c || has_byte c xs

-- A text as its complete lines and the rest behind the last newline.
pub record Text : Type 0 where
  pub lines : List (List ℕ)
  pub rest : List ℕ

-- One more byte in front.
abbrev pub in_front : ℕ → List (List ℕ) → List ℕ → Text
in_front c [] r = record { lines = []; rest = c ∷ r }
in_front c (l ∷ ls) r = record { lines = (c ∷ l) ∷ ls; rest = r }

unfoldable pub split_lines : List ℕ → Text
split_lines [] = record { lines = []; rest = [] }
split_lines (c ∷ cs) =
    let t = split_lines cs in
    if c == 10 then record { lines = [] ∷ t.lines; rest = t.rest } else in_front c t.lines t.rest

pub split-line :
    (line rest : List ℕ)
    → has_byte 10 line ≡ false
    → split_lines (line ++ 10 ∷ rest)
      ≡ record { lines = line ∷ (split_lines rest).lines; rest = (split_lines rest).rest }
unfolding split_lines
split-line [] rest h = refl
split-line (c ∷ line) rest h =
    let e : (c == 10) ≡ false = ground arith in rw (e, split-line line rest (ground arith)) refl

pub split-none :
    (xs : List ℕ) → has_byte 10 xs ≡ false → split_lines xs ≡ record { lines = []; rest = xs }
unfolding split_lines
split-none [] h = refl
split-none (c ∷ xs) h =
    let e : (c == 10) ≡ false = ground arith in rw (e, split-none xs (ground arith)) refl

-- The first line of a text that has one.
pub record FirstLine (xs : List ℕ) : Type 0 where
  pub line : List ℕ
  pub rest : List ℕ
  pub parts : xs ≡ line ++ 10 ∷ rest
  pub clean : has_byte 10 line ≡ false

pub first_line : (xs : List ℕ) → (has_byte 10 xs ≡ false) ⊎ FirstLine xs
first_line [] = inl refl
first_line (c ∷ xs) = elim (Bool-cases (c == 10)) [
  | inl e ↦
      inr (record {
        line = [];
        rest = xs;
        parts = ap (λ x. x ∷ xs) ((==_iff c 10).0 e);
        clean = refl;
      })
  | inr e ↦ elim (first_line xs) [
    | inl n ↦ inl (rw (e, n) refl)
    | inr f ↦ inr (record {
      line = c ∷ f.line;
      rest = f.rest;
      parts = ap (λ ys. c ∷ ys) f.parts;
      clean = rw (e, f.clean) refl;
    })
  ]
]
