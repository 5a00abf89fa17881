-- ===== src/LinkedList/Seg.antt =====
-- Runs of linked nodes.
use peer_server.Base.{
  ℕ, ◌≡◌, refl, sym, ◌∙◌, Bool, true, false, ◌||◌, not, ◌&&◌, inl, inr, Bool-cases, ==_iff, List,
  [], ◌∷◌, ◌++◌, arith, ◌==◌,
}
use mathlib.Core.Bool.{true≢false}
use peer_server.LinkedList.{Memory}

abbrev pub has : ℕ → List ℕ → Bool
has a [] = false
has a (x ∷ xs) = a == x || has a xs

-- No address stands twice.
abbrev pub distinct : List ℕ → Bool
distinct [] = true
distinct (x ∷ xs) = not (has x xs) && distinct xs

pub has-other : (a b : ℕ) (xs : List ℕ) → has a xs ≡ true → has b xs ≡ false → (a == b) ≡ false
has-other a b xs h n = elim (Bool-cases (a == b)) [
  | inl e ↦ absurd (true≢false (sym h ∙ rw ((==_iff a b).0 e) n))
  | inr e ↦ e
]

-- From `a` the nodes `xs` follow, both ways, and the last of all is `z`.
pub data Seg (m : Memory) : ℕ → List ℕ → ℕ → Type 0 where
  one : {a : ℕ} → Seg m a [] a
  more : {a x z : ℕ} {xs : List ℕ} → m.next a ≡ x → m.prev x ≡ a → Seg m x xs z → Seg m a (x ∷ xs) z

pub has-append : (a : ℕ) (xs ys : List ℕ) → has a (xs ++ ys) ≡ (has a xs || has a ys)
has-append a [] ys = refl
has-append a (x ∷ xs) ys = ground (arith, has-append a xs ys)

pub distinct-append :
    (xs ys : List ℕ)
    → distinct (xs ++ ys) ≡ true
    → (distinct xs ≡ true) × (distinct ys ≡ true) × ((a : ℕ) → has a xs ≡ true → has a ys ≡ false)
distinct-append [] ys d = ground arith
distinct-append (x ∷ xs) ys d =
    let ih = distinct-append xs ys (ground arith) in
    let out : has x ys ≡ false = ground (arith, has-append x xs ys) in
    (
      ground (arith, has-append x xs ys, ih),
      ih.1,
      λ a h. elim (Bool-cases (a == x)) [
        | inl e ↦ rw ((==_iff a x).0 e) out
        | inr e ↦ ih.2 a (ground arith)
      ],
    )

pub Seg-last : {m : Memory} {a z : ℕ} (xs : List ℕ) → Seg m a xs z → has z (a ∷ xs) ≡ true
Seg-last [] one = ground arith
Seg-last (x ∷ xs) (more e p s) = ground (arith, Seg-last xs s)

pub Seg-append :
    {m : Memory} {a b z : ℕ} {xs ys : List ℕ} → Seg m a xs b → Seg m b ys z → Seg m a (xs ++ ys) z
Seg-append one t = t
Seg-append (more e p s) t = more e p (Seg-append s t)

pub Seg-split :
    {m : Memory} {a z : ℕ} (xs ys : List ℕ)
    → Seg m a (xs ++ ys) z
    → (b : ℕ) × Seg m a xs b × Seg m b ys z
Seg-split [] ys s = (_, one, s)
Seg-split (x ∷ xs) ys (more e p s) = let (b, l, r) = Seg-split xs ys s in (b, more e p l, r)

-- A run survives writes to the `next` of its last node and to the `prev` of its first, and any
-- outside.
pub Seg-frame :
    {m m' : Memory} {a z : ℕ} (xs : List ℕ)
    → distinct (a ∷ xs) ≡ true
    → ((t : ℕ) → has t (a ∷ xs) ≡ true → (t == z) ≡ false → m'.next t ≡ m.next t)
    → ((t : ℕ) → has t xs ≡ true → m'.prev t ≡ m.prev t)
    → Seg m a xs z
    → Seg m' a xs z
Seg-frame [] d n p one = one
Seg-frame {m} {m'} {a} {z} (x ∷ xs) d n p (more e q s) =
    more (ground (arith, n a, Seg-last xs s)) (p x (ground arith) ∙ q)
      (Seg-frame xs (ground arith) (λ t h. n t (ground arith)) (λ t h. p t (ground arith)) s)

pub Seg-uncons :
    {m : Memory} {a x z : ℕ} {xs : List ℕ}
    → Seg m a (x ∷ xs) z
    → (m.next a ≡ x) × (m.prev x ≡ a) × Seg m x xs z
Seg-uncons (more e p s) = (e, p, s)

pub Seg-nil : {m : Memory} {a z : ℕ} → Seg m a [] z → a ≡ z
Seg-nil one = refl
