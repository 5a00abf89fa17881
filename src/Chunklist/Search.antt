-- ===== src/Chunklist/Search.antt =====
-- What a search of an array finds.
use peer_server.Base.{
  ℕ, zero, suc, ◌+◌, ◌≤◌, ◌<◌, ◌≡◌, inl, inr, Bool, true, false, none, some, arith, Bool-cases,
}
use peer_server.Chunklist.{first_from}

-- The index found is the first one in range that passes the test.
pub first_from-some :
    (test : ℕ → Bool) (left i k : ℕ)
    → first_from test left i ≡ some k
    → (i ≤ k) × (k < i + left) × (test k ≡ true) × ((j : ℕ) → i ≤ j → j < k → test j ≡ false)
unfolding first_from
first_from-some test zero i k e = cc
first_from-some test (suc left) i k e = elim (Bool-cases (test i)) [
  | inl hit ↦ found hit (rw hit at e)
  | inr miss ↦ later miss (first_from-some test left (i + 1) k (rw miss at e))
]
  where
    found :
        test i ≡ true
        → some i ≡ some k
        → (i ≤ k)
          × (k < i + suc left)
          × (test k ≡ true)
          × ((j : ℕ) → i ≤ j → j < k → test j ≡ false)
    found hit q =
        let same : i ≡ k = ground arith in
        (omega arith, omega arith, ground arith, λ j a b. absurd (omega arith))

    later :
        test i ≡ false
        → (i + 1 ≤ k)
          × (k < i + 1 + left)
          × (test k ≡ true)
          × ((j : ℕ) → i + 1 ≤ j → j < k → test j ≡ false)
        → (i ≤ k)
          × (k < i + suc left)
          × (test k ≡ true)
          × ((j : ℕ) → i ≤ j → j < k → test j ≡ false)
    later miss r = (omega arith, omega arith, r.2, λ j a b. ground (arith, r.3 j))

-- Nothing is found exactly if nothing in range passes.
pub first_from-none :
    (test : ℕ → Bool) (left i j : ℕ)
    → first_from test left i ≡ none
    → i ≤ j
    → j < i + left
    → test j ≡ false
unfolding first_from
first_from-none test zero i j e a b = absurd (omega arith)
first_from-none test (suc left) i j e a b = ground (arith, first_from-none test left (i + 1) j)
