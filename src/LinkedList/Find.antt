-- ===== src/LinkedList/Find.antt =====
-- `find_unfetched_chunk` of src/peer_server.c on the linked list, and on the list of hashes that
-- it stands for.
use peer_server.Base.{
  ℕ, zero, suc, ◌<◌, ◌≡◌, refl, ap, ◌∙◌, ◌⊎◌, inl, inr, Option, none, some, List, [], ◌∷◌, ◌++◌,
  map, arith, ◌==◌, length, if◌then◌else◌,
}
use peer_server.LinkedList.{Memory, Linlist, ll_remove, ll_start, ll_next, ll_end}
use peer_server.LinkedList.Ring.{IsRing, ll_remove-IsRing}
use peer_server.LinkedList.Walk.{Way, end, step, IsRing-Way}
use peer_server.Chunklist.{ChunkList}
use peer_server.Server.Refresh.{wanted, find_in_queue, Found}

abbrev option_or : ℕ → Option ℕ → ℕ
option_or d none = d
option_or d (some a) = a

option_cases {ℓ} : {A : Type ℓ} (o : Option A) → (o ≡ none) ⊎ ((a : A) × (o ≡ some a))
option_cases none = inl refl
option_cases (some a) = inr (a, refl)

some_inj : {a b : ℕ} → some a ≡ some b → a ≡ b
some_inj {a} e = ap (option_or a) e

-- One node of the queue, by what is wanted of it.
module _ (c : ChunkList) (h : List ℕ) (q : List (List ℕ)) where
  -- The queue's front and its rest.
  abbrev joined : Option ℕ → Option Found → Option Found
  joined (some i) rest = some (record { index = i; queue = q })
  joined none none = none
  joined none (some f) = some (record f { queue = h ∷ f.queue })

  queue-joined : find_in_queue c (h ∷ q) ≡ joined (wanted c h) (find_in_queue c q)
  unfolding find_in_queue
  queue-joined =
      elim (wanted c h)
        as (λ o.
          elim o [
            | some i ↦ some (record { index = i; queue = q })
            | none ↦ elim (find_in_queue c q) [
              | none ↦ none
              | some f ↦ some (record f { queue = h ∷ f.queue })
            ]
          ]
          ≡ joined o (find_in_queue c q)) [
            | some i ↦ refl
            | none ↦
                elim (find_in_queue c q)
                  as (λ r.
                    elim r [ none ↦ none | some f ↦ some (record f { queue = h ∷ f.queue }) ]
                    ≡ joined none r) [ none ↦ refl | some f ↦ refl ]
          ]

-- What the loop of `find_unfetched_chunk` returns: the index, if any, the list and the memory.
pub record Search : Type 0 where
  pub index : Option ℕ
  pub list : Linlist
  pub memory : Memory

-- `ll_remove`, and the index that was found.
unfoldable pub take_node : ℕ → Linlist → ℕ → Memory → Search
take_node i ll iter m =
    let (ll', m') = ll_remove ll iter m in record { index = some i; list = ll'; memory = m' }

-- The loop from `iter` on, over the nodes. `line` reads the hash of a chunk line.
unfoldable pub find_loop : ChunkList → (ℕ → List ℕ) → ℕ → Linlist → ℕ → Memory → Option Search
find_loop c line zero ll iter m = none
find_loop c line (suc fuel) ll iter m =
    let rest = find_loop c line fuel ll (ll_next iter m) m in
    if iter == ll_end ll
    then some (record { index = none; list = ll; memory = m })
    else elim (wanted c (line (m.item iter))) [
      | some i ↦ some (take_node i ll iter m)
      | none ↦ rest
    ]

unfoldable pub find_unfetched_chunk :
    ChunkList → (ℕ → List ℕ) → ℕ → Linlist → Memory → Option Search
find_unfetched_chunk c line fuel ll m = find_loop c line fuel ll (ll_start ll m) m

module _ (c : ChunkList) (line : ℕ → List ℕ) (ll : Linlist) (m : Memory) where
  abbrev hash : ℕ → List ℕ
  hash node = line (m.item node)

  -- Either no node is wanted, or the first that is has been removed.
  data Outcome (todo : List ℕ) (out : Option Search) : Type 0 where
    absent :
        find_in_queue c (map hash todo) ≡ none
        → out ≡ some (record { index = none; list = ll; memory = m })
        → Outcome todo out
    found :
        (i : ℕ) (us : List ℕ) (node : ℕ) (vs : List ℕ)
        → todo ≡ us ++ node ∷ vs
        → find_in_queue c (map hash todo) ≡ some (record { index = i; queue = map hash (us ++ vs) })
        → out ≡ some (take_node i ll node m)
        → Outcome todo out

  found_later :
      (a : ℕ) (todo : List ℕ) (out : Option Search)
      → wanted c (hash a) ≡ none
      → Outcome todo out
      → Outcome (a ∷ todo) out
  found_later a todo out n (absent q e) =
      absent (queue-joined c (hash a) (map hash todo) ∙ rw (n, q) refl) e
  found_later a todo out n (found i us node vs t q e) =
      found i (a ∷ us) node vs (ap (λ xs. a ∷ xs) t)
        (queue-joined c (hash a) (map hash todo) ∙ rw (n, q) refl) e

  find_loop-Outcome :
      (fuel iter : ℕ) (todo : List ℕ)
      → Way m ll.head iter todo
      → length todo < fuel
      → Outcome todo (find_loop c line fuel ll iter m)
  unfolding find_loop ll_next ll_end
  find_loop-Outcome zero iter todo p h = absurd (omega arith)
  find_loop-Outcome (suc fuel) iter [] end h = absent (unfold find_in_queue in refl) (ground arith)
  find_loop-Outcome (suc fuel) iter (x ∷ xs) (step n p) h =
      elim (option_cases (wanted c (hash iter))) [
        | inl none_wanted ↦
            rw (n, none_wanted)
              (found_later iter xs _ none_wanted
                (find_loop-Outcome fuel (m.next iter) xs p (omega arith)))
        | inr (i, e) ↦
            found i [] iter xs refl (queue-joined c (hash iter) (map hash xs) ∙ rw e refl)
              (rw (n, e) refl)
      ]

  -- What the queue's list says of the result.
  pub record Agrees (nodes : List ℕ) (out : Search) : Type 0 where
    pub rest : List ℕ
    pub ring : IsRing out.list out.memory rest
    pub items : out.memory.item ≡ m.item
    pub none_wanted : out.index ≡ none → (find_in_queue c (map hash nodes) ≡ none) × (rest ≡ nodes)
    pub first_wanted :
        (i : ℕ)
        → out.index ≡ some i
        → find_in_queue c (map hash nodes) ≡ some (record { index = i; queue = map hash rest })

  taken-Agrees :
      (i : ℕ) (us : List ℕ) (node : ℕ) (vs : List ℕ)
      → IsRing ll m (us ++ node ∷ vs)
      → find_in_queue c (map hash (us ++ node ∷ vs))
        ≡ some (record { index = i; queue = map hash (us ++ vs) })
      → Agrees (us ++ node ∷ vs) (take_node i ll node m)
  unfolding take_node ll_remove
  taken-Agrees i us node vs r q = record {
    rest = us ++ vs;
    ring = ll_remove-IsRing ll m us node vs r;
    items = refl;
    none_wanted = λ e. cc;
    first_wanted = λ k e. q ∙ rw (some_inj e) refl;
  }

  -- On a list of nodes, with more rounds than nodes, `find_unfetched_chunk` ends. If the queue of
  -- the nodes' hashes has no unfetched chunk it returns none and the list is as before; else it
  -- returns the index that `find_in_queue` finds, and the list that is left stands for the queue
  -- that `find_in_queue` leaves.
  pub find_unfetched_chunk-Agrees :
      (fuel : ℕ) (nodes : List ℕ)
      → IsRing ll m nodes
      → length nodes < fuel
      → (out : Search) × (find_unfetched_chunk c line fuel ll m ≡ some out) × Agrees nodes out
  unfolding find_unfetched_chunk ll_start
  find_unfetched_chunk-Agrees fuel nodes r h =
      elim (find_loop-Outcome fuel (m.next ll.head) nodes (IsRing-Way nodes r) h) [
        | absent q e ↦ (
          record { index = none; list = ll; memory = m },
          e,
          record {
            rest = nodes;
            ring = r;
            items = refl;
            none_wanted = λ n. (q, refl);
            first_wanted = λ k n. cc;
          },
        )
        | found i us node vs t q e ↦
            (take_node i ll node m, e, rw t (taken-Agrees i us node vs (rw⁻¹ t r) (rw⁻¹ t q)))
      ]
