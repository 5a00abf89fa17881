-- ===== src/Examples/Lists.antt =====
-- A queue of two nodes, at the addresses 1 and 2 with the head at 0.
use peer_server.Base.{◌+◌, ◌-◌, ℕ, ◌≡◌, refl, true, not, ◌&&◌, some, List, [], ◌∷◌, arith}
use peer_server.Base.Int.{pos}
use peer_server.LinkedList.{
  Memory, Linlist, Junk, init_linkedlist, ll_insert_last, ll_remove, ll_delete_allnodes,
}
use peer_server.LinkedList.Seg.{has}
use peer_server.LinkedList.Ring.{
  IsRing, init_linkedlist-IsRing, ll_insert_last-IsRing, ll_remove-IsRing,
}
use peer_server.LinkedList.Walk.{ll_delete_allnodes_lem}
use peer_server.LinkedList.Find.{Search, find_unfetched_chunk, Agrees, find_unfetched_chunk-Agrees}
use peer_server.Examples.Samples.{sample_list}

abbrev memory_0 : Memory
memory_0 = record { next = λ i. 9; prev = λ i. 9; item = λ i. 10 + i; live = λ i. true }

abbrev empty : Linlist × Memory
empty = init_linkedlist (record { head = 0; count = pos 7 }) memory_0

abbrev one : Linlist × Memory
one = ll_insert_last empty.0 1 empty.1

abbrev two : Linlist × Memory
two = ll_insert_last one.0 2 one.1

empty-IsRing : IsRing empty.0 empty.1 []
empty-IsRing = init_linkedlist-IsRing (record { head = 0; count = pos 7 }) memory_0

one-IsRing : IsRing one.0 one.1 (1 ∷ [])
one-IsRing =
    unfold init_linkedlist in ll_insert_last-IsRing empty.0 empty.1 [] 1 empty-IsRing refl refl

two-IsRing : IsRing two.0 two.1 (1 ∷ 2 ∷ [])
unfolding init_linkedlist ll_insert_last
two-IsRing = ll_insert_last-IsRing one.0 one.1 (1 ∷ []) 2 one-IsRing refl refl

abbrev removed : Linlist × Memory
removed = ll_remove two.0 1 two.1

ll_remove-IsRing_example : IsRing removed.0 removed.1 (2 ∷ [])
ll_remove-IsRing_example = ll_remove-IsRing two.0 two.1 [] 1 (2 ∷ []) two-IsRing

-- A node that is freed leads nowhere.
abbrev junk : Junk
junk = record { next = λ i. 99; prev = λ i. 99; item = λ i. 0 }

ll_delete_allnodes_lem_example :
    (out : Memory) × (ll_delete_allnodes junk 3 two.0 two.1 ≡ some (11 ∷ 12 ∷ [], out))
    × ((t : ℕ) → out.live t ≡ (not (has t (1 ∷ 2 ∷ [])) && two.1.live t))
unfolding init_linkedlist ll_insert_last
ll_delete_allnodes_lem_example =
    ll_delete_allnodes_lem junk 3 two.0 two.1 (1 ∷ 2 ∷ []) two-IsRing (omega arith)

abbrev line : ℕ → List ℕ
line item = (item - 11) ∷ []

-- The first node names an unfetched chunk.
find_unfetched_chunk-Agrees_example :
    (out : Search) × (find_unfetched_chunk sample_list line 3 two.0 two.1 ≡ some out)
    × Agrees sample_list line two.0 two.1 (1 ∷ 2 ∷ []) out
find_unfetched_chunk-Agrees_example =
    find_unfetched_chunk-Agrees sample_list line two.0 two.1 3 (1 ∷ 2 ∷ []) two-IsRing (omega arith)
