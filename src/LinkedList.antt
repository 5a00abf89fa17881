-- ===== src/LinkedList.antt =====
-- src/linkedlist.c: the doubly linked list of a peer's chunk lines, on a memory of nodes. A node's
-- address is a number, and the head of a list is a node like the others that `malloc` never
-- returns. What `malloc` answers is an argument.
pub mod Seg
pub mod Ring
pub mod Walk
pub mod Find
use peer_server.Base.{
  ℕ, zero, suc, Bool, true, false, Option, none, some, List, [], ◌∷◌, ◌==◌, if◌then◌else◌, update,
}
use peer_server.Base.Int.{ℤ, pos, succ, pred}

-- The fields of the nodes, by address, and whether a node is allocated.
pub record Memory : Type 0 where
  pub next : ℕ → ℕ
  pub prev : ℕ → ℕ
  pub item : ℕ → ℕ
  pub live : ℕ → Bool

-- The address of the list's head.
pub record Linlist : Type 0 where
  pub head : ℕ
  pub count : ℤ

-- The pointers of a new node are those that the memory held before.
unfoldable pub new_ll_node : Option ℕ → ℕ → Memory → Option ℕ × Memory
new_ll_node none item m = (none, m)
new_ll_node (some node) item m =
    (some node, record m { item = update m.item node item; live = update m.live node true })

unfoldable pub init_linkedlist : Linlist → Memory → Linlist × Memory
init_linkedlist ll m = (
  record ll { count = pos 0 },
  record m { next = update m.next ll.head ll.head; prev = update m.prev ll.head ll.head },
)

unfoldable pub ll_count : Linlist → ℤ
ll_count ll = ll.count

-- The four assignments, in order.
unfoldable pub ll_insert_last : Linlist → ℕ → Memory → Linlist × Memory
ll_insert_last ll node m =
    let last = m.prev ll.head in
    (
      record ll { count = succ ll.count },
      record m {
        next = update (update m.next last node) node ll.head;
        prev = update (update m.prev node last) ll.head node;
      },
    )

unfoldable pub ll_remove : Linlist → ℕ → Memory → Linlist × Memory
ll_remove ll node m =
    let prev = m.prev node in
    let next = m.next node in
    (
      record ll { count = pred ll.count },
      record m { next = update m.next prev next; prev = update m.prev next prev },
    )

unfoldable pub ll_start : Linlist → Memory → ℕ
ll_start ll m = m.next ll.head

unfoldable pub ll_next : ℕ → Memory → ℕ
ll_next node m = m.next node

unfoldable pub ll_end : Linlist → ℕ
ll_end ll = ll.head

-- What the fields of a node hold once it is freed is not known: an argument.
pub record Junk : Type 0 where
  pub next : ℕ → ℕ
  pub prev : ℕ → ℕ
  pub item : ℕ → ℕ

unfoldable pub free : Junk → ℕ → Memory → Memory
free junk node m = record {
  next = update m.next node (junk.next node);
  prev = update m.prev node (junk.prev node);
  item = update m.item node (junk.item node);
  live = update m.live node false;
}

-- The loop of `ll_delete_allnodes` from `iter` on, for `fuel` rounds at most: the items that
-- `del_item` was called with, in order, or `none` if the rounds did not reach the head. A round
-- reads the next node, calls `del_item` and then frees the node.
unfoldable pub delete_loop : Junk → ℕ → Linlist → ℕ → Memory → Option (List ℕ × Memory)
delete_loop junk zero ll iter m = none
delete_loop junk (suc fuel) ll iter m =
    let next = ll_next iter m in
    let item = m.item iter in
    let freed = free junk iter m in
    let rest = delete_loop junk fuel ll next freed in
    if iter == ll.head
    then some ([], m)
    else elim rest [ none ↦ none | some (items, m') ↦ some (item ∷ items, m') ]

unfoldable pub ll_delete_allnodes : Junk → ℕ → Linlist → Memory → Option (List ℕ × Memory)
ll_delete_allnodes junk fuel ll m = delete_loop junk fuel ll (m.next ll.head) m
