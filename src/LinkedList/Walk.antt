-- ===== src/LinkedList/Walk.antt =====
-- The way along a linked list, and `ll_delete_allnodes`.
use peer_server.Base.{
  ℕ, zero, suc, ◌<◌, ◌≡◌, refl, ap₂, false, true, not, ◌&&◌, some, List, [], ◌∷◌, map, arith, ◌==◌,
  length,
}
use peer_server.LinkedList.{Memory, Linlist, Junk, ll_next, free, delete_loop, ll_delete_allnodes}
use peer_server.LinkedList.Seg.{has, distinct, Seg, one, more}
use peer_server.LinkedList.Ring.{IsRing}

-- From `a` the nodes `xs` follow by `next`, and then `b`.
pub data Way (m : Memory) (b : ℕ) : ℕ → List ℕ → Type 0 where
  end : Way m b b []
  step : {a : ℕ} {xs : List ℕ} → (a == b) ≡ false → Way m b (m.next a) xs → Way m b a (a ∷ xs)

Seg-Way :
    {m : Memory} {b a z : ℕ} (xs : List ℕ)
    → Seg m a xs z
    → m.next z ≡ b
    → has b xs ≡ false
    → Way m b (m.next a) xs
Seg-Way [] one e n = rw e end
Seg-Way (x ∷ xs) (more f p s) e n = rw f (step (ground arith) (Seg-Way xs s e (ground arith)))

free-Way :
    {m : Memory} {b : ℕ} {a : ℕ} {xs : List ℕ} (junk : Junk) (t : ℕ)
    → has t xs ≡ false
    → Way m b a xs
    → Way (free junk t m) b a xs
unfolding free
free-Way junk t e end = end
free-Way {m} {b} junk t e (step {a} {xs} n p) =
    let other : (a == t) ≡ false = ground arith in
    step n (rw other (free-Way junk t (ground arith) p))

-- `free` at each of the nodes.
free_all : Junk → List ℕ → Memory → Memory
free_all junk [] m = m
free_all junk (x ∷ xs) m = free_all junk xs (free junk x m)

free-items :
    (junk : Junk) (t : ℕ) (m : Memory) (xs : List ℕ)
    → has t xs ≡ false
    → map (free junk t m).item xs ≡ map m.item xs
unfolding free
free-items junk t m [] e = refl
free-items junk t m (x ∷ xs) e =
    let other : (x == t) ≡ false = ground arith in
    ap₂ ◌∷◌ (rw other refl) (free-items junk t m xs (ground arith))

delete_loop_lem :
    (junk : Junk) (fuel : ℕ) (ll : Linlist) (m : Memory) (a : ℕ) (xs : List ℕ)
    → Way m ll.head a xs
    → distinct xs ≡ true
    → length xs < fuel
    → delete_loop junk fuel ll a m ≡ some (map m.item xs, free_all junk xs m)
unfolding delete_loop free_all ll_next
delete_loop_lem junk zero ll m a xs p d h = absurd (omega arith)
delete_loop_lem junk (suc fuel) ll m a [] end d h = ground arith
delete_loop_lem junk (suc fuel) ll m a (x ∷ xs) (step n p) d h =
    let apart : has a xs ≡ false = ground arith in
    rw
      (
        n,
        delete_loop_lem junk fuel ll (free junk a m) (m.next a) xs (free-Way junk a apart p)
            (ground arith) (omega arith),
        free-items junk a m xs apart,
      )
      refl

pub IsRing-Way :
    {ll : Linlist} {m : Memory} (nodes : List ℕ)
    → IsRing ll m nodes
    → Way m ll.head (m.next ll.head) nodes
IsRing-Way nodes r = Seg-Way nodes r.run r.closes (ground (arith, r.apart))

free_all-live :
    (junk : Junk) (xs : List ℕ) (m : Memory) (t : ℕ)
    → (free_all junk xs m).live t ≡ (not (has t xs) && m.live t)
unfolding free_all free
free_all-live junk [] m t = refl
free_all-live junk (x ∷ xs) m t = ground (arith, free_all-live junk xs (free junk x m) t)

-- On a list of nodes, with more rounds than nodes, and whatever a node that is freed holds from then
-- on, `ll_delete_allnodes` ends; it has called `del_item` on the item that each node held at the
-- start, in order, and freed these nodes and no other.
pub ll_delete_allnodes_lem :
    (junk : Junk) (fuel : ℕ) (ll : Linlist) (m : Memory) (nodes : List ℕ)
    → IsRing ll m nodes
    → length nodes < fuel
    → (out : Memory) × (ll_delete_allnodes junk fuel ll m ≡ some (map m.item nodes, out))
      × ((t : ℕ) → out.live t ≡ (not (has t nodes) && m.live t))
unfolding ll_delete_allnodes
ll_delete_allnodes_lem junk fuel ll m nodes r h = (
  free_all junk nodes m,
  delete_loop_lem junk fuel ll m (m.next ll.head) nodes (IsRing-Way nodes r)
      (ground (arith, r.apart)) h,
  free_all-live junk nodes m,
)
