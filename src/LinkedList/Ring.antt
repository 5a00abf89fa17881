-- ===== src/LinkedList/Ring.antt =====
-- The list that a linked list stands for, and what each operation does to it.
use peer_server.Base.{
  ℕ, suc, ◌≡◌, refl, ap, true, false, List, [], ◌∷◌, ◌++◌, arith, ◌==◌, length, length-append,
}
use peer_server.Base.Int.{pos}
use peer_server.LinkedList.{Memory, Linlist, init_linkedlist, ll_insert_last, ll_remove}
use peer_server.LinkedList.Seg.{
  has, distinct, Seg, one, more, has-other, has-append, distinct-append, Seg-last, Seg-append,
  Seg-uncons, Seg-nil, Seg-split, Seg-frame,
}

-- The nodes lead from the head through the list and back to the head, both ways, and are allocated;
-- the count is their number.
pub record IsRing (ll : Linlist) (m : Memory) (nodes : List ℕ) : Type 0 where
  pub last : ℕ
  pub run : Seg m ll.head nodes last
  pub closes : m.next last ≡ ll.head
  pub back : m.prev ll.head ≡ last
  pub apart : distinct (ll.head ∷ nodes) ≡ true
  pub alive : (t : ℕ) → has t nodes ≡ true → m.live t ≡ true
  pub count : ll.count ≡ pos (length nodes)

pub init_linkedlist-IsRing :
    (ll : Linlist) (m : Memory) → let (l, m') = init_linkedlist ll m in IsRing l m' []
unfolding init_linkedlist
init_linkedlist-IsRing ll m = record {
  last = ll.head;
  run = one;
  closes = ground arith;
  back = ground arith;
  apart = refl;
  alive = λ t h. cc;
  count = refl;
}

distinct-snoc :
    (x : ℕ) (xs : List ℕ) → distinct xs ≡ true → has x xs ≡ false → distinct (xs ++ x ∷ []) ≡ true
distinct-snoc x [] d h = refl
distinct-snoc x (y ∷ ys) d h = ground (arith, distinct-snoc x ys, has-append y ys (x ∷ []))

module _ (ll : Linlist) (m : Memory) (nodes : List ℕ) (node : ℕ) (r : IsRing ll m nodes)
    (out : has node (ll.head ∷ nodes) ≡ false) where
  old : (t : ℕ) → has t (ll.head ∷ nodes) ≡ true → (t == node) ≡ false
  old t h = has-other t node (ll.head ∷ nodes) h out

  -- A node that is not in the list joins it at the end.
  pub ll_insert_last-IsRing :
      m.live node ≡ true
      → let (l, m') = ll_insert_last ll node m in IsRing l m' (nodes ++ node ∷ [])
  unfolding ll_insert_last
  ll_insert_last-IsRing live = record {
    last = node;
    run =
        Seg-append
          (Seg-frame nodes r.apart (λ t h e. rw r.back (ground (arith, old t)))
            (λ t h. ground (arith, old t, r.apart)) r.run)
          (more (rw r.back (ground (arith, old r.last (Seg-last nodes r.run))))
            (rw r.back (ground (arith, out))) one);
    closes = ground arith;
    back = ground arith;
    apart = distinct-snoc node (ll.head ∷ nodes) r.apart out;
    alive = λ t h. ground (arith, has-append t nodes (node ∷ []), r.alive t);
    count = rw (r.count, length-append nodes (node ∷ [])) (ap pos (omega arith));
  }

-- What the run of a list becomes when a node leaves it.
record Bypass (ll : Linlist) (m : Memory) (xs ys : List ℕ) : Type 0 where
  last : ℕ
  run : Seg m ll.head (xs ++ ys) last
  closes : m.next last ≡ ll.head
  back : m.prev ll.head ≡ last

module _ (ll : Linlist) (m : Memory) (xs : List ℕ) (node p : ℕ) (before : Seg m ll.head xs p)
    (from : m.next p ≡ node) (to : m.prev node ≡ p) where
  ll_remove-Bypass :
      (ys : List ℕ) (z : ℕ)
      → distinct (ll.head ∷ xs ++ node ∷ ys) ≡ true
      → Seg m node ys z
      → m.next z ≡ ll.head
      → m.prev ll.head ≡ z
      → Bypass ll (ll_remove ll node m).1 xs ys
  unfolding ll_remove
  ll_remove-Bypass [] z d s c b =
      let q : m.next node ≡ ll.head = rw (Seg-nil s) c in
      let (left, rest, apart) = distinct-append (ll.head ∷ xs) (node ∷ []) d in
      record {
        last = p;
        run =
            Seg-append
              (Seg-frame xs left (λ t h e. rw to (ground arith)) (λ t h. rw q (ground arith))
                before)
              one;
        closes = rw (to, q) (ground arith);
        back = rw (to, q) (ground arith);
      }
  ll_remove-Bypass (y ∷ ys) z d s c b =
      let (e, f, t) = Seg-uncons s in
      let (left, rest, apart) = distinct-append (ll.head ∷ xs) (node ∷ y ∷ ys) d in
      let end : has z (y ∷ ys) ≡ true = Seg-last ys t in
      let p_out : has p (y ∷ ys) ≡ false = ground (arith, apart p (Seg-last xs before)) in
      record {
        last = z;
        run =
            Seg-append
              (Seg-frame xs left (λ t h n. rw to (ground arith))
                (λ t h. rw e (ground (arith, apart t))) before)
              (more (rw (to, e) (ground arith)) (rw (to, e) (ground arith)) (
                Seg-frame ys (ground arith)
                  (λ t h n. rw to (rw (has-other t p (y ∷ ys) h p_out) refl))
                  (λ t h. rw (e, has-other t y ys h (ground arith)) refl) t));
        closes = rw (to, has-other z p (y ∷ ys) end p_out) c;
        back = rw e (ground (arith, apart ll.head));
      }

distinct-cut :
    (xs : List ℕ) (node : ℕ) (ys : List ℕ)
    → distinct (xs ++ node ∷ ys) ≡ true
    → distinct (xs ++ ys) ≡ true
distinct-cut [] node ys d = ground arith
distinct-cut (x ∷ xs) node ys d =
    ground (arith, distinct-cut xs node ys, has-append x xs (node ∷ ys), has-append x xs ys)

length-cut :
    (xs : List ℕ) (node : ℕ) (ys : List ℕ) → length (xs ++ node ∷ ys) ≡ suc (length (xs ++ ys))
length-cut [] node ys = refl
length-cut (x ∷ xs) node ys = ap suc (length-cut xs node ys)

-- A node of the list leaves it; the others stay, in order.
pub ll_remove-IsRing :
    (ll : Linlist) (m : Memory) (xs : List ℕ) (node : ℕ) (ys : List ℕ)
    → IsRing ll m (xs ++ node ∷ ys)
    → let (l, m') = ll_remove ll node m in IsRing l m' (xs ++ ys)
unfolding ll_remove
ll_remove-IsRing ll m xs node ys r =
    let (p, before, after) = Seg-split xs (node ∷ ys) r.run in
    let (from, to, s) = Seg-uncons after in
    let c = ll_remove-Bypass ll m xs node p before from to ys r.last r.apart s r.closes r.back in
    record {
      last = c.last;
      run = c.run;
      closes = c.closes;
      back = c.back;
      apart = distinct-cut (ll.head ∷ xs) node ys r.apart;
      alive = λ t h. ground (arith, has-append t xs (node ∷ ys), has-append t xs ys, r.alive t);
      count = rw (r.count, length-cut xs node ys) refl;
    }
