-- ===== src/Queue/Line.antt =====
-- The line of nodes that the `prev` pointers make from the tail of a queue to its head.
use progetto_sol_unipi.Base.{
  ◌<◌, ◌^◌, ◌≡◌, ◌≢◌, refl, subst, Bool, true, false, ◌||◌, some, List, [], ◌∷◌, ◌++◌, arith, ◌==◌,
  length,
}
use progetto_sol_unipi.Base.Command.{ok}
use progetto_sol_unipi.Memory.State.{Ptr, null}
use progetto_sol_unipi.Queue.{Node, Nodes, Queue, put, node_at, set_node}

-- The nodes of the queue and their objects, the oldest first.
abbrev pub Line : Type 0
Line = List (Ptr × Ptr)

abbrev pub in_line : Ptr → Line → Bool
in_line a [] = false
in_line a ((p, _) ∷ xs) = (a == p) || in_line a xs

pub in_line-append :
    (a : Ptr) (xs ys : Line) → in_line a (xs ++ ys) ≡ (in_line a xs || in_line a ys)
in_line-append a [] ys = refl
in_line-append a (x ∷ xs) ys = ground (arith, in_line-append a xs ys)

-- `p` holds the object `o`; its field `prev` leads to `q`, and its field `next` is never read.
pub record Stands (h : Nodes) (p o q : Ptr) : Type 0 where
  pub ne_null : p ≢ null
  pub after : Ptr
  pub holds : h p ≡ some (record { obj = o; next = after; prev = q })

-- From `tail` the `prev` pointers lead through the nodes to `head`.
pub data Lined (h : Nodes) : (tail head : Ptr) → Line → Type 0 where
  one : {p o q : Ptr} → Stands h p o q → Lined h p p ((p, o) ∷ [])
  more :
      {p o q head : Ptr} {x : Ptr × Ptr} {xs : Line}
      → Stands h p o q
      → in_line p (x ∷ xs) ≡ false
      → Lined h q head (x ∷ xs)
      → Lined h p head ((p, o) ∷ x ∷ xs)

abbrev pub Ends : Nodes → (tail head : Ptr) → Line → Type 0
Ends h tail head [] = (tail ≡ null) × (head ≡ null)
Ends h tail head (x ∷ xs) = Lined h tail head (x ∷ xs)

-- What the queue stands for.
pub record IsQueue (q : Queue) (xs : Line) : Type 0 where
  pub ends : Ends q.nodes q.tail q.list_head xs
  pub count : q.number_of_nodes ≡ length xs
  pub few : length xs < 2 ^ 32

abbrev pub with_nodes : Queue → Nodes → Queue
with_nodes q h = record q { nodes = h }

module _ (q : Queue) {p o r : Ptr} (at : Stands q.nodes p o r) where
  pub stands_here : (p == null) ≡ false
  stands_here = let n = at.ne_null in ground arith

  pub node_at_lem : node_at p q ≡ ok (record { obj = o; next = at.after; prev = r }) q
  unfolding node_at
  node_at_lem = rw (stands_here, at.holds)

  pub set_node_lem :
      (g : Node → Node)
      → set_node p g q
        ≡ ok tt (with_nodes q (put q.nodes p (g (record { obj = o; next = at.after; prev = r }))))
  unfolding set_node
  set_node_lem g = rw node_at_lem

module _ {h : Nodes} {p o r : Ptr} (at : Stands h p o r) where
  pub Stands-put_self :
      (o' n' r' : Ptr) → Stands (put h p (record { obj = o'; next = n'; prev = r' })) p o' r'
  unfolding put
  Stands-put_self o' n' r' = record { ne_null = at.ne_null; after = n'; holds = ground arith }

  pub Stands-put_ne : (a : Ptr) (n : Node) → p ≢ a → Stands (put h a n) p o r
  unfolding put
  Stands-put_ne a n ne = record {
    ne_null = at.ne_null;
    after = at.after;
    holds = let e = at.holds in ground arith;
  }

-- A change of a node that is not in the line.
pub Lined-put :
    {h : Nodes} {tail head : Ptr} {xs : Line} (a : Ptr) (n : Node)
    → Lined h tail head xs
    → in_line a xs ≡ false
    → Lined (put h a n) tail head xs
Lined-put a n (one at) out = one (Stands-put_ne at a n (ground arith))
Lined-put a n (more at new rest) out =
    more (Stands-put_ne at a n (ground arith)) new (Lined-put a n rest (ground arith))

-- The head stands in the line, and its `prev` is free to change.
pub Lined-head :
    {h : Nodes} {tail head : Ptr} {xs : Line}
    → Lined h tail head xs
    → (o : Ptr) × (r : Ptr) × Stands h head o r × (in_line head xs ≡ true)
Lined-head (one {p} {o} {q} at) = (o, q, at, ground arith)
Lined-head (more at new rest) = let (o, r, it, e) = Lined-head rest in (o, r, it, ground arith)

-- One more node behind the head.
pub Lined-grow :
    {h : Nodes} {tail head : Ptr} {xs : Line} {o r e o' r' : Ptr} (n : Ptr)
    → Lined h tail head xs
    → Stands h head o r
    → Stands h e o' r'
    → in_line e xs ≡ false
    → Lined (put h head (record { obj = o; next = n; prev = e })) tail e (xs ++ (e, o') ∷ [])
Lined-grow {h} {o} {r} {e} {o'} n (one {p} {o = obj} at) it new out =
    let same : o ≡ obj = (let a = at.holds in let b = it.holds in cc) in
    let ne : e ≢ p = ground arith in
    more
      (subst (λ t. Stands (put h p (record { obj = o; next = n; prev = e })) p t e) same
        (Stands-put_self it o n e))
      (ground arith) (one (Stands-put_ne new p _ ne))
Lined-grow {h} {head} {o} {r} {e} {o'} n (more {p} {x = x} {xs = xs} at fresh rest) it new out =
    let (o1, r1, there, e1) = Lined-head rest in
    let ne : p ≢ head =
      λ e2. (let f = subst (λ t. in_line t (x ∷ xs) ≡ false) e2 fresh in ground arith) in
    let apart : in_line p (x ∷ (xs ++ (e, o') ∷ [])) ≡ false =
      ground (arith, in_line-append p (x ∷ xs) ((e, o') ∷ [])) in
    more (Stands-put_ne at head _ ne) apart (Lined-grow n rest it new (ground arith))

-- The first node of a line, and the rest.
pub Lined-first :
    {h : Nodes} {tail head p o : Ptr} {xs : Line}
    → Lined h tail head ((p, o) ∷ xs)
    → (q : Ptr) × (tail ≡ p) × Stands h tail o q
Lined-first (one {q = q} at) = (q, refl, at)
Lined-first (more {q = q} at new rest) = (q, refl, at)

pub Lined-rest :
    {h : Nodes} {tail head p o : Ptr} {x : Ptr × Ptr} {xs : Line}
    → Lined h tail head ((p, o) ∷ x ∷ xs)
    → (q : Ptr) × (tail ≡ p)
      × Stands h tail o q
      × (in_line tail (x ∷ xs) ≡ false)
      × Lined h q head (x ∷ xs)
Lined-rest (more {q = q} at new rest) = (q, refl, at, new, rest)

-- A change of the `next` pointer of the first node.
pub Lined-touch :
    {h : Nodes} {tail head p o : Ptr} {xs : Line} (n : Ptr)
    → Lined h tail head ((p, o) ∷ xs)
    → (q : Ptr) × Stands h tail o q
      × Lined (put h tail (record { obj = o; next = n; prev = q })) tail head ((p, o) ∷ xs)
Lined-touch {o = o} n (one {q = q} at) = (q, at, one (Stands-put_self at o n q))
Lined-touch {o = o} n (more {q = q} at new rest) =
    (q, at, more (Stands-put_self at o n q) new (Lined-put _ _ rest new))
