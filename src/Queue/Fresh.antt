-- ===== src/Queue/Fresh.antt =====
-- The nodes that are created at free addresses, and those that are freed.
use progetto_sol_unipi.Base.{
  ◌≡◌, ◌≢◌, refl, subst, inl, inr, Bool-cases, false, none, some, [], ◌∷◌, arith, ◌==◌,
}
use progetto_sol_unipi.Base.Command.{ok}
use progetto_sol_unipi.Memory.State.{Ptr, null}
use progetto_sol_unipi.Queue.{Node, Nodes, Queue, put, create_node}
use progetto_sol_unipi.Queue.Line.{
  Line, in_line, Stands, Lined, one, more, IsQueue, Lined-put, Lined-rest,
}
use progetto_sol_unipi.Queue.Readers.{free_node}

-- No node of the line stands at a free address.
Lined-free :
    {h : Nodes} {tail head : Ptr} {xs : Line} (a : Ptr)
    → h a ≡ none
    → Lined h tail head xs
    → in_line a xs ≡ false
Lined-free a e (one {p} at) = let there = at.holds in ground arith
Lined-free a e (more at new rest) =
    let there = at.holds in let ih = Lined-free a e rest in ground arith

pub IsQueue-free :
    (q : Queue) (a : Ptr) (xs : Line) → q.nodes a ≡ none → IsQueue q xs → in_line a xs ≡ false
IsQueue-free q a [] e i = refl
IsQueue-free q a (x ∷ xs) e i = Lined-free a e i.ends

-- Changes of the heap away from the line.
Stands-free_node :
    (q : Queue) {p o r : Ptr} (a : Ptr)
    → p ≢ a
    → Stands q.nodes p o r
    → Stands (free_node a q).nodes p o r
unfolding free_node
Stands-free_node q a ne at = record {
  ne_null = at.ne_null;
  after = at.after;
  holds = let e = at.holds in ground arith;
}

Lined-free_node :
    (q : Queue) {tail head : Ptr} {xs : Line} (a : Ptr)
    → Lined q.nodes tail head xs
    → in_line a xs ≡ false
    → Lined (free_node a q).nodes tail head xs
Lined-free_node q a (one at) out = one (Stands-free_node q a (ground arith) at)
Lined-free_node q a (more at new rest) out =
    more (Stands-free_node q a (ground arith) at) new (Lined-free_node q a rest (ground arith))

pub IsQueue-free_node :
    (q : Queue) (a : Ptr) (xs : Line)
    → IsQueue q xs
    → in_line a xs ≡ false
    → IsQueue (free_node a q) xs
unfolding free_node
IsQueue-free_node q a [] i out = record { ends = i.ends; count = i.count; few = i.few }
IsQueue-free_node q a (x ∷ xs) i out = record {
  ends = Lined-free_node q a i.ends out;
  count = i.count;
  few = i.few;
}

put_self : (h : Nodes) (a : Ptr) (n : Node) → put h a n a ≡ some n
unfolding put
put_self h a n = ground arith

IsQueue-put :
    (q : Queue) (a : Ptr) (n : Node) (xs : Line)
    → IsQueue q xs
    → in_line a xs ≡ false
    → IsQueue (record q { nodes = put q.nodes a n }) xs
IsQueue-put q a n [] i out = record { ends = i.ends; count = i.count; few = i.few }
IsQueue-put q a n (x ∷ xs) i out = record {
  ends = Lined-put a n i.ends out;
  count = i.count;
  few = i.few;
}

pub head_apart :
    (q : Queue) (p o : Ptr) (xs : Line) → IsQueue q ((p, o) ∷ xs) → in_line p xs ≡ false
head_apart q p o [] i = refl
head_apart q p o (x ∷ xs) i =
    let (r, e, at, new, rest) = Lined-rest i.ends in subst (λ a. in_line a (x ∷ xs) ≡ false) e new

pub created-IsQueue :
    (q : Queue) (malloc obj : Ptr) (t : Queue) (xs : Line)
    → create_node malloc obj q ≡ ok malloc t
    → malloc ≢ null
    → IsQueue q xs
    → in_line malloc xs ≡ false
    → IsQueue t xs × Stands t.nodes malloc obj null
unfolding create_node
created-IsQueue q malloc obj t xs e ne i new = elim (Bool-cases (obj == null)) [
  | inl y ↦ let bad : ok null q ≡ ok malloc t = rw y at e in absurd (ne (cc))
  | inr o ↦
      let m : Node = record { obj = obj; next = null; prev = null } in
      let made : ok malloc (record q { nodes = put q.nodes malloc m }) ≡ ok malloc t = rw o at e in
      let same : record q { nodes = put q.nodes malloc m } ≡ t = cc in
      subst (λ u. IsQueue u xs × Stands u.nodes malloc obj null) same
        (
          IsQueue-put q malloc m xs i new,
          record { ne_null = ne; after = null; holds = put_self q.nodes malloc m },
        )
]
