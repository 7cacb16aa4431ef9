-- ===== src/Queue/Order.antt =====
-- `push_node_to_list` and `pop_element_from_tail` against the line of nodes.
use progetto_sol_unipi.Base.{
  ◌+◌, ◌<◌, ◌^◌, ◌≡◌, ◌≢◌, refl, ap, subst, true, false, ◌||◌, ◌&&◌, [], ◌∷◌, ◌++◌, arith, ◌==◌,
  length, length-append,
}
use progetto_sol_unipi.Base.Command.{ok, Returns, returns}
use progetto_sol_unipi.Base.Word.{sub32}
use progetto_sol_unipi.Memory.State.{Ptr, null}
use progetto_sol_unipi.Queue.{
  Node, Nodes, Queue, popped, waits, put, push_node_to_list, pop_element_from_tail,
}
use progetto_sol_unipi.Queue.Line.{
  Line, in_line, Stands, one, IsQueue, with_nodes, stands_here, node_at_lem, set_node_lem,
  Stands-put_self, Stands-put_ne, Lined-put, Lined-head, Lined-grow, Lined-first, Lined-rest,
  Lined-touch,
}

-- A queue with no node answers nothing: the caller waits, and nothing has changed.
pub pop_waits : (q : Queue) → IsQueue q [] → pop_element_from_tail q ≡ ok waits q
unfolding pop_element_from_tail
pop_waits q i = let e = i.count in ground arith

-- A push of a node that is not in the queue ends with success, and the node stands behind all the
-- nodes that were there, whose order and objects stay.
pub push-IsQueue :
    (q : Queue) (xs : Line) {e o r : Ptr}
    → IsQueue q xs
    → Stands q.nodes e o r
    → in_line e xs ≡ false
    → length xs + 1 < 2 ^ 32
    → Returns (λ done t. (done ≡ true) × IsQueue t (xs ++ (e, o) ∷ [])) (push_node_to_list e q)
unfolding push_node_to_list
push-IsQueue q [] {e} {o} i at new room =
    let test : ((q.list_head == null) || (q.number_of_nodes == 0)) ≡ true =
      (let c = i.count in ground arith) in
    let q1 = with_nodes q (put q.nodes e (record { obj = o; next = at.after; prev = null })) in
    let at1 = Stands-put_self at o at.after null in
    let at2 = Stands-put_self at1 o null null in
    rw (stands_here q at, test)
      (rw (set_node_lem q at (λ n. record n { prev = null })) (
        rw (set_node_lem q1 at1 (λ n. record n { next = null })) (
          returns
            (refl, record { ends = one at2; count = omega (arith, i.count); few = omega arith }))))
push-IsQueue q (x ∷ xs) {e} {o} i at new room =
    let (oh, rh, ath, own) = Lined-head i.ends in
    let ne : q.list_head ≢ e =
      λ e1. (let f = subst (λ t. in_line t (x ∷ xs) ≡ true) e1 own in ground arith) in
    let test : ((q.list_head == null) || (q.number_of_nodes == 0)) ≡ false =
      (let c = i.count in let n = ath.ne_null in ground arith) in
    let m1 : Node = record { obj = o; next = at.after; prev = null } in
    let q1 = with_nodes q (put q.nodes e m1) in
    let at1 = Stands-put_self at o at.after null in
    let m2 : Node = record { obj = o; next = q.list_head; prev = null } in
    let q2 = with_nodes q (put q1.nodes e m2) in
    let at2 = Stands-put_self at1 o q.list_head null in
    let ath2 = Stands-put_ne (Stands-put_ne ath e m1 ne) e m2 ne in
    let line2 = Lined-put e m2 (Lined-put e m1 i.ends new) new in
    rw (stands_here q at, test)
      (rw (set_node_lem q at (λ n. record n { prev = null })) (
        rw (set_node_lem q1 at1 (λ n. record n { next = q.list_head })) (
          rw (set_node_lem q2 ath2 (λ n. record n { prev = e })) (
            returns (
              refl,
              record {
                ends = Lined-grow _ line2 ath2 at2 new;
                count = omega (arith, i.count, length-append xs ((e, o) ∷ []));
                few = omega (arith, length-append xs ((e, o) ∷ []));
              },
            )))))

-- On a queue that is not empty a pop ends and answers the oldest node, which still holds its
-- object; the queue is left with the others in their order.
pub pop-IsQueue :
    (q : Queue) (p o : Ptr) (xs : Line)
    → IsQueue q ((p, o) ∷ xs)
    → Returns
        (λ r t. (r ≡ popped p) × IsQueue t xs × Stands t.nodes p o null)
        (pop_element_from_tail q)
unfolding pop_element_from_tail
pop-IsQueue q p o [] i =
    let (r, e, at) = Lined-first i.ends in
    let some_node : (q.number_of_nodes == 0) ≡ false = (let c = i.count in ground arith) in
    let only : (q.number_of_nodes == 1) ≡ true = (let c = i.count in ground arith) in
    let test : ((q.tail == null) && (q.list_head == null)) ≡ false =
      (let n = at.ne_null in ground arith) in
    let q1 = with_nodes q (put q.nodes q.tail (record { obj = o; next = at.after; prev = null })) in
    let at1 = Stands-put_self at o at.after null in
    let h2 : Nodes = put q1.nodes q.tail (record { obj = o; next = null; prev = null }) in
    rw (some_node, test, only)
      (rw (set_node_lem q at (λ n. record n { prev = null })) (
        rw (set_node_lem q1 at1 (λ n. record n { next = null })) (
          returns (
            ap popped e,
            record { ends = (refl, refl); count = omega (arith, i.count); few = omega arith },
            subst (λ t. Stands h2 t o null) e (Stands-put_self at1 o null null),
          ))))
pop-IsQueue q p o ((b, o1) ∷ xs) i =
    let (r, e, at, new, rest) = Lined-rest i.ends in
    let (r1, at_b, rest2) = Lined-touch null rest in
    let some_node : (q.number_of_nodes == 0) ≡ false = (let c = i.count in ground arith) in
    let only : (q.number_of_nodes == 1) ≡ false = (let c = i.count in ground arith) in
    let test : ((q.tail == null) && (q.list_head == null)) ≡ false =
      (let n = at.ne_null in ground arith) in
    let e1 : r ≡ b = (Lined-first rest).1 in
    let ne : q.tail ≢ r = ground arith in
    let q1 : Queue = record q { tail = r } in
    let m1 : Node = record { obj = o1; next = null; prev = r1 } in
    let q2 : Queue = record q1 {
      nodes = put q.nodes r m1;
      number_of_nodes = sub32 q.number_of_nodes 1;
    } in
    let at2 = Stands-put_ne at r m1 ne in
    let m2 : Node = record { obj = o; next = at2.after; prev = null } in
    let q3 : Queue = with_nodes q2 (put q2.nodes q.tail m2) in
    let m3 : Node = record { obj = o; next = null; prev = null } in
    let at3 = Stands-put_self at2 o at2.after null in
    let h4 = put q3.nodes q.tail m3 in
    rw (some_node, test, only)
      (rw (node_at_lem q at) (
        rw (set_node_lem q1 at_b (λ n. record n { next = null })) (
          rw (set_node_lem q2 at2 (λ n. record n { prev = null })) (
            rw (set_node_lem q3 at3 (λ n. record n { next = null })) (
              returns {s = with_nodes q3 h4} (
                ap popped e,
                record {
                  ends = Lined-put q.tail _ (Lined-put q.tail _ rest2 new) new;
                  count = omega (arith, i.count);
                  few = omega (arith, i.few);
                },
                subst (λ t. Stands h4 t o null) e (Stands-put_self at3 o null null),
              ))))))
