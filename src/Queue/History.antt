-- ===== src/Queue/History.antt =====
-- Any history of pushes and pops of a queue, by any number of threads.
use progetto_sol_unipi.Base.{
  ℕ, suc, ◌+◌, ◌<◌, ◌≤◌, ◌^◌, ◌≡◌, refl, sym, subst, ap, ◌∙◌, ◌⊎◌, inl, inr, Bool-cases, false, [],
  ◌∷◌, ◌++◌, append_assoc, arith, ◌==◌, length, length-append,
}
use progetto_sol_unipi.Base.Command.{ok, Returns-result}
use progetto_sol_unipi.Base.Steps.{Reach, here, next}
use progetto_sol_unipi.Memory.State.{Ptr, null}
use progetto_sol_unipi.Queue.{Node, Queue, popped, waits, init_list, node_at, pop_element_from_tail}
use progetto_sol_unipi.Queue.Line.{Line, in_line, Stands, IsQueue, node_at_lem}
use progetto_sol_unipi.Queue.Fresh.{IsQueue-free, IsQueue-free_node, head_apart, created-IsQueue}
use progetto_sol_unipi.Queue.Order.{pop_waits, push-IsQueue, pop-IsQueue}
use progetto_sol_unipi.Queue.Readers.{
  Shared, started, signal, wake_up_all_readers, free_node, calls, returns_from_wait, Step, adds,
  takes, sleeps, wakes_up, wakes_all,
}

-- What holds between the steps: the nodes that are not taken stand in the queue, and if a reader
-- sleeps, one reader that has been woken is there for each of them.
pub record Fifo (s : Shared) : Type 0 where
  pub line : Line
  pub queue : IsQueue s.queue line
  pub whole : s.pushed ≡ s.taken ++ line
  pub wake : (s.sleeping ≡ 0) ⊎ (length line ≤ s.woken)

-- What is left of the sleepers after a signal.
signal-wake :
    (s : Shared) (n : ℕ)
    → (s.sleeping ≡ 0) ⊎ (n ≤ s.woken)
    → ((signal s).sleeping ≡ 0) ⊎ (suc n ≤ (signal s).woken)
unfolding signal
signal-wake s n w = grind arith

signal_rest :
    (s : Shared)
    → ((signal s).queue ≡ s.queue) × ((signal s).pushed ≡ s.pushed) × ((signal s).taken ≡ s.taken)
unfolding signal
signal_rest s = elim (Bool-cases (s.sleeping == 0)) [
  | inl y ↦ rw y (refl, refl, refl)
  | inr o ↦ rw o (refl, refl, refl)
]

-- What a pop that answers a node has taken.
popped_node :
    (s : Shared) (f : Fifo s) (p : Ptr) (t : Queue) (n : Node)
    → pop_element_from_tail s.queue ≡ ok (popped p) t
    → node_at p t ≡ ok n t
    → (rest : Line) × (f.line ≡ (p, n.obj) ∷ rest) × IsQueue (free_node p t) rest
popped_node s f p t n e at = go f.line f.queue refl
  where
    go :
        (xs : Line)
        → IsQueue s.queue xs
        → f.line ≡ xs
        → (rest : Line) × (f.line ≡ (p, n.obj) ∷ rest) × IsQueue (free_node p t) rest
    go [] i l =
        let bad : ok waits s.queue ≡ ok (popped p) t = sym (pop_waits s.queue i) ∙ e in absurd (cc)
    go ((a, o) ∷ xs) i l =
        let (same, left, there) = Returns-result (pop-IsQueue s.queue a o xs i) e in
        let addr : p ≡ a = (let z : popped p ≡ popped a = same in cc) in
        let held = subst (λ b. Stands t.nodes b o null) (sym addr) there in
        let obj : n.obj ≡ o = (let z = sym (node_at_lem t held) ∙ at in cc) in
        let out = head_apart s.queue a o xs i in
        (
          xs,
          l ∙ cc,
          IsQueue-free_node t p xs left (subst (λ b. in_line b xs ≡ false) (sym addr) out),
        )

-- A reader sleeps at an empty queue only.
slept :
    (s : Shared) (f : Fifo s) (t : Queue)
    → pop_element_from_tail s.queue ≡ ok waits t
    → (f.line ≡ []) × (s.queue ≡ t)
slept s f t e = go f.line f.queue refl
  where
    go : (xs : Line) → IsQueue s.queue xs → f.line ≡ xs → (f.line ≡ []) × (s.queue ≡ t)
    go [] i l = (l, (let same = sym (pop_waits s.queue i) ∙ e in cc))
    go ((a, o) ∷ xs) i l =
        let (same, left, there) = Returns-result (pop-IsQueue s.queue a o xs i) e in
        absurd (let z : waits ≡ popped a = same in cc)

Step-Fifo : {s t : Shared} → Step s t → Fifo s → Fifo t
unfolding wake_up_all_readers
Step-Fifo {s} (adds malloc obj t u ne free room made done) f =
    let new = IsQueue-free s.queue malloc f.line free f.queue in
    let (i, at) = created-IsQueue s.queue malloc obj t f.line made ne f.queue new in
    let few : length f.line + 1 < 2 ^ 32 = (let c = f.queue in omega (arith, c.count, room)) in
    let (e, i') = Returns-result (push-IsQueue t f.line i at new few) done in
    let v : Shared = record s { queue = u; pushed = s.pushed ++ (malloc, obj) ∷ [] } in
    let (a, b, c) = signal_rest v in
    record {
      line = f.line ++ (malloc, obj) ∷ [];
      queue = subst (λ q. IsQueue q (f.line ++ (malloc, obj) ∷ [])) (sym a) i';
      whole =
          b
          ∙ ap (λ l. l ++ (malloc, obj) ∷ []) f.whole
          ∙ append_assoc s.taken f.line ((malloc, obj) ∷ [])
          ∙ ap (λ l. l ++ (f.line ++ (malloc, obj) ∷ [])) (sym c);
      wake =
          subst (λ k. ((signal v).sleeping ≡ 0) ⊎ (k ≤ (signal v).woken))
            (omega (arith, length-append f.line ((malloc, obj) ∷ [])))
            (signal-wake v (length f.line) f.wake);
    }
Step-Fifo {s} (takes calls p t n run e at) f =
    let (rest, l, i) = popped_node s f p t n e at in
    record {
      line = rest;
      queue = i;
      whole = f.whole ∙ ap (◌++◌ s.taken) l ∙ sym (append_assoc s.taken ((p, n.obj) ∷ []) rest);
      wake = let a = f.wake in let b = ap length l in grind arith;
    }
Step-Fifo {s} (takes returns_from_wait p t n run e at) f =
    let (rest, l, i) = popped_node s f p t n e at in
    record {
      line = rest;
      queue = i;
      whole = f.whole ∙ ap (◌++◌ s.taken) l ∙ sym (append_assoc s.taken ((p, n.obj) ∷ []) rest);
      wake = let a = f.wake in let b = ap length l in grind arith;
    }
Step-Fifo {s} (sleeps calls t run e) f =
    let (l, same) = slept s f t e in
    record {
      line = f.line;
      queue = subst (λ q. IsQueue q f.line) same f.queue;
      whole = f.whole;
      wake = let a = ap length l in inr (omega arith);
    }
Step-Fifo {s} (sleeps returns_from_wait t run e) f =
    let (l, same) = slept s f t e in
    record {
      line = f.line;
      queue = subst (λ q. IsQueue q f.line) same f.queue;
      whole = f.whole;
      wake = let a = ap length l in inr (omega arith);
    }
Step-Fifo {s} (wakes_up some_sleep) f =
    let (a, b, c) = signal_rest s in
    record {
      line = f.line;
      queue = subst (λ q. IsQueue q f.line) (sym a) f.queue;
      whole = b ∙ f.whole ∙ ap (λ l. l ++ f.line) (sym c);
      wake = let d = signal-wake s (length f.line) f.wake in grind arith;
    }
Step-Fifo {s} wakes_all f = record {
  line = f.line;
  queue = f.queue;
  whole = f.whole;
  wake = inl refl;
}

started-Fifo : Fifo started
unfolding started init_list
started-Fifo = record {
  line = [];
  queue = record { ends = (refl, refl); count = refl; few = omega arith };
  whole = refl;
  wake = inl refl;
}

-- Whatever pushes and pops any number of threads have made since `initList`, the nodes that have
-- been pushed are those that have been taken and then those that stand in the queue, each with its
-- object and in the order of the pushes: none is lost, none is taken twice, and none overtakes
-- another. If a reader sleeps, a reader that has been woken is there for each node of the queue.
pub Reach-Fifo : {s : Shared} → Reach Step started s → Fifo s
Reach-Fifo here = started-Fifo
Reach-Fifo (next r st) = Step-Fifo st (Reach-Fifo r)
