-- ===== src/Queue/Delivery.antt =====
-- The wake-ups of the readers of a queue.
use progetto_sol_unipi.Base.{
  ◌+◌, ◌-◌, ◌<◌, ◌≡◌, refl, sym, ap, ◌∙◌, [], ◌∷◌, ◌++◌, arith, length, length-append,
}
use progetto_sol_unipi.Base.Command.{Run, ok, Returns, returns}
use progetto_sol_unipi.Base.Steps.{Reach}
use progetto_sol_unipi.Memory.State.{Ptr, null}
use progetto_sol_unipi.Queue.{Queue, Popping, popped, pop_element_from_tail}
use progetto_sol_unipi.Queue.Line.{Line, Stands, IsQueue, node_at_lem}
use progetto_sol_unipi.Queue.History.{Fifo, Reach-Fifo}
use progetto_sol_unipi.Queue.Order.{pop-IsQueue}
use progetto_sol_unipi.Queue.Readers.{Shared, started, free_node, returns_from_wait, Step, takes}

-- The next step of a reader that has been woken: it takes the oldest node.
pub record Delivers (s : Shared) : Type 0 where
  pub after : Shared
  pub step : Step s after
  pub oldest : Ptr × Ptr
  pub rest : Line
  pub oldest_of : s.pushed ≡ s.taken ++ oldest ∷ rest
  pub taken : after.taken ≡ s.taken ++ oldest ∷ []
  pub woken : after.woken + 1 ≡ s.woken

taken_by :
    (s : Shared) (p o : Ptr) (rest : Line)
    → 0 < s.woken
    → s.pushed ≡ s.taken ++ (p, o) ∷ rest
    → {r : Run Queue Popping} → r ≡ pop_element_from_tail s.queue
    → Returns (λ a t. (a ≡ popped p) × IsQueue t rest × Stands t.nodes p o null) r
    → Delivers s
taken_by s p o rest some_woken whole same (returns {a} {s = t} (got, left, at)) =
    let pops : pop_element_from_tail s.queue ≡ ok (popped p) t = sym same ∙ ap (λ b. ok b t) got in
    record {
      after = record s {
        woken = s.woken - 1;
        queue = free_node p t;
        taken = s.taken ++ (p, o) ∷ [];
      };
      step = takes returns_from_wait p t _ some_woken pops (node_at_lem t at);
      oldest = (p, o);
      rest = rest;
      oldest_of = whole;
      taken = refl;
      woken = omega arith;
    }

woken-Delivers : (s : Shared) (f : Fifo s) → 0 < length f.line → 0 < s.woken → Delivers s
woken-Delivers s f some_node some_woken = go f.line f.queue refl
  where
    go : (xs : Line) → IsQueue s.queue xs → f.line ≡ xs → Delivers s
    go [] i l = absurd (let z = ap length l in omega arith)
    go ((p, o) ∷ xs) i l =
        taken_by s p o xs some_woken (f.whole ∙ ap (◌++◌ s.taken) l) refl
          (pop-IsQueue s.queue p o xs i)

-- In every state that pushes and pops of any number of threads lead to from `initList`, where a
-- reader sleeps though a node stands in the queue, another one has been woken, and its next step
-- takes the oldest node of the queue: no wake-up is lost.
pub sleeping-Delivers :
    {s : Shared}
    → Reach Step started s
    → 0 < s.sleeping
    → length s.taken < length s.pushed
    → Delivers s
sleeping-Delivers {s} r asleep left =
    let f = Reach-Fifo r in
    let sizes = ap length f.whole ∙ length-append s.taken f.line in
    let w = f.wake in woken-Delivers s f (omega arith) (ground arith)
