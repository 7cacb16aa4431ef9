-- ===== src/Queue/Readers.antt =====
-- queue.c with several threads: pushes, pops, and the readers that wait on `listCond`. Each call
-- runs under `listLock`, so a step is a whole call, or the part of a pop up to its wait or from its
-- wake-up on.
use progetto_sol_unipi.Base.{
  ℕ, ◌+◌, ◌-◌, ◌<◌, ◌^◌, ◌≡◌, ◌≢◌, true, none, [], ◌∷◌, ◌++◌, ◌==◌, if◌then◌else◌,
}
use progetto_sol_unipi.Base.Command.{ok}
use progetto_sol_unipi.Memory.State.{Ptr, null}
use progetto_sol_unipi.Queue.{
  Node, Queue, popped, waits, init_list, node_at, create_node, push_node_to_list,
  pop_element_from_tail,
}
use progetto_sol_unipi.Queue.Line.{Line}

-- `pushed` and `taken` are the nodes that have gone in and out so far, with their objects, the
-- oldest first; `sleeping` readers wait for a signal, and `woken` ones have had it and have not run
-- yet.
pub record Shared : Type 0 where
  pub queue : Queue
  pub pushed : Line
  pub taken : Line
  pub sleeping : ℕ
  pub woken : ℕ

unfoldable pub started : Shared
started = record { queue = init_list; pushed = []; taken = []; sleeping = 0; woken = 0 }

-- `signal`: one reader that waits, if there is one.
unfoldable pub signal : Shared → Shared
signal s =
    if s.sleeping == 0 then s else record s { sleeping = s.sleeping - 1; woken = s.woken + 1 }

-- `broadcast`: all of them.
unfoldable pub wake_up_all_readers : Shared → Shared
wake_up_all_readers s = record s { sleeping = 0; woken = s.woken + s.sleeping }

-- `safe_free` of a node.
unfoldable pub free_node : Ptr → Queue → Queue
free_node p q = record q { nodes = λ a. if a == p then none else q.nodes a }

-- A reader calls the function, or comes back from its wait.
pub data Reader : Type 0 where
  calls returns_from_wait : Reader

abbrev pub Runs : Reader → Shared → Type 0
Runs calls s = Unit {0}
Runs returns_from_wait s = 0 < s.woken

abbrev pub runs : Reader → Shared → Shared
runs calls s = s
runs returns_from_wait s = record s { woken = s.woken - 1 }

-- `adds` creates a node at a free address and pushes it. A reader that `takes` a node reads its
-- object and frees it.
pub data Step (s : Shared) : Shared → Type 0 where
  adds :
      (malloc obj : Ptr) (t u : Queue)
      → malloc ≢ null
      → s.queue.nodes malloc ≡ none
      → s.queue.number_of_nodes + 1 < 2 ^ 32
      → create_node malloc obj s.queue ≡ ok malloc t
      → push_node_to_list malloc t ≡ ok true u
      → Step s (signal (record s { queue = u; pushed = s.pushed ++ (malloc, obj) ∷ [] }))
  takes :
      (r : Reader) (p : Ptr) (t : Queue) (n : Node)
      → Runs r s
      → pop_element_from_tail s.queue ≡ ok (popped p) t
      → node_at p t ≡ ok n t
      → Step s (record (runs r s) { queue = free_node p t; taken = s.taken ++ (p, n.obj) ∷ [] })
  sleeps :
      (r : Reader) (t : Queue)
      → Runs r s
      → pop_element_from_tail s.queue ≡ ok waits t
      → Step s (record (runs r s) { queue = t; sleeping = s.sleeping + 1 })
  wakes_up : 0 < s.sleeping → Step s (signal s)
  wakes_all : Step s (wake_up_all_readers s)
