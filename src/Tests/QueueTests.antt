-- ===== src/Tests/QueueTests.antt =====
-- The queue with one node, to which a second one is pushed.
use progetto_sol_unipi.Base.{refl, none, [], ◌∷◌, arith}
use progetto_sol_unipi.Memory.State.{null}
use progetto_sol_unipi.Queue.{
  Queue, Nodes, put, push_node_to_list, pop_element_from_tail, init_list, create_node, set_node,
  node_at,
}
use progetto_sol_unipi.Queue.Line.{IsQueue, Stands, one}
use progetto_sol_unipi.Queue.Readers.{Shared, Step, started, signal, calls, adds, sleeps}
use progetto_sol_unipi.Queue.History.{Fifo, Reach-Fifo}
use progetto_sol_unipi.Queue.Delivery.{Delivers, sleeping-Delivers}
use progetto_sol_unipi.Base.Steps.{Reach, here, next}

abbrev two_nodes : Nodes
two_nodes =
    put (put (λ _. none) 8 (record { obj = 100; next = null; prev = null })) 16
      (record { obj = 101; next = null; prev = null })

abbrev one_node : Queue
one_node = record { number_of_nodes = 1; list_head = 8; tail = 8; nodes = two_nodes }

first_node : Stands two_nodes 8 100 null
unfolding put
first_node = record { ne_null = omega arith; after = null; holds = refl }

second_node : Stands two_nodes 16 101 null
unfolding put
second_node = record { ne_null = omega arith; after = null; holds = refl }

one_node-IsQueue : IsQueue one_node ((8, 100) ∷ [])
one_node-IsQueue = record { ends = one first_node; count = refl; few = omega arith }

abbrev first_pushed : Queue
first_pushed = record {
  number_of_nodes = 1;
  list_head = 8;
  tail = 8;
  nodes =
      put
        (put (put (λ _. none) 8 (record { obj = 100; next = null; prev = null })) 8
          (record { obj = 100; next = null; prev = null }))
        8 (record { obj = 100; next = null; prev = null });
}

-- Two readers sleep, and one of them is woken by a push.
abbrev one_sleeps : Shared
one_sleeps = record {
  queue = first_pushed;
  pushed = (8, 100) ∷ [];
  taken = [];
  sleeping = 1;
  woken = 1;
}

one_sleeps-Reach : Reach Step started one_sleeps
unfolding started signal init_list create_node push_node_to_list pop_element_from_tail set_node
    node_at put
one_sleeps-Reach =
    next (next (next here (sleeps calls _ tt refl)) (sleeps calls _ tt refl))
      (adds 8 100 _ first_pushed (omega arith) refl (omega arith) refl refl)

Reach-Fifo_example : Fifo one_sleeps
Reach-Fifo_example = Reach-Fifo one_sleeps-Reach

sleeping-Delivers_example : Delivers one_sleeps
sleeping-Delivers_example = sleeping-Delivers one_sleeps-Reach (omega arith) (omega arith)
