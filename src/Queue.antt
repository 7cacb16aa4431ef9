-- ===== src/Queue.antt =====
-- queue.c: the queue through which jobs go to the workers, and responses to the thread of a client.
-- A function runs with `listLock` held from its first to its last access, so each is one command;
-- a `pop_element_from_tail` that finds no node waits on `listCond` and changes nothing.
pub mod Line
pub mod Order
pub mod Readers
pub mod Fresh
pub mod History
pub mod Delivery
use progetto_sol_unipi.Base.{
  ℕ, ◌+◌, Bool, true, false, ◌||◌, ◌&&◌, Option, none, some, ◌==◌, if◌then◌else◌,
}
use progetto_sol_unipi.Base.Command.{Cmd, ok, fault, exit, pure, gets, modify, ◌>>=◌, ◌>>◌}
use progetto_sol_unipi.Base.Word.{add32, sub32}
use progetto_sol_unipi.Memory.State.{Ptr, null}

pub record Node : Type 0 where
  pub obj : Ptr
  pub next : Ptr
  pub prev : Ptr

abbrev pub Nodes : Type 0
Nodes = Ptr → Option Node

-- `List` of headers/queue.h, with the heap of its nodes.
pub record Queue : Type 0 where
  pub number_of_nodes : ℕ
  pub list_head : Ptr
  pub tail : Ptr
  pub nodes : Nodes

-- What a call of `pop_element_from_tail` comes to: the node, or a wait for a signal.
pub data Popping : Type 0 where
  popped : Ptr → Popping
  waits : Popping

unfoldable pub put : Nodes → Ptr → Node → Nodes
put h p n a = if a == p then some n else h a

-- `*p`.
unfoldable pub node_at : Ptr → Cmd Queue Node
node_at p q = if p == null then fault else elim (q.nodes p) [ none ↦ fault | some n ↦ ok n q ]

unfoldable pub set_node : Ptr → (Node → Node) → Cmd Queue (Unit {0})
set_node p g = do n ← node_at p; modify λ q. record q { nodes = put q.nodes p (g n) }

unfoldable pub init_list : Queue
init_list = record { number_of_nodes = 0; list_head = null; tail = null; nodes = λ _. none }

-- `create_node`, with the address that `safe_malloc` returns.
unfoldable pub create_node : (malloc obj : Ptr) → Cmd Queue Ptr
create_node malloc obj = if obj == null then pure null else do
  modify
      λ q. record q { nodes = put q.nodes malloc (record { obj = obj; next = null; prev = null }) }
  pure malloc

-- True for the answer 0, false for -1.
unfoldable pub push_node_to_list : Ptr → Cmd Queue Bool
push_node_to_list element = if element == null then pure false else do
  list ← gets λ q. q
  if (list.list_head == null) || (list.number_of_nodes == 0)
      then (do
        set_node element (λ n. record n { prev = null })
        set_node element (λ n. record n { next = null })
        modify λ q. record q {
          list_head = element;
          tail = element;
          number_of_nodes = add32 q.number_of_nodes 1;
        }
        pure true)
      else (do
        let complete_list = list.list_head
        set_node element (λ n. record n { prev = null })
        set_node element (λ n. record n { next = complete_list })
        set_node complete_list (λ n. record n { prev = element })
        modify λ q. record q { list_head = element; number_of_nodes = add32 q.number_of_nodes 1 }
        pure true)

unfoldable pub pop_element_from_tail : Cmd Queue Popping
pop_element_from_tail = do
  list ← gets λ q. q
  if list.number_of_nodes == 0
      then pure waits
      else if (list.tail == null) && (list.list_head == null)
      then (λ _. exit)
      else if list.number_of_nodes == 1
      then (do
        set_node list.tail (λ n. record n { prev = null })
        set_node list.tail (λ n. record n { next = null })
        modify λ q. record q {
          list_head = null;
          tail = null;
          number_of_nodes = sub32 q.number_of_nodes 1;
        }
        pure (popped list.tail))
      else (do
        n ← node_at list.tail
        modify λ q. record q { tail = n.prev }
        set_node n.prev (λ m. record m { next = null })
        modify λ q. record q { number_of_nodes = sub32 q.number_of_nodes 1 }
        set_node list.tail (λ m. record m { prev = null })
        set_node list.tail (λ m. record m { next = null })
        pure (popped list.tail))
