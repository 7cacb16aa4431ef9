-- ===== src/Memory/Find.antt =====
-- The search functions of memory.c: `inMem`, `policy_routine`, `find_file`. A loop along the `next`
-- pointers is given one round more than there are files.
pub mod Search
pub mod Front
pub mod Found
use progetto_sol_unipi.Base.{
  ℕ, zero, suc, ◌+◌, true, false, Option, none, some, ◌==◌, if◌then◌else◌,
}
use progetto_sol_unipi.Base.Command.{Cmd, out_of_fuel, exit, pure, gets, ◌>>=◌, ◌>>◌}
use progetto_sol_unipi.Base.Word.{minus_one32}
use progetto_sol_unipi.Memory.State.{
  Ptr, null, Name, Policy, fifo, lru, Server, load, set_file, set_next, set_memory, set_errno,
  enoent,
}
use progetto_sol_unipi.Memory.Names.{equal_names}

abbrev pub get_actual_files : Cmd Server ℕ
get_actual_files = gets (λ s. s.n_current_file)

abbrev pub get_head : Cmd Server Ptr
get_head = gets (λ s. s.memory)

unfoldable pub next : Ptr → Cmd Server Ptr
next start = if start == null then pure null else do f ← load start; pure f.next

unfoldable pub in_mem_loop : ℕ → Ptr → Name → Cmd Server ℕ
in_mem_loop zero cursor filename = pure 0
in_mem_loop (suc rounds) cursor filename = do
  f ← load cursor
  if equal_names f.filename filename then pure 1 else do
    cursor ← next cursor
    if cursor == null then pure 0 else in_mem_loop rounds cursor filename

-- 1 if the file is in memory, 0 if not, -1 for a null name.
unfoldable pub in_mem : Option Name → Cmd Server ℕ
in_mem none = pure minus_one32
in_mem (some filename) = do
  cursor ← get_head
  files ← get_actual_files
  in_mem_loop files cursor filename

-- The loop of `policy_routine`: `prev` and `cursor` when it ends.
unfoldable pub position_loop : ℕ → Ptr → Ptr → Name → Cmd Server (Ptr × Ptr)
position_loop zero prev cursor filename = λ _. out_of_fuel
position_loop (suc rounds) prev cursor filename = if cursor == null then pure (prev, cursor) else do
  f ← load cursor
  if equal_names f.filename filename
      then pure (prev, cursor)
      else position_loop rounds cursor f.next filename

-- The relinking at the end of `policy_routine`.
unfoldable pub move_to_head : Ptr → Ptr → Cmd Server (Unit {0})
move_to_head prev cursor = do
  f ← load cursor
  set_next prev f.next
  memory ← get_head
  set_next cursor memory
  set_memory cursor

unfoldable pub policy_routine : Policy → Ptr → Cmd Server (Unit {0})
policy_routine fifo file = pure tt
policy_routine lru file = if file == null then pure tt else do
  memory ← get_head
  first ← load memory
  f ← load file
  if equal_names first.filename f.filename then pure tt else do
    files ← get_actual_files
    (prev, cursor) ← position_loop (files + 1) null memory f.filename
    move_to_head prev cursor

unfoldable pub find_loop : ℕ → Ptr → Name → Policy → Cmd Server Ptr
find_loop zero cursor filename policy = λ _. out_of_fuel
find_loop (suc rounds) cursor filename policy = if cursor == null then pure null else do
  f ← load cursor
  if equal_names f.filename filename
      then policy_routine policy cursor >> pure cursor
      else find_loop rounds f.next filename policy

-- The address of the file, or null with `errno` set.
unfoldable pub find_file : Option Name → Policy → Cmd Server Ptr
find_file none policy = do set_errno 0; pure null
find_file (some filename) policy = do
  set_errno 0
  found ← in_mem (some filename)
  if found == 0 then (set_errno enoent >> pure null) else do
    cursor ← get_head
    files ← get_actual_files
    find_loop (files + 1) cursor filename policy

-- `set_file_open` and `set_file_close`.
unfoldable pub set_file_open : Ptr → Cmd Server (Unit {0})
set_file_open file =
    if file == null then (λ _. exit) else set_file file (λ f. record f { is_open = true })

unfoldable pub set_file_close : Ptr → Cmd Server (Unit {0})
set_file_close file =
    if file == null then (λ _. exit) else set_file file (λ f. record f { is_open = false })
