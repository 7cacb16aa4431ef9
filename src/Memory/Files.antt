-- ===== src/Memory/Files.antt =====
-- The functions of memory.c that create and free files, add them to the list, take them off it, and
-- write to them.
pub mod Pop
pub mod Add
pub mod Contents
pub mod Remove
use progetto_sol_unipi.Base.{
  ℕ, zero, suc, ◌+◌, ◌++◌, [], Bool, false, not, List, some, none, ◌==◌, ltb, if◌then◌else◌, length,
  take,
}
use progetto_sol_unipi.Base.Command.{Cmd, fault, exit, out_of_fuel, pure, modify, ◌>>=◌, ◌>>◌}
use progetto_sol_unipi.Base.Word.{u32, add32, add64, sub32, sub64, extend, minus_one32}
use progetto_sol_unipi.Memory.State.{
  Ptr, null, Name, lru, Server, load, store, set_file, set_next, set_prev, set_memory, set_errno,
  eexist, max_name,
}
use progetto_sol_unipi.Memory.Find.{get_actual_files, get_head, in_mem, find_file}

-- What the system answers to the calls of `create_file`: the address that `malloc` returns (null if
-- it fails), and whether `open_memstream` and `pthread_mutex_init` succeed.
pub record Host : Type 0 where
  pub malloc : Ptr
  pub open_memstream : Bool
  pub mutex_init : Bool

unfoldable pub create_file : Host → Name → Cmd Server Ptr
create_file host filename =
    if not (ltb (length filename) max_name)
    then pure null
    else if host.malloc == null
    then (λ _. exit)
    else if not host.open_memstream
    then (λ _. exit)
    else if not host.mutex_init
    then (λ _. exit)
    else do
      store host.malloc (
          some (record {
            file = record { buffer = []; used_memory = 0; filename = filename; is_open = false };
            next = null;
            prev = null;
          }))
      pure host.malloc

-- `nCurrentFile++`.
abbrev pub count_file : Cmd Server (Unit {0})
count_file = modify λ s. record s { n_current_file = add32 s.n_current_file 1 }

-- `nCurrentFile -= 1; nCurrentMemoryUsed -= used`.
abbrev pub discount : ℕ → Cmd Server (Unit {0})
discount used = modify λ s. record s {
  n_current_file = sub32 s.n_current_file 1;
  n_current_memory_used = sub64 s.n_current_memory_used used;
}

-- The head insertion of `add_file_to_memory`.
unfoldable pub link_file : Ptr → Cmd Server Ptr
link_file file = do
  files ← get_actual_files
  if files == 0 then (set_memory file >> count_file >> pure file) else do
    tmp ← get_head
    set_memory file
    set_prev file null
    set_next file tmp
    set_prev tmp file
    count_file
    pure file

unfoldable pub add_file_to_memory : Ptr → Cmd Server Ptr
add_file_to_memory file = do
  set_errno 0
  if file == null then pure null else do
    f ← load file
    found ← in_mem (some f.filename)
    if not (found == 0) then (set_errno eexist >> pure null) else link_file file

unfoldable pub free_file : Ptr → Cmd Server (Unit {0})
free_file file = if file == null then pure tt else do load file; store file none

-- The walk of `pop_from_tail` to the last file: `prev` and `cursor` when it ends.
unfoldable pub last_loop : ℕ → Ptr → Ptr → Cmd Server (Ptr × Ptr)
last_loop zero prev cursor = λ _. out_of_fuel
last_loop (suc rounds) prev cursor = if cursor == null then pure (prev, cursor) else do
  f ← load cursor
  if f.next == null then pure (prev, cursor) else last_loop rounds cursor f.next

-- What `pop_from_tail` does with the last file.
unfoldable pub unlink_last : Ptr → Ptr → Cmd Server Ptr
unlink_last prev cursor = do
  f ← load cursor
  if not (f.next == null) then pure null else do
    (if prev == null then pure tt else set_next prev null)
    set_prev cursor null
    set_next cursor null
    discount f.used_memory
    pure cursor

unfoldable pub pop_from_tail : Cmd Server Ptr
pop_from_tail = do
  cursor ← get_head
  if cursor == null then pure null else do
    f ← load cursor
    if f.next == null then (set_memory null >> discount f.used_memory >> pure cursor) else do
      files ← get_actual_files
      (prev, cursor) ← last_loop (files + 1) cursor cursor
      unlink_last prev cursor

unfoldable pub pop_from_head : Cmd Server Ptr
pop_from_head = do
  to_ret ← get_head
  if to_ret == null then pure null else do
    f ← load to_ret
    if f.next == null
        then (set_memory null
            >> discount f.used_memory
            >> set_next to_ret null
            >> set_prev to_ret null
            >> pure to_ret)
        else (set_memory f.next
            >> set_next to_ret null
            >> set_prev to_ret null
            >> discount f.used_memory
            >> pure to_ret)

-- -1 if the file is not in memory, else 1.
unfoldable pub remove_generic_file : Ptr → Cmd Server ℕ
remove_generic_file file = do
  f ← load file
  found ← in_mem (some f.filename)
  if found == 0 then pure minus_one32 else do
    g ← load file
    find_file (some g.filename) lru
    removed ← pop_from_head
    free_file removed
    pure 1

-- The loop of `write_to_file`; `wrote` is an `int`. `fwrite` reads `size` bytes of `buffer`, and
-- `fflush` sets the size of the stream.
unfoldable pub write_loop : ℕ → Ptr → List ℕ → ℕ → ℕ → Cmd Server ℕ
write_loop zero file buffer size wrote = λ _. out_of_fuel
write_loop (suc rounds) file buffer size wrote =
    if not (ltb (extend wrote) size)
    then pure wrote
    else if ltb (length buffer) size
    then (λ _. fault)
    else do
      set_file file (λ f. record f { buffer = f.buffer ++ take size buffer })
      set_file file (λ f. record f { used_memory = length f.buffer })
      write_loop rounds file buffer size (u32 (extend wrote + size))

unfoldable pub write_to_file : Ptr → List ℕ → ℕ → Cmd Server ℕ
write_to_file file buffer size = do
  load file
  wrote ← write_loop (size + 1) file buffer size 0
  modify λ s. record s { n_current_memory_used = add64 s.n_current_memory_used (extend wrote) }
  pure (extend wrote)
