-- ===== src/Memory/Evict.antt =====
-- The admission test and the eviction of memory.c.
pub mod Drop
pub mod Room
pub mod Admit
pub mod Halves
pub mod Outcome
pub mod Limit
pub mod Clean
use progetto_sol_unipi.Base.{
  ℕ, zero, suc, ◌+◌, Bool, true, false, not, ◌||◌, ◌&&◌, ◌==◌, ltb, if◌then◌else◌,
}
use progetto_sol_unipi.Base.Command.{Cmd, out_of_fuel, pure, gets, modify, ◌>>=◌, ◌>>◌}
use progetto_sol_unipi.Base.Word.{
  u32, add32, add64, sub32, sub64, extend, is_positive32, is_positive64,
}
use progetto_sol_unipi.Memory.State.{null, Server, load, set_errno, ecanceled, e2big}
use progetto_sol_unipi.Memory.Find.{get_actual_files}
use progetto_sol_unipi.Memory.Files.{pop_from_tail, pop_from_head, free_file}

-- The state that `initMemory` leaves, with the limits of the configuration.
unfoldable pub init_memory : (max_files max_memory : ℕ) → Cmd Server (Unit {0})
init_memory max_files max_memory = modify λ s. record s {
  max_files = max_files;
  max_memory = max_memory;
  alg_trigger = 0;
  n_current_file = 0;
  n_current_memory_used = 0;
  max_recv_file = 0;
  max_used_memory = 0;
  memory = null;
}

unfoldable pub alg_counter : Cmd Server (Unit {0})
alg_counter = modify λ s. record s { alg_trigger = add32 s.alg_trigger 1 }

-- Both arguments are `int`; `max_used_memory` is an `unsigned int`.
unfoldable pub is_action_legal : ℕ → ℕ → Cmd Server Bool
is_action_legal number_of_files amount_of_memory = do
  s ← gets λ s. s
  let memory = add64 s.n_current_memory_used (extend amount_of_memory)
  let files = add32 s.n_current_file number_of_files
  if ltb s.max_memory memory || ltb s.max_files files then pure false else do
    modify λ s. record s {
      max_used_memory = if ltb s.max_used_memory memory then u32 memory else s.max_used_memory;
      max_recv_file = if ltb s.max_recv_file files then files else s.max_recv_file;
    }
    pure true

-- The loop that makes room for files.
unfoldable pub file_loop : ℕ → Cmd Server (Unit {0})
file_loop zero = pure tt
file_loop (suc rounds) = do to_remove ← pop_from_tail; free_file to_remove; file_loop rounds

-- The loop that makes room for memory; `amount_to_remove` is an `ssize_t`.
unfoldable pub memory_loop :
    ℕ → (current_memory amount_to_remove amount_of_memory max_memory : ℕ) → Cmd Server (Unit {0})
memory_loop zero current_memory amount_to_remove amount_of_memory max_memory = λ _. out_of_fuel
memory_loop (suc rounds) current_memory amount_to_remove amount_of_memory max_memory = do
  files ← get_actual_files
  if not (is_positive64 amount_to_remove && not (files == 0)) then pure tt else do
    to_remove ← pop_from_tail
    f ← load to_remove
    free_file to_remove
    let left = sub64 current_memory f.used_memory
    memory_loop rounds left (sub64 (add64 left amount_of_memory) max_memory) amount_of_memory
        max_memory

-- The first half of the eviction: whether the counter has been raised.
unfoldable pub evict_files : ℕ → ℕ → ℕ → Cmd Server Bool
evict_files number_of_files to_remove max_files =
    if is_positive32 to_remove && ltb number_of_files max_files
    then (alg_counter >> file_loop to_remove >> pure true)
    else pure false

-- The second half.
unfoldable pub evict_memory : Bool → ℕ → ℕ → Cmd Server (Unit {0})
evict_memory triggered amount_of_memory max_memory = do
  current_memory ← gets λ s. s.n_current_memory_used
  limit ← gets λ s. s.max_memory
  let to_remove = extend (u32 (sub64 (add64 current_memory amount_of_memory) (extend (u32 limit))))
  if not (is_positive64 to_remove && ltb amount_of_memory max_memory) then pure tt else do
    (if triggered then pure tt else alg_counter)
    files ← get_actual_files
    memory_loop (files + 1) current_memory to_remove amount_of_memory max_memory

unfoldable pub cache_algorithm : ℕ → ℕ → Cmd Server (Unit {0})
cache_algorithm number_of_files amount_of_memory = do
  set_errno 0
  legal ← is_action_legal number_of_files (u32 amount_of_memory)
  if legal then set_errno ecanceled else do
    s ← gets λ s. s
    let to_remove = sub32 (add32 s.n_current_file number_of_files) s.max_files
    if ltb s.max_files number_of_files || ltb s.max_memory amount_of_memory
        then set_errno e2big
        else do
          triggered ← evict_files number_of_files to_remove s.max_files
          evict_memory triggered amount_of_memory s.max_memory

unfoldable pub clean_loop : ℕ → Cmd Server (Unit {0})
clean_loop zero = λ _. out_of_fuel
clean_loop (suc rounds) = do
  files ← get_actual_files
  if files == 0 then pure tt else do tmp ← pop_from_head; free_file tmp; clean_loop rounds

unfoldable pub clean_cache : Cmd Server (Unit {0})
clean_cache = do files ← get_actual_files; clean_loop (files + 1)
