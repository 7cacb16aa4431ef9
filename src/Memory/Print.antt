-- ===== src/Memory/Print.antt =====
-- What memory.c prints. `printFiles`: the names between its two lines of signs. The loop reads the number of
-- files anew before each name, and is given one round more than there are files.
use progetto_sol_unipi.Base.{
  ℕ, zero, suc, ◌+◌, ◌/◌, ◌<◌, ◌≡◌, true, false, not, List, [], ◌∷◌, arith, ltb, if◌then◌else◌,
  length,
}
use progetto_sol_unipi.Base.Command.{Cmd, ok, out_of_fuel, pure, gets, ◌>>=◌}
use progetto_sol_unipi.Memory.State.{Ptr, null, Name, Server, load}
use progetto_sol_unipi.Memory.Chain.{Cells, Chain, Chain-uncons, not_null, load_lem}
use progetto_sol_unipi.Memory.Cache.{Holds}
use progetto_sol_unipi.Memory.Find.{get_actual_files, get_head, next}

unfoldable pub print_loop : (fuel i : ℕ) → Ptr → Cmd Server (List Name)
print_loop zero i head = λ _. out_of_fuel
print_loop (suc fuel) i head = do
  files ← get_actual_files
  if not (ltb i files) then pure [] else do
    f ← load head
    after ← next head
    names ← print_loop fuel (i + 1) after
    pure (f.filename ∷ names)

unfoldable pub print_files : Cmd Server (List Name)
print_files = do head ← get_head; files ← get_actual_files; print_loop (files + 1) 0 head

-- The numbers that `print_server_general` prints, in its order; a megabyte has 1000000 bytes.
abbrev pub print_server_general : (pid : ℕ) → Cmd Server (List ℕ)
print_server_general pid = gets λ s.
    s.n_current_file
    ∷ s.max_files
    ∷ s.n_current_memory_used
    ∷ s.max_memory
    ∷ s.n_current_memory_used / 1000000
    ∷ s.max_memory / 1000000
    ∷ pid
    ∷ s.alg_trigger
    ∷ s.max_recv_file
    ∷ s.max_used_memory
    ∷ []

abbrev pub filenames : Cells → List Name
filenames [] = []
filenames ((_, f) ∷ xs) = f.filename ∷ filenames xs

module _ (s : Server) where
  print_loop_lem :
      (xs : Cells) (k i : ℕ) {p : Ptr}
      → Chain s.heap null p xs
      → i + length xs ≡ s.n_current_file
      → length xs < k
      → print_loop k i p s ≡ ok (filenames xs) s
  unfolding print_loop next
  print_loop_lem xs zero i c all fuel = absurd (omega arith)
  print_loop_lem [] (suc k) i c all fuel =
      let last : ltb i s.n_current_file ≡ false = ground arith in rw last
  print_loop_lem ((b, g) ∷ xs) (suc k) i c all fuel =
      let (r, e, here, out, rest) = Chain-uncons c in
      let more : ltb i s.n_current_file ≡ true = ground arith in
      rw (
        more,
        e,
        load_lem s here,
        not_null here,
        load_lem s here,
        print_loop_lem xs k (i + 1) rest (omega arith) (omega arith),
      )

  -- The names are printed in the order of the list, and nothing changes: the loop meets no null
  -- pointer.
  pub print_files_lem : (xs : Cells) → Holds s xs → print_files s ≡ ok (filenames xs) s
  unfolding print_files
  print_files_lem xs h =
      let files = h.files in
      print_loop_lem xs (s.n_current_file + 1) 0 h.chain (omega arith) (omega arith)
