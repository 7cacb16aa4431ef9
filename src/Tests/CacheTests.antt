-- ===== src/Tests/CacheTests.antt =====
-- The functions of memory.c on a cache of two files.
use progetto_sol_unipi.Base.{◌≡◌, refl, some, [], ◌∷◌, arith}
use progetto_sol_unipi.Base.Command.{Returns}
use progetto_sol_unipi.Memory.State.{lru}
use progetto_sol_unipi.Memory.Names.{equal_names}
use progetto_sol_unipi.Memory.Chain.{SameOutside}
use progetto_sol_unipi.Memory.Cache.{Holds}
use progetto_sol_unipi.Memory.Find.{find_file}
use progetto_sol_unipi.Memory.Find.Found.{Found, find_file-Found}
use progetto_sol_unipi.Memory.Files.{pop_from_tail, remove_generic_file, write_to_file}
use progetto_sol_unipi.Memory.Files.Contents.{write_to_file-Written}
use progetto_sol_unipi.Memory.Files.Pop.{Popped, pop_from_tail-Popped}
use progetto_sol_unipi.Memory.Files.Remove.{Removed, remove_generic_file-Removed}
use progetto_sol_unipi.Memory.Evict.{clean_cache}
use progetto_sol_unipi.Memory.Evict.Clean.{Cleaned, clean_cache-Cleaned}
use progetto_sol_unipi.Tests.{name_b, file_a, file_b, two_cells, two_files, two_files-Holds}

find_file-Found_example :
    Returns (Found two_files name_b lru two_cells) (find_file (some name_b) lru two_files)
unfolding equal_names
find_file-Found_example = find_file-Found two_files name_b lru two_files-Holds

write_to_file-Written_example :
    Returns
      (λ r t.
        (r ≡ 2)
        × Holds t (
            (8, file_a) ∷ (16, record file_b { buffer = 4 ∷ 5 ∷ 6 ∷ 7 ∷ []; used_memory = 4 }) ∷ [])
        × SameOutside two_cells two_files.heap t.heap)
      (write_to_file 16 (6 ∷ 7 ∷ 0 ∷ []) 2 two_files)
write_to_file-Written_example =
    write_to_file-Written two_files ((8, file_a) ∷ []) 16 file_b [] two_files-Holds (6 ∷ 7 ∷ 0 ∷ [])
      2 (omega arith) (omega arith) refl (omega arith)

pop_from_tail-Popped_example :
    Returns (Popped two_files two_cells ((8, file_a) ∷ []) (16, file_b)) (pop_from_tail two_files)
pop_from_tail-Popped_example =
    pop_from_tail-Popped two_files ((8, file_a) ∷ []) (16, file_b) two_files-Holds

remove_generic_file-Removed_example :
    Returns (Removed two_files two_cells 16 file_b) (remove_generic_file 16 two_files)
unfolding equal_names
remove_generic_file-Removed_example =
    remove_generic_file-Removed two_files 16 file_b two_files-Holds refl

clean_cache-Cleaned_example : Returns (λ _ t. Cleaned two_files two_cells t) (clean_cache two_files)
clean_cache-Cleaned_example = clean_cache-Cleaned two_files two_cells two_files-Holds
