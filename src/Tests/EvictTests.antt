-- ===== src/Tests/EvictTests.antt =====
-- `cache_algorithm` on a cache of two files, with 5 of 8 bytes and 2 of 3 files in use.
use progetto_sol_unipi.Base.{arith}
use progetto_sol_unipi.Base.Command.{Returns}
use progetto_sol_unipi.Memory.Evict.{cache_algorithm}
use progetto_sol_unipi.Memory.Evict.Admit.{Room}
use progetto_sol_unipi.Memory.Evict.Outcome.{cache_algorithm-Room}
use progetto_sol_unipi.Tests.{two_cells, two_files, two_files-Sound}

cache_algorithm-Room_example :
    Returns (λ _ t. Room 1 4 two_files two_cells t) (cache_algorithm 1 4 two_files)
cache_algorithm-Room_example =
    cache_algorithm-Room two_files 1 4 two_files-Sound (omega arith) (omega arith)
