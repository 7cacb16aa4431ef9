-- ===== src/Tests/PoolTests.antt =====
-- Two workers, one of which sleeps, and one job.
use progetto_sol_unipi.Base.{refl, arith, [], ◌∷◌, true}
use progetto_sol_unipi.Base.Steps.{here, next}
use progetto_sol_unipi.Memory.State.{lru}
use progetto_sol_unipi.Server.Worker.{Job, remove_file}
use progetto_sol_unipi.Pool.{Pool, running, test, tests}
use progetto_sol_unipi.Pool.Shutdown.{Leads, flooded, flood_list-Leads}
use progetto_sol_unipi.Tests.{name_a, two_files, two_files-Keeps}

abbrev removal : Job
removal = record { op = remove_file; flags = 0; filename = name_a }

abbrev two_workers : Pool
two_workers = record {
  work_list = record { jobs = removal ∷ []; sleeping = 1; woken = 0 };
  counter = record { worker_counter = 2; signals = 0 };
  main = running;
  world = record { server = two_files; connected = true; incoming = []; sent = []; responses = [] };
}

-- The main thread has tested the counter.
abbrev tested : Pool
tested = record (flooded two_workers) { main = test (flooded two_workers).counter }

flood_list-Leads_example : Leads lru tested
flood_list-Leads_example =
    flood_list-Leads lru 3 8 (omega arith) (omega arith) (omega arith) (omega arith) two_workers
      tested (omega arith) (omega arith) refl (refl, tt) refl two_files-Keeps
      (next here (tests refl))
