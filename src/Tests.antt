-- ===== src/Tests.antt =====
-- Runs of the definitions, and the theorems at concrete inputs: a cache of two files, and a client
-- that is connected.
mod CacheTests
mod EvictTests
mod WorkerTests
mod HistoryTests
mod ListenerTests
mod ConversationTests
mod QueueTests
mod TransferTests
mod ProtocolTests
mod ConfigTests
mod SessionTests
mod PoolTests
mod ArgumentsTests
mod FolderTests
mod ProgramTests
use progetto_sol_unipi.Base.{ℕ, ◌≢◌, refl, true, false, List, some, none, [], ◌∷◌, arith}
use progetto_sol_unipi.Memory.State.{null, Name, File, Heap, Server, write}
use progetto_sol_unipi.Memory.Chain.{Cells, Points, nil, cons, link}
use progetto_sol_unipi.Memory.Cache.{Holds}
use progetto_sol_unipi.Memory.Evict.Admit.{Sound}
use progetto_sol_unipi.Memory.Names.{equal_names}
use progetto_sol_unipi.Server.Worker.Request.{Keeps}

abbrev pub name_a : Name
name_a = 97 ∷ []

abbrev pub name_b : Name
name_b = 98 ∷ []

abbrev pub name_c : Name
name_c = 99 ∷ []

abbrev pub file_a : File
file_a = record { buffer = 1 ∷ 2 ∷ 3 ∷ []; used_memory = 3; filename = name_a; is_open = true }

abbrev pub file_b : File
file_b = record { buffer = 4 ∷ 5 ∷ []; used_memory = 2; filename = name_b; is_open = false }

abbrev pub empty_c : File
empty_c = record { buffer = []; used_memory = 0; filename = name_c; is_open = false }

abbrev pub two_cells : Cells
two_cells = (8, file_a) ∷ (16, file_b) ∷ []

-- The file at 24 is not in the list.
abbrev pub three_heap : Heap
three_heap =
    write (write (write (λ _. none) 8 (link file_a 16 null)) 16 (link file_b null 8)) 24
      (link empty_c null null)

abbrev pub two_files : Server
two_files = record {
  n_current_memory_used = 5;
  max_memory = 8;
  n_current_file = 2;
  max_files = 3;
  memory = 8;
  alg_trigger = 0;
  max_recv_file = 0;
  max_used_memory = 0;
  heap = three_heap;
  errno = 0;
}

pub at_a : Points three_heap 8 file_a 16
unfolding write
at_a = record { ne_null = omega arith; back = null; holds = refl }

pub at_b : Points three_heap 16 file_b null
unfolding write
at_b = record { ne_null = omega arith; back = 8; holds = refl }

pub at_c : Points three_heap 24 empty_c null
unfolding write
at_c = record { ne_null = omega arith; back = null; holds = refl }

pub two_files-Holds : Holds two_files two_cells
two_files-Holds = record {
  chain = cons at_a refl (cons at_b refl nil);
  files = refl;
  used = refl;
  few = omega arith;
  small = omega arith;
}

pub two_files-Sound : Sound two_files two_cells
two_files-Sound = record {
  holds = two_files-Holds;
  max_files = omega arith;
  max_memory = omega arith;
  total_small = omega arith;
}

pub two_files-Keeps : Keeps 3 8 two_files
unfolding equal_names
two_files-Keeps = record {
  cells = two_cells;
  holds = two_files-Holds;
  stored = record { tidy = (refl, refl, (refl, refl, tt)); few = omega arith; small = omega arith };
  max_files = refl;
  max_memory = refl;
}
