-- ===== src/Tests/HistoryTests.antt =====
-- Histories of turns of a worker: on a cache of two files, and from an empty one.
use progetto_sol_unipi.Base.{ℕ, ◌<◌, ◌^◌, ◌≡◌, refl, true, false, List, none, [], ◌∷◌, arith}
use progetto_sol_unipi.Base.Command.{Run, ok, fault, exit, out_of_fuel, Returns}
use progetto_sol_unipi.Base.Steps.{here, next}
use progetto_sol_unipi.Memory.State.{null, lru, Server, load, set_file, write}
use progetto_sol_unipi.Memory.Files.{Host, create_file, add_file_to_memory, link_file}
use progetto_sol_unipi.Memory.Find.{in_mem, in_mem_loop, set_file_open}
use progetto_sol_unipi.Memory.Evict.{cache_algorithm, is_action_legal, init_memory}
use progetto_sol_unipi.Server.Wire.{number, message, World}
use progetto_sol_unipi.Server.Worker.{
  Turn, again, serve, serve_open, serve_create, open_file, write_file, o_create,
}
use progetto_sol_unipi.Server.Worker.Request.{Request, Fair, Keeps, whole, taken}
use progetto_sol_unipi.Server.Worker.History.{Refined, serve-Refined, turned, Reach-Keeps}
use progetto_sol_unipi.Tests.{name_b, name_c, two_files, two_files-Keeps}

abbrev host : Host
host = record { malloc = 32; open_memstream = true; mutex_init = true }

abbrev stored : World
stored = record { server = two_files; connected = false; incoming = []; sent = []; responses = [] }

abbrev seven : List ℕ
seven = 1 ∷ 2 ∷ 3 ∷ 4 ∷ 5 ∷ 6 ∷ 7 ∷ []

abbrev write_b : Request
write_b = record {
  host = host;
  job = record { op = write_file; flags = 0; filename = name_b };
  packets = number 7 ∷ message seven ∷ [];
}

write_b-Fair : Fair 8 write_b two_files
write_b-Fair = record {
  create = λ e. absurd (ground arith);
  write = λ e there. whole seven [] (omega arith);
  append = λ e there. absurd (ground arith);
}

many : 1 < 3
many = omega arith

few : 3 < 2 ^ 31
few = omega arith

some_memory : 0 < 8
some_memory = omega arith

small : 8 < 2 ^ 31
small = omega arith

serve-Refined_example :
    Returns
      (λ _ t. Refined lru 3 8 many few some_memory small write_b stored two_files-Keeps t)
      (serve host lru write_b.job (taken write_b stored))
serve-Refined_example =
    serve-Refined lru 3 8 many few some_memory small write_b stored two_files-Keeps write_b-Fair

abbrev empty : Server
empty = record {
  n_current_memory_used = 0;
  max_memory = 8;
  n_current_file = 0;
  max_files = 3;
  memory = null;
  alg_trigger = 0;
  max_recv_file = 0;
  max_used_memory = 0;
  heap = λ _. none;
  errno = 0;
}

abbrev started : World
started = record { server = empty; connected = false; incoming = []; sent = []; responses = [] }

abbrev create_c : Request
create_c = record {
  host = host;
  job = record { op = open_file; flags = o_create; filename = name_c };
  packets = [];
}

create_c-Fair : Fair 8 create_c empty
create_c-Fair = record {
  create = λ e. (
    omega arith,
    record { not_null = omega arith; fresh = refl; open_memstream = refl; mutex_init = refl },
  );
  write = λ e there. absurd (ground arith);
  append = λ e there. absurd (ground arith);
}

abbrev result : Run World Turn → World
result (ok r w) = w
result fault = started
result exit = started
result out_of_fuel = started

abbrev grown : World
unfolding serve serve_open serve_create in_mem in_mem_loop cache_algorithm is_action_legal
    create_file add_file_to_memory link_file set_file_open set_file load write
grown = result (serve host lru create_c.job (taken create_c started))

created_c : serve host lru create_c.job (taken create_c started) ≡ ok again grown
unfolding serve serve_open serve_create in_mem in_mem_loop cache_algorithm is_action_legal
    create_file add_file_to_memory link_file set_file_open set_file load write
created_c = refl

Reach-Keeps_example : Keeps 3 8 grown.server
unfolding init_memory
Reach-Keeps_example =
    Reach-Keeps lru 3 8 (omega arith) (omega arith) (omega arith) (omega arith) started empty refl
      (next here (turned create_c create_c-Fair created_c))
