-- ===== src/Tests/WorkerTests.antt =====
-- Turns of a worker and requests of a client, on a cache of two files.
use progetto_sol_unipi.Base.{ℕ, ◌≡◌, refl, true, false, List, [], ◌∷◌, arith}
use progetto_sol_unipi.Base.Command.{fault, Returns}
use progetto_sol_unipi.Memory.State.{Name, fifo, lru, e2big}
use progetto_sol_unipi.Memory.Names.{equal_names}
use progetto_sol_unipi.Memory.Files.{Host}
use progetto_sol_unipi.Server.Wire.{Packet, number, message, World}
use progetto_sol_unipi.Server.Worker.{
  Job, Turn, serve_readn, readn_file, serve_write, write_file, serve_create, serve_close,
  serve_read, serve_append, open_file, close_file, read_file, append_file, continue, no_continue,
  status_ok, not_ok, eacces,
}
use progetto_sol_unipi.Server.Worker.Served.{Served}
use progetto_sol_unipi.Server.Worker.Read.{serve_read-Served}
use progetto_sol_unipi.Server.Worker.Close.{serve_close-Served}
use progetto_sol_unipi.Server.Worker.Append.{serve_append-fault}
use progetto_sol_unipi.Server.Worker.Create.{Created, serve_create-Created}
use progetto_sol_unipi.Server.Worker.Writing.{Wrote, serve_write-Wrote}
use progetto_sol_unipi.Server.Worker.Refusal.{serve_write-append-Refused}
use progetto_sol_unipi.Server.Worker.Several.{serve_readn-Served}
use progetto_sol_unipi.Tests.{
  name_a, name_b, name_c, file_a, file_b, two_cells, two_files, two_files-Holds, two_files-Sound,
}

abbrev host : Host
host = record { malloc = 32; open_memstream = true; mutex_init = true }

abbrev job : ℕ → Name → Job
job op n = record { op = op; flags = 0; filename = n }

abbrev world : List Packet → World
world incoming = record {
  server = two_files;
  connected = true;
  incoming = incoming;
  sent = [];
  responses = [];
}

serve_read-Served_example :
    Returns
      (Served
        (world [])
        ((8, file_a) ∷ (16, file_b) ∷ [])
        (number continue ∷ number continue ∷ number 3 ∷ message (1 ∷ 2 ∷ 3 ∷ []) ∷ [])
        (record { err = 0; status_request = status_ok } ∷ [])
        [])
      (serve_read host lru (job read_file name_a) (world []))
unfolding equal_names
serve_read-Served_example =
    serve_read-Served host lru (job read_file name_a) (world []) two_files-Holds refl

serve_close-Served_example :
    Returns
      (Served
        (world [])
        ((8, record file_a { is_open = false }) ∷ (16, file_b) ∷ [])
        (number continue ∷ number no_continue ∷ [])
        (record { err = 0; status_request = status_ok }
          ∷ record { err = eacces; status_request = not_ok }
          ∷ [])
        [])
      (serve_close host fifo (job close_file name_a) (world []))
unfolding equal_names
serve_close-Served_example =
    serve_close-Served host fifo (job close_file name_a) (world []) two_files-Holds refl refl

abbrev seven : List ℕ
seven = 1 ∷ 2 ∷ 3 ∷ 4 ∷ 5 ∷ 6 ∷ 7 ∷ []

serve_append-fault_example :
    serve_append host fifo (job append_file name_b) (world (number 7 ∷ message seven ∷ [])) ≡ fault
unfolding equal_names
serve_append-fault_example =
    serve_append-fault host (job append_file name_b) (world (number 7 ∷ message seven ∷ []))
      ((8, file_a) ∷ []) 16 file_b 7 seven [] two_files-Sound refl refl refl refl (omega arith)
      (omega arith) (omega arith)

serve_create-Created_example :
    Returns
      (Created (world []) two_cells 32 name_c)
      (serve_create host lru (job open_file name_c) (world []))
unfolding equal_names
serve_create-Created_example =
    serve_create-Created host lru (job open_file name_c) (world []) two_files-Sound refl
      (omega arith) (omega arith) (refl, refl) refl (omega arith) (omega arith)

serve_write-Wrote_example :
    Returns
      (Wrote
        (world (number 7 ∷ message seven ∷ []))
        name_b
        seven
        ((16, file_b) ∷ (8, file_a) ∷ [])
        [])
      (serve_write host lru (job write_file name_b) (world (number 7 ∷ message seven ∷ [])))
unfolding equal_names
serve_write-Wrote_example =
    serve_write-Wrote host lru (job write_file name_b) (world (number 7 ∷ message seven ∷ [])) 16
      file_b seven [] two_files-Sound refl refl refl refl (omega arith) (omega arith)

abbrev announced : World
announced = world (number 9 ∷ [])

abbrev Refusal : Turn → World → Type 0
Refusal =
    Served announced two_cells (number continue ∷ number no_continue ∷ [])
      (record { err = e2big; status_request = not_ok } ∷ []) []

serve_write-append-Refused_example :
    Returns Refusal (serve_write host lru (job write_file name_a) announced)
    × Returns Refusal (serve_append host lru (job write_file name_a) announced)
unfolding equal_names
serve_write-append-Refused_example =
    serve_write-append-Refused host lru (job write_file name_a) announced 8 file_a 9 []
      two_files-Sound refl refl refl (omega arith) (omega arith)

abbrev one_file : Job
one_file = record { op = readn_file; flags = 1; filename = [] }

serve_readn-Served_example :
    Returns
      (Served
        (world [])
        two_cells
        (number 1 ∷ number continue ∷ message (1 ∷ 2 ∷ 3 ∷ []) ∷ number 3 ∷ [])
        (record { err = 0; status_request = status_ok } ∷ [])
        [])
      (serve_readn host lru one_file (world []))
serve_readn-Served_example =
    serve_readn-Served host lru (world []) one_file two_cells two_files-Holds refl
