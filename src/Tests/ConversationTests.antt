-- ===== src/Tests/ConversationTests.antt =====
-- Whole turns between a client and a worker, on a cache of two files.
use progetto_sol_unipi.Base.{ℕ, ◌≡◌, refl, true, List, some, [], ◌∷◌, arith}
use progetto_sol_unipi.Base.Command.{Returns}
use progetto_sol_unipi.Memory.State.{Name, lru}
use progetto_sol_unipi.Memory.Names.{equal_names}
use progetto_sol_unipi.Memory.Files.{Host}
use progetto_sol_unipi.Memory.Cache.{Holds, after_use}
use progetto_sol_unipi.Server.Wire.{Packet, World}
use progetto_sol_unipi.Server.Worker.{
  Job, serve_write, serve_remove, serve_open, serve_read, write_file, read_file, remove_file,
  open_file,
}
use progetto_sol_unipi.Server.Worker.Open.{open_response, after_open}
use progetto_sol_unipi.Server.Session.Dispatch.{request_packets}
use progetto_sol_unipi.Client.{Client, remove_request, open_request, read_request}
use progetto_sol_unipi.Client.Conversation.{
  Told, Written, data_packets, to_client, write_request-Written,
}
use progetto_sol_unipi.Client.Reading.{answer, error, read_request-Content}
use progetto_sol_unipi.Server.Worker.View.{view}
use progetto_sol_unipi.Client.Exchange.{remove_request-Removed, open_request-Opened}
use progetto_sol_unipi.Tests.{
  name_a, name_b, file_a, file_b, two_cells, two_files, two_files-Holds, two_files-Sound,
  two_files-Keeps,
}

abbrev host : Host
host = record { malloc = 32; open_memstream = true; mutex_init = true }

abbrev job : ℕ → Name → Job
job op n = record { op = op; flags = 0; filename = n }

abbrev world : List Packet → World
world incoming = record {
  server = two_files;
  connected = true;
  incoming = incoming;
  sent = [];
  responses = [];
}

abbrev client : Client
client = record { connected = true; incoming = []; sent = []; errno = 0; saved = [] }

abbrev two_bytes : List ℕ
two_bytes = 6 ∷ 7 ∷ []

write_request-Written_example :
    Returns
      (λ _ v. Written name_b two_bytes (after_use lru name_b two_cells) client v)
      (serve_write host lru (job write_file name_b) (world (data_packets two_bytes)))
unfolding equal_names
write_request-Written_example =
    write_request-Written host lru (job write_file name_b) (world (data_packets two_bytes)) 16
      file_b two_bytes client two_files-Sound (omega arith) refl refl (refl, refl) refl refl
      (omega arith) (omega arith) refl

remove_request-Removed_example :
    Returns
      (λ _ v.
        Holds v.server ((8, file_a) ∷ [])
        × Returns
            (Told (open_response true) (request_packets remove_file name_b 0) [] [])
            (remove_request (some name_b) (record client { incoming = to_client v })))
      (serve_remove host lru (job remove_file name_b) (world []))
unfolding equal_names
remove_request-Removed_example =
    remove_request-Removed host lru (job remove_file name_b) (world []) client two_files-Holds
      (refl, refl) refl

open_request-Opened_example :
    Returns
      (λ _ v.
        Holds v.server (after_open lru name_b true two_cells)
        × Returns
            (Told (open_response true) (request_packets open_file name_b 0) [] [])
            (open_request name_b 0 (record client { incoming = to_client v })))
      (serve_open host lru (job open_file name_b) (world []))
unfolding equal_names
open_request-Opened_example =
    open_request-Opened host lru (job open_file name_b) (world []) client two_files-Holds
      (refl, refl) refl refl

read_request-Content_example :
    Returns
      (λ _ v.
        Returns
          (λ r d.
            (r ≡ answer (view two_files-Keeps.cells name_a))
            × (d.errno ≡ error (view two_files-Keeps.cells name_a))
            × (d.incoming ≡ []))
          (read_request name_a (record client { incoming = to_client v })))
      (serve_read host lru (job read_file name_a) (world []))
read_request-Content_example =
    read_request-Content host lru (job read_file name_a) (world []) client two_files-Keeps
      (refl, refl) refl refl
