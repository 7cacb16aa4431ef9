-- ===== src/Tests/SessionTests.antt =====
-- A client that closes its connection, and one that asks for an operation that there is not.
use progetto_sol_unipi.Base.{◌≡◌, refl, inl, true, [], ◌∷◌, ◌++◌, arith}
use progetto_sol_unipi.Base.Command.{Returns}
use progetto_sol_unipi.Base.Steps.{here, next}
use progetto_sol_unipi.Memory.State.{fifo}
use progetto_sol_unipi.Memory.Files.{Host}
use progetto_sol_unipi.Server.Wire.{World, number, message}
use progetto_sol_unipi.Server.Worker.{
  Job, again, stop, serve, remove_file, close_connection, status_ok,
}
use progetto_sol_unipi.Server.Session.{
  Session, receiving, waiting, ended, receive_job, job_init, send_response, Step, receives, serves,
  replies,
}
use progetto_sol_unipi.Server.Session.Alternates.{Alternates, idle, Reach-Alternates}
use progetto_sol_unipi.Server.Session.Progress.{Reach-Unanswered}
use progetto_sol_unipi.Server.Session.Dispatch.{dispatched, send_req-receive_job}
use progetto_sol_unipi.Client.{Client, send_req}
use progetto_sol_unipi.Tests.{two_files, name_a}

abbrev host : Host
host = record { malloc = 32; open_memstream = true; mutex_init = true }

abbrev closing : Job
closing = record { op = close_connection; flags = 0; filename = name_a }

abbrev asking : World
asking = record {
  server = two_files;
  connected = true;
  incoming = number close_connection ∷ message (97 ∷ 0 ∷ []) ∷ number 0 ∷ [];
  sent = [];
  responses = [];
}

abbrev fresh : Session
fresh = record { phase = receiving; jobs = []; answered = []; world = asking }

abbrev asked : Session
asked = record fresh {
  phase = waiting closing;
  jobs = closing ∷ [];
  world = record asking { incoming = [] };
}

abbrev worked : Session
worked = record {
  phase = waiting closing;
  jobs = [];
  answered = closing ∷ [];
  world = record asking {
    incoming = [];
    responses = (record { err = 0; status_request = status_ok }) ∷ [];
  };
}

abbrev done : Session
done = record {
  phase = ended;
  jobs = [];
  answered = [];
  world = record asking { incoming = []; sent = number status_ok ∷ number 0 ∷ [] };
}

fresh-asked : Step host fifo fresh asked
unfolding receive_job job_init
fresh-asked = receives fresh closing asked.world refl refl

asked-worked : Step host fifo asked worked
unfolding serve
asked-worked = serves asked closing [] again worked.world refl refl refl

worked-done : Step host fifo worked done
unfolding send_response
worked-done = replies worked closing closing [] _ [] true done.world refl refl refl refl

Reach-Alternates_example : Alternates done
Reach-Alternates_example =
    Reach-Alternates host fifo (idle (inl refl) refl refl refl)
      (next (next (next here fresh-asked) asked-worked) worked-done)

abbrev unknown : Job
unknown = record { op = 99; flags = 0; filename = name_a }

abbrev unknown_asked : Session
unknown_asked = record asked { phase = waiting unknown; jobs = unknown ∷ [] }

abbrev unknown_served : Session
unknown_served = record unknown_asked { jobs = [] }

unknown-served : Step host fifo unknown_asked unknown_served
unfolding serve
unknown-served = serves unknown_asked unknown [] stop unknown_asked.world refl refl refl

Reach-Unanswered_example :
    (unknown_served.phase ≡ waiting unknown) × (unknown_served.world.responses ≡ [])
Reach-Unanswered_example =
    Reach-Unanswered host fifo unknown refl refl
      (record { phase = refl; jobs = refl; answered = refl; responses = refl })
      (next here unknown-served)

abbrev client : Client
client = record { connected = true; incoming = []; sent = []; errno = 0; saved = [] }

send_req-receive_job_example :
    Returns
      (λ _ d.
        receive_job (record asking { incoming = d.sent ++ [] })
        ≡ dispatched remove_file name_a 0 (record asking { incoming = [] }))
      (send_req remove_file name_a 0 client)
send_req-receive_job_example =
    send_req-receive_job remove_file 0 name_a [] client asking (omega arith) (omega arith) refl refl
      refl
