-- ===== src/Tests/ListenerTests.antt =====
-- The main thread of the server, the log, and the connection of a client, on small inputs.
use progetto_sol_unipi.Base.{
  ℕ, zero, suc, ◌+◌, ◌*◌, ◌%◌, ◌<◌, ◌≡◌, refl, Bool, true, false, List, none, some, [], ◌∷◌, arith,
  not,
}
use progetto_sol_unipi.Base.Command.{ok, Returns}
use progetto_sol_unipi.Memory.State.{null, lru, Name}
use progetto_sol_unipi.Config.Entry.{Entry, n_slaves, max_files, max_memory, print_all}
use progetto_sol_unipi.Server.Worker.{Job, read_file}
use progetto_sol_unipi.Listener.{on, hang_up, ArgsThrdClient, Listener, main_loop}
use progetto_sol_unipi.Listener.Accepted.{Accepted, connecting, ending, main_loop-Accepted}
use progetto_sol_unipi.Listener.Boot.{System, Boot}
use progetto_sol_unipi.Log.{Log, log_all, outcomes, all_write, log_all-written}
use progetto_sol_unipi.Client.Connection.{
  Timespec, set_from_msec, set_from_msec-short, nanoseconds, open_connection, Outcome,
  open_connection-Outcome,
}

abbrev first : ArgsThrdClient
first = record { client_fd = 5; queue_of_response = 64 }

abbrev second : ArgsThrdClient
second = record { client_fd = 6; queue_of_response = 72 }

abbrev job : Job
job = record { op = read_file; flags = 0; filename = [] }

abbrev listening : Listener
listening = record {
  server_mode = on;
  err = 0;
  args = none;
  unread = 0;
  clients = [];
  work_list = record { jobs = job ∷ []; sleeping = 1; woken = 0 };
  counter = record { worker_counter = 2; signals = 0 };
}

main_loop-Accepted_example :
    Returns
      (Accepted 2 (first ∷ second ∷ []) (some hang_up) listening)
      (main_loop 2 (connecting (first ∷ second ∷ []) (ending (some hang_up) [])) listening)
main_loop-Accepted_example =
    main_loop-Accepted 2 (omega arith) [] (first ∷ second ∷ []) (some hang_up) listening refl

abbrev entries : List Entry
entries = n_slaves (b'4' ∷ []) ∷ max_files (b'9' ∷ []) ∷ max_memory (b'2' ∷ []) ∷ []

abbrev system : System
system = record {
  config = some (print_all entries);
  log = true;
  mutexes = true;
  socket = true;
  bind = true;
  listen = true;
  signals = true;
  threads = λ i. (0, 0);
}

abbrev boot : Boot
boot = record {
  reader = record {
    config = record {
      n_slaves = 0;
      max_memory = 0;
      max_files = 0;
      socket_path = [];
      log_path = [];
      policy = lru;
    };
    rest = [];
  };
  server = record {
    n_current_memory_used = 0;
    max_memory = 0;
    n_current_file = 0;
    max_files = 0;
    memory = null;
    alg_trigger = 0;
    max_recv_file = 0;
    max_used_memory = 0;
    heap = λ _. none;
    errno = 0;
  };
  workers = 0;
}

abbrev no_log : Log
no_log = record { opened = true; text = []; locked = false }

abbrev three_calls : List (Bool × Name)
three_calls = (true, b'a' ∷ []) ∷ (false, b'b' ∷ []) ∷ (true, b'c' ∷ []) ∷ []

log_all-written_example :
    log_all three_calls no_log
    ≡ ok
        (outcomes three_calls)
        (record no_log { text = (b'a' ∷ []) ∷ []; locked = not (all_write three_calls) })
log_all-written_example = log_all-written three_calls no_log refl

abbrev no_time : Timespec
no_time = record { tv_sec = 0; tv_nsec = 0 }

set_from_msec-short_example :
    (t : Timespec) × (set_from_msec 1500 (some no_time) ≡ some t)
    × (t.tv_nsec < 1000000000)
    × (nanoseconds t + 999000 * (1500 % 1000) ≡ 1500 * 1000000)
set_from_msec-short_example = set_from_msec-short 1500 no_time (omega arith)

-- The third attempt connects.
abbrev third : ℕ → Bool
third zero = false
third (suc zero) = false
third (suc (suc n)) = true

abbrev seconds : ℕ → ℕ
seconds n = n

open_connection-Outcome_example : Outcome third seconds 5 5 (open_connection third seconds 5 6)
open_connection-Outcome_example = open_connection-Outcome third seconds 5 5 (omega arith)
