-- ===== src/Listener.antt =====
-- The main thread of server.c: the loop that accepts clients, and the
-- signals. What the system answers is a parameter.
pub mod Accepted
pub mod Arguments
pub mod Boot
pub mod Start
use progetto_sol_unipi.Base.{
  ℕ, zero, suc, ◌+◌, ◌<◌, ◌≡◌, Bool, true, false, not, List, Option, none, some, [], ◌∷◌, ◌++◌,
  ◌==◌, ltb, ◌&&◌, if◌then◌else◌,
}
use progetto_sol_unipi.Base.Command.{Cmd, ok, exit, pure, gets, modify, ◌>>=◌, ◌>>◌}
use progetto_sol_unipi.Base.Word.{minus_one32}
use progetto_sol_unipi.Memory.State.{Ptr}
use progetto_sol_unipi.Pool.{Counter, passes, WorkList, flood_list, wake_all}

-- `ON`, `OFF` and `GRACEFUL` of headers/server_utils.h.
pub data Mode : Type 0 where
  on off graceful : Mode

-- The signals that the server handles: SIGHUP, and SIGINT or SIGQUIT.
pub data Caught : Type 0 where
  hang_up interrupt : Caught

abbrev pub handle_graceful : Mode
handle_graceful = graceful

abbrev pub handle_shutdown : Mode
handle_shutdown = off

abbrev pub handler : Caught → Mode
handler hang_up = handle_graceful
handler interrupt = handle_shutdown

-- `Client` of server.c, the arguments of the thread of a client.
pub record ArgsThrdClient : Type 0 where
  pub client_fd : ℕ
  pub queue_of_response : Ptr

-- What a `pselect` comes to: so many descriptors are ready; a signal has come, and its handler has
-- run if it has one here; or another error.
pub data Selected : Type 0 where
  ready : ℕ → Selected
  interrupted : Option Caught → Selected
  failed : Selected

-- The answers of the system in one round of the loop: `accept` gives a descriptor or fails, the list
-- of `initList` stands at `list`, and the two calls of `safe_pthread_create` answer an error number.
pub record Round : Type 0 where
  pub selected : Selected
  pub accepted : Option ℕ
  pub list : Ptr
  pub pthread_create : ℕ
  pub pthread_detach : ℕ

-- `args` is the variable of `main` whose address each thread gets; `unread` threads have been
-- created and have not read it yet; `clients` are those that have. `counter` counts the workers.
pub record Listener : Type 0 where
  pub server_mode : Mode
  pub err : ℕ
  pub args : Option ArgsThrdClient
  pub unread : ℕ
  pub clients : List ArgsThrdClient
  pub work_list : WorkList
  pub counter : Counter

-- `safe_pthread_create` of utils.c with a thread that is detached: `start` is what the thread's
-- creation does.
unfoldable pub safe_pthread_create :
    {S : Type 0} → (create detach : ℕ) → Cmd S (Unit {0}) → Cmd S (Unit {0})
safe_pthread_create create detach start =
    if not (create == 0)
    then (λ _. exit)
    else do start; if not (detach == 0) then (λ _. exit) else pure tt

abbrev pub is_on : Mode → Bool
is_on on = true
is_on off = false
is_on graceful = false

abbrev pub is_off : Mode → Bool
is_off on = false
is_off off = true
is_off graceful = false

abbrev pub is_graceful : Mode → Bool
is_graceful on = false
is_graceful off = false
is_graceful graceful = true

-- `pselect`, and the test of its answer.
unfoldable pub do_select : Selected → Cmd Listener (Unit {0})
do_select (ready n) = modify λ l. record l { err = n }
do_select (interrupted none) = modify λ l. record l { err = minus_one32 }
do_select (interrupted (some c)) =
    modify λ l. record l { err = minus_one32; server_mode = handler c }
do_select failed = λ _. exit

-- A client that connects: its thread gets the address of `args`.
unfoldable pub accept_client : Round → Cmd Listener (Unit {0})
accept_client r = elim r.accepted [
  | none ↦ (λ _. exit)
  | some fd ↦
      (modify
          (λ l. record l { args = some (record { client_fd = fd; queue_of_response = r.list }) })
        >> safe_pthread_create r.pthread_create r.pthread_detach
            (modify λ l. record l { unread = l.unread + 1 }))
]

-- What a round comes to: the loop goes on; it is left; or the thread waits in
-- `wait_on_worker_number` before it leaves the loop.
pub data Next : Type 0 where
  goes_on leaves waits_for_workers : Next

-- One round of the loop. What wakes the thread from its wait for the workers is in Pool.
unfoldable pub round : ℕ → Round → Cmd Listener Next
round n_slaves r = do
  mode ← gets λ l. l.server_mode
  (if is_on mode then do_select r.selected else pure tt)
  l ← gets λ l. l
  (if (not (l.err == 0) && is_on l.server_mode) then accept_client r else pure tt)
  if (not (l.err == 0) && is_graceful l.server_mode)
      then (modify (λ l. record l { work_list = flood_list n_slaves l.work_list })
          >> modify (λ l. record l { work_list = wake_all l.work_list })
          >> gets (λ l. if passes l.counter then leaves else waits_for_workers))
      else pure goes_on

-- Whether the loop has ended, waits for the next event, or waits for the workers.
pub data Loop : Type 0 where
  waits ended ending_workers : Loop

unfoldable pub main_loop : ℕ → List Round → Cmd Listener Loop
main_loop n_slaves [] = do
  mode ← gets λ l. l.server_mode
  if is_off mode then pure ended else pure waits
main_loop n_slaves (r ∷ rounds) = do
  mode ← gets λ l. l.server_mode
  if is_off mode then pure ended else do
    next ← round n_slaves r
    elim next [
      | goes_on ↦ main_loop n_slaves rounds
      | leaves ↦ pure ended
      | waits_for_workers ↦ pure ending_workers
    ]
