-- ===== src/Pool.antt =====
-- server_utils.c and the end of server.c: the counter of the workers, and the shutdown that waits
-- for it.
pub mod Flood
pub mod Settled
pub mod Shutdown
use progetto_sol_unipi.Base.{
  ℕ, zero, suc, ◌+◌, ◌-◌, ◌<◌, ◌≡◌, Bool, true, false, List, Option, none, some, [], ◌∷◌, ◌++◌,
  ◌==◌, ◌^◌, ltb, if◌then◌else◌,
}
use progetto_sol_unipi.Base.Command.{ok}
use progetto_sol_unipi.Base.Word.{add32}
use progetto_sol_unipi.Memory.State.{Name, Policy}
use progetto_sol_unipi.Server.Wire.{World}
use progetto_sol_unipi.Server.Worker.{Job, Turn, again, stop, serve, end_worker}
use progetto_sol_unipi.Server.Worker.Request.{Request, taken}
use progetto_sol_unipi.Server.Session.{job_init}

-- `workerCounter`, and how often the condition `waitOnworkers` has been signalled.
pub record Counter : Type 0 where
  pub worker_counter : ℕ
  pub signals : ℕ

unfoldable pub worker_add : Counter → Counter
worker_add c = record c { worker_counter = add32 c.worker_counter 1 }

unfoldable pub worker_sub : Counter → Counter
worker_sub c =
    if c.worker_counter == 0
    then record c { signals = c.signals + 1 }
    else (let left = c.worker_counter - 1 in
        record { worker_counter = left; signals = if left == 0 then c.signals + 1 else c.signals })

abbrev pub get_worker_number : Counter → ℕ
get_worker_number c = c.worker_counter

-- The test of `wait_on_worker_number`, under the lock: whether the thread goes on. Otherwise it
-- waits for a signal and tests again.
unfoldable pub passes : Counter → Bool
passes c = c.worker_counter == 0

-- The text "Nop".
abbrev pub nop : Name
nop = b'N' ∷ b'o' ∷ b'p' ∷ []

-- The global `workList` as the threads see it: the jobs, the oldest first; how many workers sleep in
-- `pop_element_from_tail`; and how many have been signalled there and have not run yet.
pub record WorkList : Type 0 where
  pub jobs : List Job
  pub sleeping : ℕ
  pub woken : ℕ

-- `push_node_to_list`, whose `signal` wakes one worker that sleeps.
unfoldable pub push_job : Job → WorkList → WorkList
push_job job l =
    if l.sleeping == 0
    then record l { jobs = l.jobs ++ job ∷ [] }
    else record { jobs = l.jobs ++ job ∷ []; sleeping = l.sleeping - 1; woken = l.woken + 1 }

-- `wake_up_all_readers` of the list.
unfoldable pub wake_all : WorkList → WorkList
wake_all l = record l { sleeping = 0; woken = l.woken + l.sleeping }

-- The job that ends a worker, `n` times.
unfoldable pub flood_loop : ℕ → WorkList → WorkList
flood_loop zero l = l
flood_loop (suc n) l = elim (job_init end_worker 0 nop) [
  | none ↦ l
  | some job ↦ flood_loop n (push_job job l)
]

-- `N` is an `int`: from 2 ^ 31 on, the unsigned number that is passed for it is taken for a negative
-- one.
unfoldable pub flood_list : ℕ → WorkList → WorkList
flood_list n l = if ltb n (2 ^ 31) then flood_loop n l else l

-- What the main thread does: `waiting` in `wait_on_worker_number` for a signal, having seen so many
-- of them.
pub data Main : Type 0 where
  running passed : Main
  waiting : ℕ → Main

pub record Pool : Type 0 where
  pub work_list : WorkList
  pub counter : Counter
  pub main : Main
  pub world : World

-- The test, and what the main thread does after it.
unfoldable pub test : Counter → Main
test c = if passes c then passed else waiting c.signals

-- A worker calls `pop_element_from_tail`, or comes back from its wait there.
pub data Caller : Type 0 where
  calls returns_from_wait : Caller

-- There is such a worker.
abbrev pub Ready : Caller → Pool → Type 0
Ready calls s = s.work_list.sleeping + s.work_list.woken < s.counter.worker_counter
Ready returns_from_wait s = 0 < s.work_list.woken

abbrev pub leaves_wait : Caller → WorkList → WorkList
leaves_wait calls l = l
leaves_wait returns_from_wait l = record l { woken = l.woken - 1 }

-- The worker goes on after a turn, or ends.
abbrev pub counter_after : Turn → Counter → Counter
counter_after again c = c
counter_after stop c = worker_sub c

-- The steps once all workers have started. A worker takes the oldest job and serves it to the end,
-- for a client that is connected, whatever that has sent and the system answers; or it finds no job
-- and sleeps. The main thread tests the counter and, if it has to wait, again after a signal.
module _ (policy : Policy) where
  pub data Step (s : Pool) : Pool → Type 0 where
    serves :
        (r : Caller) (q : Request) (jobs : List Job) (turn : Turn) (w : World)
        → Ready r s
        → s.work_list.jobs ≡ q.job ∷ jobs
        → serve q.host policy q.job (taken q s.world) ≡ ok turn w
        → Step s (record s {
          work_list = record (leaves_wait r s.work_list) { jobs = jobs };
          counter = counter_after turn s.counter;
          world = w;
        })
    sleeps :
        (r : Caller)
        → Ready r s
        → s.work_list.jobs ≡ []
        → Step s (record s {
          work_list = record (leaves_wait r s.work_list) { sleeping = s.work_list.sleeping + 1 };
        })
    tests : s.main ≡ running → Step s (record s { main = test s.counter })
    wakes :
        (seen : ℕ)
        → s.main ≡ waiting seen
        → seen < s.counter.signals
        → Step s (record s { main = test s.counter })
