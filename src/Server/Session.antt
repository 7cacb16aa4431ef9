-- ===== src/Server/Session.antt =====
-- `client_thread` of server.c, the turns of the worker between its turns, and the queues of the
-- two.
pub mod Parts
pub mod Answers
pub mod Alternates
pub mod Progress
pub mod Dispatch
pub mod Service
use progetto_sol_unipi.Base.{
  ℕ, zero, suc, ◌≡◌, Bool, true, false, List, Option, none, some, [], ◌∷◌, ◌++◌, ◌==◌, ltb,
  if◌then◌else◌, length,
}
use progetto_sol_unipi.Base.Command.{Cmd, ok, exit, pure, ◌>>=◌}
use progetto_sol_unipi.Base.Word.{u32}
use progetto_sol_unipi.Memory.State.{Name, Policy, Server, max_name}
use progetto_sol_unipi.Memory.Files.{Host}
use progetto_sol_unipi.Server.Wire.{World, Response, send_number, recv_number, recv_message}
use progetto_sol_unipi.Server.Worker.{
  Job, Turn, again, stop, serve, close_file, close_connection, end_worker,
}

-- The C string in a buffer.
abbrev pub c_string : List ℕ → Name
c_string [] = []
c_string (c ∷ buffer) = if c == 0 then [] else c ∷ c_string buffer

-- `jobInit` of a name that is not null, and of a queue that is not.
unfoldable pub job_init : ℕ → ℕ → Name → Option Job
job_init op flags filename =
    if ltb (length filename) max_name
    then some (record { op = op; flags = flags; filename = filename })
    else none

-- `create_work` and `push_node_in_worklist`: a null job leaves the process.
abbrev pub push_work : Option Job → Cmd World (Option Job)
push_work none = λ _. exit
push_work (some job) = pure (some job)

-- The first half of a turn of the loop: the job that it pushes for the workers; none if the message
-- has not arrived whole, and the loop goes on.
unfoldable pub receive_job : Cmd World (Option Job)
receive_job = do
  op ← recv_number
  msg ← recv_message
  flags ← recv_number
  elim msg [ none ↦ pure none | some m ↦ push_work (job_init (u32 op) (u32 flags) (c_string m)) ]

-- True unless it answers -1; the second half of the turn goes on in both cases.
unfoldable pub send_response : Response → Cmd World Bool
send_response resp = do
  sent ← send_number resp.status_request
  if sent then send_number resp.err else pure false

-- What the thread is doing. Between its two halves it waits for an answer to the job that it has
-- pushed.
pub data Phase : Type 0 where
  receiving ended : Phase
  waiting : Job → Phase

-- `jobs` are the client's jobs that no worker has taken, and `answered` those that the responses in
-- `world` belong to; both have the oldest first.
pub record Session : Type 0 where
  pub phase : Phase
  pub jobs : List Job
  pub answered : List Job
  pub world : World

-- After the answer to `CLOSE_CONNECTION` the thread ends.
abbrev pub phase_after : Job → Phase
phase_after job = if job.op == close_connection then ended else receiving

-- The responses that a turn of the worker adds to the queue are those of its job.
abbrev pub answered_after : Turn → Job → List Job → List Job
answered_after again job answered = answered ++ job ∷ []
answered_after stop job answered = answered

module _ (host : Host) (policy : Policy) where
  -- The steps of the two threads, and of the other clients, which change the cache. `CLOSE_FILE` is
  -- left out: its job is one object that is pushed twice, and freed twice.
  pub data Step : Session → Session → Type 0 where
    receives :
        (s : Session) (job : Job) (w : World)
        → s.phase ≡ receiving
        → receive_job s.world ≡ ok (some job) w
        → Step s (record s { phase = waiting job; jobs = s.jobs ++ job ∷ []; world = w })
    skips :
        (s : Session) (w : World)
        → s.phase ≡ receiving
        → receive_job s.world ≡ ok none w
        → Step s (record s { world = w })
    serves :
        (s : Session) (job : Job) (jobs : List Job) (turn : Turn) (w : World)
        → s.jobs ≡ job ∷ jobs
        → (job.op == close_file) ≡ false
        → serve host policy job s.world ≡ ok turn w
        → Step s
            (record s { jobs = jobs; answered = answered_after turn job s.answered; world = w })
    replies :
        (s : Session) (current job : Job) (answered : List Job) (r : Response) (rs : List Response)
        (done : Bool) (w : World)
        → s.phase ≡ waiting current
        → s.answered ≡ job ∷ answered
        → s.world.responses ≡ r ∷ rs
        → send_response r (record s.world { responses = rs }) ≡ ok done w
        → Step s (record s { phase = phase_after job; answered = answered; world = w })
    others :
        (s : Session) (server : Server)
        → Step s (record s { world = record s.world { server = server } })
