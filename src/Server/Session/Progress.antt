-- ===== src/Server/Session/Progress.antt =====
-- What becomes of a job that the thread of a client waits for.
use progetto_sol_unipi.Base.{
  ◌≡◌, refl, ap, ◌∙◌, arith, inl, inr, Bool-cases, Bool, true, false, List, [], ◌∷◌, ◌++◌, ◌==◌,
}
use progetto_sol_unipi.Base.Command.{ok, Meets-result}
use progetto_sol_unipi.Base.Steps.{Reach, here, next}
use progetto_sol_unipi.Memory.State.{Policy}
use progetto_sol_unipi.Memory.Files.{Host}
use progetto_sol_unipi.Server.Wire.{number, World, Response}
use progetto_sol_unipi.Server.Worker.{Job, Turn, serve, close_file}
use progetto_sol_unipi.Server.Session.{
  Phase, waiting, Session, phase_after, answered_after, send_response, Step, receives, skips,
  serves, replies, others,
}
use progetto_sol_unipi.Server.Session.Parts.{answered}
use progetto_sol_unipi.Server.Session.Answers.{is_request, Turned, request, stopped, serve-Turned}

-- The job waits in the queue, and nothing has been answered.
pub record Queued (job : Job) (queue : List Job) (s : Session) : Type 0 where
  pub phase : s.phase ≡ waiting job
  pub jobs : s.jobs ≡ queue
  pub answered : s.answered ≡ []
  pub responses : s.world.responses ≡ []

-- A state that steps lead to, in which the thread has the given phase and the world its response
-- sent.
pub record Leads (host : Host) (policy : Policy) (s : Session) (goal : Phase) : Type 0 where
  pub last : Session
  pub reach : Reach (Step host policy) s last
  pub phase : last.phase ≡ goal

send_response-ok :
    (r : Response) (w : World) → (done : Bool) × (t : World) × (send_response r w ≡ ok done t)
unfolding send_response
send_response-ok r w = elim (Bool-cases w.connected) [
  | inl y ↦ (
    true,
    record w { sent = (w.sent ++ number r.status_request ∷ []) ++ number r.err ∷ [] },
    ground arith,
  )
  | inr n ↦ (false, w, ground arith)
]

module _ (host : Host) (policy : Policy) (job : Job) where
  to_reply :
      (s : Session) (turn : Turn) (w : World)
      → Queued job (job ∷ []) s
      → (job.op == close_file) ≡ false
      → is_request job.op ≡ true
      → serve host policy job s.world ≡ ok turn w
      → Turned job s.world turn w
      → Leads host policy s (phase_after job)
  to_reply s turn w q other y run (request _ y' (answered r _ e)) =
      let u = record s { jobs = []; answered = s.answered ++ job ∷ []; world = w } in
      let (done, t, sent) = send_response-ok r (record w { responses = [] }) in
      record {
        last = record u { phase = phase_after job; answered = []; world = t };
        reach = next (next here (serves s job [] turn w q.jobs other run)) (
            replies u job job [] r [] done t q.phase (ap (λ l. l ++ job ∷ []) q.answered)
              (e ∙ ap (λ l. l ++ r ∷ []) q.responses) sent);
        phase = refl;
      }
  to_reply s turn w q other y run (stopped n) = absurd (ground arith)

  -- A request that waits in the queue is answered, if serving it comes to an end with a result.
  pub Queued-Leads :
      (s : Session) (turn : Turn) (w : World)
      → Queued job (job ∷ []) s
      → (job.op == close_file) ≡ false
      → is_request job.op ≡ true
      → serve host policy job s.world ≡ ok turn w
      → Leads host policy s (phase_after job)
  Queued-Leads s turn w q other y run =
      to_reply s turn w q other y run
        (Meets-result _ (serve-Turned host policy job s.world other) run)

  -- The job is queued, or a worker has taken it, and nothing has been answered.
  data Unanswered (s : Session) : Type 0 where
    queued : Queued job (job ∷ []) s → Unanswered s
    taken : Queued job [] s → Unanswered s

  not_answered :
      (s : Session) (job' : Job) (jobs : List Job) (turn : Turn) (w : World)
      → job' ≡ job
      → jobs ≡ []
      → is_request job.op ≡ false
      → Queued job (job ∷ []) s
      → Turned job' s.world turn w
      → Queued job []
          (record s { jobs = jobs; answered = answered_after turn job' s.answered; world = w })
  not_answered s job' jobs turn w same none_left n q (request _ y _) = absurd (grind (arith, same))
  not_answered s job' jobs turn w same none_left n q (stopped _) = record {
    phase = q.phase;
    jobs = none_left;
    answered = q.answered;
    responses = q.responses;
  }

  Step-Unanswered :
      {s t : Session}
      → (job.op == close_file) ≡ false
      → is_request job.op ≡ false
      → Step host policy s t
      → Unanswered s
      → Unanswered t
  Step-Unanswered o n (receives s job' w e got) (queued q) = absurd (grind (arith, q.phase))
  Step-Unanswered o n (receives s job' w e got) (taken q) = absurd (grind (arith, q.phase))
  Step-Unanswered o n (skips s w e got) (queued q) = absurd (grind (arith, q.phase))
  Step-Unanswered o n (skips s w e got) (taken q) = absurd (grind (arith, q.phase))
  Step-Unanswered o n (serves s job' jobs turn w e other run) (queued q) =
      let same : job' ≡ job = grind (arith, q.jobs) in
      let none_left : jobs ≡ [] = grind (arith, q.jobs) in
      taken (
        not_answered s job' jobs turn w same none_left n q
          (Meets-result _ (serve-Turned host policy job' s.world other) run))
  Step-Unanswered o n (serves s job' jobs turn w e other run) (taken q) =
      absurd (grind (arith, q.jobs))
  Step-Unanswered o n (replies s current job' rest r rs done w e a b run) (queued q) =
      absurd (grind (arith, q.answered))
  Step-Unanswered o n (replies s current job' rest r rs done w e a b run) (taken q) =
      absurd (grind (arith, q.answered))
  Step-Unanswered o n (others s server) (queued q) =
      queued
        (record { phase = q.phase; jobs = q.jobs; answered = q.answered; responses = q.responses })
  Step-Unanswered o n (others s server) (taken q) =
      taken
        (record { phase = q.phase; jobs = q.jobs; answered = q.answered; responses = q.responses })

  -- A job for an operation that the server does not have is never answered: whatever steps follow,
  -- the thread of the client waits for it and no response is in its queue.
  pub Reach-Unanswered :
      {s t : Session}
      → (job.op == close_file) ≡ false
      → is_request job.op ≡ false
      → Queued job (job ∷ []) s
      → Reach (Step host policy) s t
      → (t.phase ≡ waiting job) × (t.world.responses ≡ [])
  Reach-Unanswered {s} o n q r = waits (reached r)
    where
      reached : {t : Session} → Reach (Step host policy) s t → Unanswered t
      reached here = queued q
      reached (next r st) = Step-Unanswered o n st (reached r)

      waits : {t : Session} → Unanswered t → (t.phase ≡ waiting job) × (t.world.responses ≡ [])
      waits (queued q) = (q.phase, q.responses)
      waits (taken q) = (q.phase, q.responses)
