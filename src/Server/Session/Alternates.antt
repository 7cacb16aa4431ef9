-- ===== src/Server/Session/Alternates.antt =====
-- The turns of a client's thread and of the worker that serves its jobs.
use progetto_sol_unipi.Base.{
  ℕ, ◌≡◌, refl, ap, ◌∙◌, arith, ◌⊎◌, inl, inr, Bool-cases, true, false, List, Option, none, some,
  [], ◌∷◌, ◌++◌, ◌==◌,
}
use progetto_sol_unipi.Base.Command.{Cmd, pure, Meets-result}
use progetto_sol_unipi.Base.Word.{u32}
use progetto_sol_unipi.Base.Steps.{Reach, here, next}
use progetto_sol_unipi.Memory.State.{Policy}
use progetto_sol_unipi.Memory.Files.{Host}
use progetto_sol_unipi.Server.Wire.{World, Response}
use progetto_sol_unipi.Server.Worker.{Job, Turn, close_connection}
use progetto_sol_unipi.Server.Session.{
  receiving, ended, waiting, Session, phase_after, answered_after, receive_job, push_work, job_init,
  c_string, send_response, Step, receives, skips, serves, replies, others,
}
use progetto_sol_unipi.Server.Session.Parts.{
  Quiet, turn_parts, answered, next_number-Quiet, next_message-Quiet, Quiet-then,
}
use progetto_sol_unipi.Server.Session.Answers.{is_request, Turned, request, stopped, serve-Turned}

-- What the thread's phase says of the queues. In `lost` the job was for no operation of the server.
pub data Alternates (s : Session) : Type 0 where
  idle :
      (s.phase ≡ receiving) ⊎ (s.phase ≡ ended)
      → s.jobs ≡ []
      → s.answered ≡ []
      → s.world.responses ≡ []
      → Alternates s
  queued :
      (job : Job)
      → s.phase ≡ waiting job
      → s.jobs ≡ job ∷ []
      → s.answered ≡ []
      → s.world.responses ≡ []
      → Alternates s
  served :
      (job : Job) (r : Response)
      → is_request job.op ≡ true
      → s.phase ≡ waiting job
      → s.jobs ≡ []
      → s.answered ≡ job ∷ []
      → s.world.responses ≡ r ∷ []
      → Alternates s
  lost :
      (job : Job)
      → is_request job.op ≡ false
      → s.phase ≡ waiting job
      → s.jobs ≡ []
      → s.answered ≡ []
      → s.world.responses ≡ []
      → Alternates s

Quiet-push_work :
    (job : Option Job) (w : World) {before : List Response}
    → w.responses ≡ before
    → Quiet before (push_work job w)
Quiet-push_work none w e = search turn_parts depth 30
Quiet-push_work (some job) w e = search turn_parts depth 30

Quiet-push_message :
    (op flags : ℕ) (msg : Option (List ℕ)) (w : World) {before : List Response}
    → w.responses ≡ before
    → Quiet before (
        (elim msg as (λ _. Cmd World (Option Job)) [
          | none ↦ pure none
          | some m ↦ push_work (job_init op flags (c_string m))
        ])
          w)
Quiet-push_message op flags none w e = search turn_parts depth 30
Quiet-push_message op flags (some m) w e = Quiet-push_work _ w e

Quiet-receive_job : (w : World) → Quiet w.responses (receive_job w)
unfolding receive_job
Quiet-receive_job w = Quiet-then _ _ (next_number-Quiet w w.incoming refl) λ op t e.
    Quiet-then _ _ (next_message-Quiet t t.incoming e) λ msg t' e'.
      Quiet-then _ _ (next_number-Quiet t' t'.incoming e')
        λ flags u e''. Quiet-push_message (u32 op) (u32 flags) msg u e''

Quiet-send_response : (r : Response) (w : World) → Quiet w.responses (send_response r w)
unfolding send_response
Quiet-send_response r w = search turn_parts depth 30

same_responses :
    (s : Session) (w : World)
    → w.responses ≡ s.world.responses
    → Alternates s
    → Alternates (record s { world = w })
same_responses s w e (idle p j a r) = idle p j a (e ∙ r)
same_responses s w e (queued job p j a r) = queued job p j a (e ∙ r)
same_responses s w e (served job r' y p j a r) = served job r' y p j a (e ∙ r)
same_responses s w e (lost job n p j a r) = lost job n p j a (e ∙ r)

after_turn :
    (s : Session) (job : Job) (jobs : List Job) (turn : Turn) (w : World)
    → Turned job s.world turn w
    → s.phase ≡ waiting job
    → jobs ≡ []
    → s.answered ≡ []
    → s.world.responses ≡ []
    → Alternates
        (record s { jobs = jobs; answered = answered_after turn job s.answered; world = w })
after_turn s job jobs turn w (request _ y (answered r' _ e)) p j a r =
    served job r' y p j (ap (λ l. l ++ job ∷ []) a) (e ∙ ap (λ l. l ++ r' ∷ []) r)
after_turn s job jobs turn w (stopped n) p j a r = lost job n p j a r

after_reply : (job : Job) → (phase_after job ≡ receiving) ⊎ (phase_after job ≡ ended)
after_reply job = elim (Bool-cases (job.op == close_connection)) [
  | inl y ↦ inr (rw y refl)
  | inr n ↦ inl (rw n refl)
]

module _ (host : Host) (policy : Policy) where
  pub Step-Alternates : {s t : Session} → Step host policy s t → Alternates s → Alternates t
  Step-Alternates (receives s job w e got) (idle p j a r) =
      queued job refl (ap (λ l. l ++ job ∷ []) j) a
        (Meets-result _ (Quiet-receive_job s.world).quiet got ∙ r)
  Step-Alternates (receives s job w e got) (queued job' p j a r) = absurd (grind arith)
  Step-Alternates (receives s job w e got) (served job' r' y p j a r) = absurd (grind arith)
  Step-Alternates (receives s job w e got) (lost job' n p j a r) = absurd (grind arith)
  Step-Alternates (skips s w e got) h =
      same_responses s w (Meets-result _ (Quiet-receive_job s.world).quiet got) h
  Step-Alternates (serves s job jobs turn w e other run) (idle p j a r) = absurd (grind arith)
  Step-Alternates (serves s job jobs turn w e other run) (queued job' p j a r) =
      after_turn s job jobs turn w (Meets-result _ (serve-Turned host policy job s.world other) run)
        (grind arith) (grind arith) a r
  Step-Alternates (serves s job jobs turn w e other run) (served job' r' y p j a r) =
      absurd (grind arith)
  Step-Alternates (serves s job jobs turn w e other run) (lost job' n p j a r) =
      absurd (grind arith)
  Step-Alternates (replies s current job rest r' rs done w e b c run) (served job' r'' y p j a r) =
      idle (after_reply job) j (grind arith)
        (Meets-result _ (Quiet-send_response r' _).quiet run ∙ grind arith)
  Step-Alternates (replies s current job rest r' rs done w e b c run) (idle p j a r) =
      absurd (grind arith)
  Step-Alternates (replies s current job rest r' rs done w e b c run) (queued job' p j a r) =
      absurd (grind arith)
  Step-Alternates (replies s current job rest r' rs done w e b c run) (lost job' n p j a r) =
      absurd (grind arith)
  Step-Alternates (others s server) (idle p j a r) = idle p j a r
  Step-Alternates (others s server) (queued job' p j a r) = queued job' p j a r
  Step-Alternates (others s server) (served job' r' y p j a r) = served job' r' y p j a r
  Step-Alternates (others s server) (lost job' n p j a r) = lost job' n p j a r

  -- Whatever the worker and the other clients do in between, the thread of a client and the queues
  -- keep to their turns, as long as no `CLOSE_FILE` is served: while the thread receives, nothing
  -- is queued, and while it waits, its own job is queued, or its own job has one response, so that
  -- each request is answered by its own response, or the job was for no operation of the server.
  pub Reach-Alternates :
      {s t : Session} → Alternates s → Reach (Step host policy) s t → Alternates t
  Reach-Alternates h here = h
  Reach-Alternates h (next r st) = Step-Alternates st (Reach-Alternates h r)
