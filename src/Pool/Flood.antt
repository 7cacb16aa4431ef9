-- ===== src/Pool/Flood.antt =====
-- The jobs that `flood_list` pushes, and what it does to the workers that sleep.
use progetto_sol_unipi.Base.{
  ℕ, zero, suc, ◌+◌, ◌<◌, ◌^◌, ◌≡◌, refl, sym, ap, ap₂, ◌∙◌, arith, true, inl, inr, Bool-cases,
  List, [], ◌∷◌, ◌++◌, append-nil, append_assoc, ltb, ◌==◌,
}
use progetto_sol_unipi.Server.Worker.{Job, end_worker}
use progetto_sol_unipi.Server.Session.{job_init}
use progetto_sol_unipi.Pool.{nop, WorkList, push_job, wake_all, flood_loop, flood_list}

abbrev pub ending : Job
ending = record { op = end_worker; flags = 0; filename = nop }

-- So many jobs that each end a worker.
abbrev pub endings : ℕ → List Job
endings zero = []
endings (suc n) = ending ∷ endings n

-- The workers that wait, whether they have been signalled or not.
abbrev pub n_waiting : WorkList → ℕ
n_waiting l = l.sleeping + l.woken

push_job_lem :
    (job : Job) (l : WorkList)
    → ((push_job job l).jobs ≡ l.jobs ++ job ∷ []) × (n_waiting (push_job job l) ≡ n_waiting l)
unfolding push_job
push_job_lem job l = elim (Bool-cases (l.sleeping == 0)) [
  | inl y ↦ rw y (refl, refl)
  | inr n ↦ rw n (refl, ground arith)
]

flood_loop_lem :
    (n : ℕ) (l : WorkList)
    → ((flood_loop n l).jobs ≡ l.jobs ++ endings n) × (n_waiting (flood_loop n l) ≡ n_waiting l)
unfolding flood_loop job_init
flood_loop_lem zero l = (sym (append-nil l.jobs), refl)
flood_loop_lem (suc n) l =
    let (put, same) = push_job_lem ending l in
    let (all, kept) = flood_loop_lem n (push_job ending l) in
    (
      all ∙ ap (λ j. j ++ endings n) put ∙ append_assoc l.jobs (ending ∷ []) (endings n),
      kept ∙ same,
    )

abbrev quiet : List Job → ℕ → WorkList
quiet jobs woken = record { jobs = jobs; sleeping = 0; woken = woken }

-- Fewer than 2 ^ 31 workers: as many jobs that end one come behind the others, and no worker sleeps
-- after `wake_up_all_readers`.
pub wake_all-flood_list :
    (n : ℕ) (l : WorkList)
    → n < 2 ^ 31
    → wake_all (flood_list n l)
      ≡ (record { jobs = l.jobs ++ endings n; sleeping = 0; woken = l.sleeping + l.woken })
unfolding wake_all flood_list
wake_all-flood_list n l few =
    let below : ltb n (2 ^ 31) ≡ true = ground arith in
    let (all, kept) = flood_loop_lem n l in
    let count : (flood_loop n l).woken + (flood_loop n l).sleeping ≡ l.sleeping + l.woken =
      omega (arith, kept) in
    rw below (ap₂ quiet all count)
