-- ===== src/Pool/Settled.antt =====
-- What holds of the workers from the shutdown on: each end that is queued has its worker.
use progetto_sol_unipi.Base.{
  ℕ, suc, ◌-◌, ◌<◌, ◌≤◌, ◌^◌, ◌≡◌, refl, sym, ap, subst, ◌∙◌, arith, inl, inr, Bool, true, not,
  ◌&&◌, ◌||◌, Bool-cases, List, [], ◌∷◌, ◌==◌, if◌then◌else◌,
}
use progetto_sol_unipi.Base.Command.{Meets-result, Returns-result}
use progetto_sol_unipi.Memory.State.{Policy}
use progetto_sol_unipi.Server.Wire.{World}
use progetto_sol_unipi.Server.Worker.{
  Job, Turn, open_file, close_file, write_file, append_file, o_create,
}
use progetto_sol_unipi.Server.Worker.Request.{Request, Fair, Keeps, taken}
use progetto_sol_unipi.Server.Worker.History.{serve-Refined}
use progetto_sol_unipi.Server.Session.Answers.{is_request, Turned, request, stopped, serve-Turned}
use progetto_sol_unipi.Pool.{
  Counter, worker_sub, passes, Main, running, passed, waiting, Pool, test, Caller, calls,
  returns_from_wait, Ready, leaves_wait, counter_after, Step, serves, sleeps, tests, wakes,
}
use progetto_sol_unipi.Pool.Flood.{n_waiting}

-- How many of the jobs end a worker.
abbrev pub n_ends : List Job → ℕ
n_ends [] = 0
n_ends (job ∷ jobs) = let rest = n_ends jobs in if is_request job.op then rest else suc rest

-- Whether serving the job asks nothing of the system or of the data that the client sends: it does
-- not create a file or add to one, and is not a `CLOSE_FILE`.
abbrev pub plain : Job → Bool
plain job =
    not (job.op == close_file)
    && not (job.op == write_file || job.op == append_file)
    && not (job.op == open_file && job.flags == o_create)

abbrev pub AllPlain : List Job → Type 0
AllPlain [] = Unit {0}
AllPlain (job ∷ jobs) = (plain job ≡ true) × AllPlain jobs

-- A thread that waits has a worker that will signal, or has been signalled.
pub data Wakeable (c : Counter) : Main → Type 0 where
  not_yet : Wakeable c running
  done : c.worker_counter ≡ 0 → Wakeable c passed
  worker_left : (seen : ℕ) → 0 < c.worker_counter → seen ≤ c.signals → Wakeable c (waiting seen)
  signalled : (seen : ℕ) → seen < c.signals → Wakeable c (waiting seen)

test-Wakeable : (c : Counter) → Wakeable c (test c)
unfolding test passes
test-Wakeable c = elim (Bool-cases (c.worker_counter == 0)) [
  | inl y ↦ rw y (done (ground arith))
  | inr n ↦ rw n (worker_left c.signals (ground arith) (omega arith))
]

worker_sub-Wakeable :
    (c : Counter) (m : Main) → 0 < c.worker_counter → Wakeable c m → Wakeable (worker_sub c) m
unfolding worker_sub
worker_sub-Wakeable c running h not_yet = not_yet
worker_sub-Wakeable c passed h (done e) = absurd (omega arith)
worker_sub-Wakeable c (waiting seen) h (worker_left _ h' few) =
    elim (Bool-cases (c.worker_counter - 1 == 0)) [
      | inl y ↦ signalled seen (ground arith)
      | inr n ↦ worker_left seen (ground arith) (ground arith)
    ]
worker_sub-Wakeable c (waiting seen) h (signalled _ h') = signalled seen (ground arith)

worker_sub-counter :
    (c : Counter) → 0 < c.worker_counter → suc (worker_sub c).worker_counter ≡ c.worker_counter
unfolding worker_sub
worker_sub-counter c h = ground arith

pub test-passed : (c : Counter) → c.worker_counter ≡ 0 → test c ≡ passed
unfolding test passes
test-passed c e = rw e refl

pub plain-Fair :
    (memory : ℕ) (q : Request) (w : World) → plain q.job ≡ true → Fair memory q w.server
plain-Fair memory q w e = record {
  create = λ y. absurd (ground arith);
  write = λ y there. absurd (ground arith);
  append = λ y there. absurd (ground arith);
}

-- The worker that takes a step does not wait any more.
leaves_wait_lem :
    (r : Caller) (s : Pool)
    → Ready r s
    → n_waiting s.work_list ≤ s.counter.worker_counter
    → (n_waiting (leaves_wait r s.work_list) < s.counter.worker_counter)
      × ((leaves_wait r s.work_list).sleeping ≡ s.work_list.sleeping)
leaves_wait_lem calls s h few = (h, refl)
leaves_wait_lem returns_from_wait s h few = (omega arith, refl)

module _ (policy : Policy) (files memory : ℕ) (many : 1 < files) (few : files < 2 ^ 31)
    (some_memory : 0 < memory) (small : memory < 2 ^ 31) where
  -- As many ends are queued as there are workers, and none of these sleeps.
  pub record Settled (s : Pool) : Type 0 where
    pub ends : n_ends s.work_list.jobs ≡ s.counter.worker_counter
    pub plain : AllPlain s.work_list.jobs
    pub awake : s.work_list.sleeping ≡ 0
    pub waiting : n_waiting s.work_list ≤ s.counter.worker_counter
    pub wakeable : Wakeable s.counter s.main
    pub keeps : Keeps files memory s.world.server

  serves-Settled :
      (s : Pool) (r : Caller) (q : Request) (jobs : List Job) (turn : Turn) (w : World)
      → Ready r s
      → s.work_list.jobs ≡ q.job ∷ jobs
      → (plain q.job ≡ true) × AllPlain jobs
      → Keeps files memory w.server
      → Turned q.job (taken q s.world) turn w
      → Settled s
      → Settled (record s {
        work_list = record (leaves_wait r s.work_list) { jobs = jobs };
        counter = counter_after turn s.counter;
        world = w;
      })
  serves-Settled s r q jobs turn w ready e (_, all) k (request _ y _) g =
      let (less, same) = leaves_wait_lem r s ready g.waiting in
      record {
        ends =
            let step : n_ends s.work_list.jobs ≡ n_ends jobs = ap n_ends e ∙ rw y refl in
            sym step ∙ g.ends;
        plain = all;
        awake = same ∙ g.awake;
        waiting = omega (arith, less);
        wakeable = g.wakeable;
        keeps = k;
      }
  serves-Settled s r q jobs turn w ready e (_, all) k (stopped n) g =
      let (less, same) = leaves_wait_lem r s ready g.waiting in
      let some_left : 0 < s.counter.worker_counter = omega (arith, less) in
      let one = worker_sub-counter s.counter some_left in
      record {
        ends =
            let step : n_ends s.work_list.jobs ≡ suc (n_ends jobs) = ap n_ends e ∙ rw n refl in
            omega (arith, g.ends, step, one);
        plain = all;
        awake = same ∙ g.awake;
        waiting = omega (arith, less, one);
        wakeable = worker_sub-Wakeable s.counter s.main some_left g.wakeable;
        keeps = k;
      }

  pub Step-Settled : {s t : Pool} → Step policy s t → Settled s → Settled t
  Step-Settled {s} (serves r q jobs turn w ready e run) g =
      let all : AllPlain (q.job ∷ jobs) = subst AllPlain e g.plain in
      let fair = plain-Fair memory q s.world all.0 in
      serves-Settled s r q jobs turn w ready e all
        (Returns-result
          (serve-Refined policy files memory many few some_memory small q s.world g.keeps fair)
          run).keeps
        (Meets-result _ (serve-Turned q.host policy q.job (taken q s.world) (ground arith)) run) g
  Step-Settled {s} (sleeps r ready e) g =
      let (less, same) = leaves_wait_lem r s ready g.waiting in
      let none_left : s.counter.worker_counter ≡ 0 = sym g.ends ∙ ap n_ends e in
      absurd (omega (arith, less))
  Step-Settled {s} (tests e) g = record {
    ends = g.ends;
    plain = g.plain;
    awake = g.awake;
    waiting = g.waiting;
    wakeable = test-Wakeable s.counter;
    keeps = g.keeps;
  }
  Step-Settled {s} (wakes seen e h) g = record {
    ends = g.ends;
    plain = g.plain;
    awake = g.awake;
    waiting = g.waiting;
    wakeable = test-Wakeable s.counter;
    keeps = g.keeps;
  }
