-- ===== src/Pool/Shutdown.antt =====
-- The shutdown: the main thread passes once the workers have served what is queued and have ended.
use progetto_sol_unipi.Base.{
  ℕ, zero, suc, ◌+◌, ◌<◌, ◌≤◌, ◌^◌, ◌≡◌, refl, sym, ap, subst, ◌∙◌, arith, inl, inr, true,
  Bool-cases, List, [], ◌∷◌, ◌++◌, ◌==◌,
}
use progetto_sol_unipi.Base.Command.{result_of}
use progetto_sol_unipi.Base.Steps.{Reach, here, next, Reach-trans}
use progetto_sol_unipi.Memory.State.{Policy, null}
use progetto_sol_unipi.Memory.Files.{Host}
use progetto_sol_unipi.Server.Worker.{Job, serve}
use progetto_sol_unipi.Server.Worker.Request.{Request, Keeps, taken}
use progetto_sol_unipi.Server.Worker.History.{serve-Refined}
use progetto_sol_unipi.Server.Session.Answers.{is_request}
use progetto_sol_unipi.Pool.{
  wake_all, flood_list, Main, running, passed, waiting, Pool, Caller, calls, returns_from_wait,
  Ready, Step, serves, tests, wakes,
}
use progetto_sol_unipi.Pool.Flood.{endings, n_waiting, wake_all-flood_list}
use progetto_sol_unipi.Pool.Settled.{
  n_ends, AllPlain, Wakeable, not_yet, done, worker_left, signalled, test-passed, plain-Fair,
  Settled, Step-Settled,
}

-- Where steps lead to.
pub record Leads (policy : Policy) (s : Pool) : Type 0 where
  pub last : Pool
  pub reach : Reach (Step policy) s last
  pub passes : last.main ≡ passed
  pub none_left : last.counter.worker_counter ≡ 0

-- With no worker left, the main thread passes.
last_steps :
    (policy : Policy) (s : Pool) (m : Main)
    → s.main ≡ m
    → s.counter.worker_counter ≡ 0
    → Wakeable s.counter m
    → Leads policy s
last_steps policy s running e none_left not_yet = record {
  last = record s { main = passed };
  reach = next here (
      subst (λ m. Step policy s (record s { main = m })) (test-passed s.counter none_left)
        (tests e));
  passes = refl;
  none_left = none_left;
}
last_steps policy s passed e none_left (done _) = record {
  last = s;
  reach = here;
  passes = e;
  none_left = none_left;
}
last_steps policy s (waiting seen) e none_left (worker_left _ h few) = absurd (omega arith)
last_steps policy s (waiting seen) e none_left (signalled _ h) = record {
  last = record s { main = passed };
  reach = next here (
      subst (λ m. Step policy s (record s { main = m })) (test-passed s.counter none_left)
        (wakes seen e h));
  passes = refl;
  none_left = none_left;
}

Leads-step : {policy : Policy} {s t : Pool} → Step policy s t → Leads policy t → Leads policy s
Leads-step st l = record {
  last = l.last;
  reach = Reach-trans (next here st) l.reach;
  passes = l.passes;
  none_left = l.none_left;
}

-- A worker that is not asleep.
some_worker :
    (s : Pool) → s.work_list.sleeping ≡ 0 → 0 < s.counter.worker_counter → (r : Caller) × Ready r s
some_worker s awake h = elim (Bool-cases (s.work_list.woken == 0)) [
  | inl y ↦ (calls, ground arith)
  | inr n ↦ (returns_from_wait, ground arith)
]

abbrev host : Host
host = record { malloc = null; open_memstream = true; mutex_init = true }

n_ends-append : (xs ys : List Job) → n_ends (xs ++ ys) ≡ n_ends xs + n_ends ys
n_ends-append [] ys = omega arith
n_ends-append (x ∷ xs) ys = elim (Bool-cases (is_request x.op)) [
  | inl on ↦ rw on (n_ends-append xs ys)
  | inr off ↦ rw off (omega (arith, n_ends-append xs ys))
]

n_ends-endings : (n : ℕ) → n_ends (endings n) ≡ n
n_ends-endings zero = refl
n_ends-endings (suc n) = ap suc (n_ends-endings n)

AllPlain-endings : (jobs : List Job) (n : ℕ) → AllPlain jobs → AllPlain (jobs ++ endings n)
AllPlain-endings [] zero all = tt
AllPlain-endings [] (suc n) all = (refl, AllPlain-endings [] n tt)
AllPlain-endings (job ∷ jobs) n (one, all) = (one, AllPlain-endings jobs n all)

-- The state after `flood_list` and `wake_up_all_readers`.
abbrev pub flooded : Pool → Pool
flooded s = record s { work_list = wake_all (flood_list s.counter.worker_counter s.work_list) }

module _ (policy : Policy) (files memory : ℕ) (many : 1 < files) (few : files < 2 ^ 31)
    (some_memory : 0 < memory) (small : memory < 2 ^ 31) where
  abbrev Calm : Pool → Type 0
  Calm = Settled policy files memory many few some_memory small

  Settled-Leads : (jobs : List Job) (s : Pool) → s.work_list.jobs ≡ jobs → Calm s → Leads policy s
  Settled-Leads [] s e g = last_steps policy s s.main refl (sym g.ends ∙ ap n_ends e) g.wakeable
  Settled-Leads (job ∷ jobs) s e g = elim (Bool-cases (s.counter.worker_counter == 0)) [
    | inl none_left ↦ last_steps policy s s.main refl (ground arith) g.wakeable
    | inr some_left ↦
        let (r, ready) = some_worker s g.awake (ground arith) in
        let q : Request = record { host = host; job = job; packets = [] } in
        let all : AllPlain (job ∷ jobs) = subst AllPlain e g.plain in
        let (turn, w, run) = result_of (serve host policy job (taken q s.world)) (
          serve-Refined policy files memory many few some_memory small q s.world g.keeps
            (plain-Fair memory q s.world all.0)) in
        let st = serves r q jobs turn w ready e run in
        Leads-step st (
          Settled-Leads jobs _ refl
            (Step-Settled policy files memory many few some_memory small st g))
  ]

  Reach-Settled : {s t : Pool} → Calm s → Reach (Step policy) s t → Calm t
  Reach-Settled g here = g
  Reach-Settled g (next r st) =
      Step-Settled policy files memory many few some_memory small st (Reach-Settled g r)

  flooded-Settled :
      (s : Pool)
      → s.counter.worker_counter < 2 ^ 31
      → n_waiting s.work_list ≤ s.counter.worker_counter
      → n_ends s.work_list.jobs ≡ 0
      → AllPlain s.work_list.jobs
      → s.main ≡ running
      → Keeps files memory s.world.server
      → Calm (flooded s)
  flooded-Settled s below wait none_before all start k =
      let n = s.counter.worker_counter in
      rw (wake_all-flood_list n s.work_list below) (record {
        ends =
            omega
              (arith, n_ends-append s.work_list.jobs (endings n), n_ends-endings n, none_before);
        plain = AllPlain-endings s.work_list.jobs n all;
        awake = refl;
        waiting = omega arith;
        wakeable = subst (Wakeable s.counter) (sym start) not_yet;
        keeps = k;
      })

  -- When fewer than 2 ^ 31 workers run, some of which may sleep, on a well-formed cache, with
  -- requests in the queue that neither create a file nor add to one and are no `CLOSE_FILE`, and the
  -- main thread has pushed as many ends as workers run and has woken all that sleep: then whatever
  -- steps the workers and the main thread have taken since, there are steps after which no worker is
  -- left and the main thread has passed `wait_on_worker_number`. No signal is lost, and each turn ends without a fault and without leaving the process. The clients stay connected,
  -- and the limits are below 2 ^ 31, above one file and zero bytes.
  pub flood_list-Leads :
      (s t : Pool)
      → s.counter.worker_counter < 2 ^ 31
      → n_waiting s.work_list ≤ s.counter.worker_counter
      → n_ends s.work_list.jobs ≡ 0
      → AllPlain s.work_list.jobs
      → s.main ≡ running
      → Keeps files memory s.world.server
      → Reach (Step policy) (flooded s) t
      → Leads policy t
  flood_list-Leads s t below wait none_before all start k r =
      Settled-Leads t.work_list.jobs t refl
        (Reach-Settled (flooded-Settled s below wait none_before all start k) r)
