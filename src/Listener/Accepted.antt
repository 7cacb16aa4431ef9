-- ===== src/Listener/Accepted.antt =====
-- The loop of `main` against the events of the system: what it accepts until a signal comes.
use progetto_sol_unipi.Base.{
  ℕ, ◌+◌, ◌<◌, ◌^◌, ◌≡◌, refl, sym, ap, ◌∙◌, inl, inr, Bool-cases, List, Option, none, some, [],
  ◌∷◌, ◌++◌, ◌==◌, arith, if◌then◌else◌, length,
}
use progetto_sol_unipi.Base.Command.{Cmd, ok, Returns, Returns-mono, Returns-of_eq, if_false, pure}
use progetto_sol_unipi.Base.Word.{minus_one32}
use progetto_sol_unipi.Pool.{Counter, passes, WorkList}
use progetto_sol_unipi.Pool.Flood.{endings, wake_all-flood_list}
use progetto_sol_unipi.Listener.{
  Mode, on, off, Caught, hang_up, interrupt, handler, ArgsThrdClient, ready, interrupted, Round,
  Listener, safe_pthread_create, do_select, accept_client, round, Next, goes_on, leaves,
  waits_for_workers, Loop, waits, ended, ending_workers, main_loop, is_off,
}

-- A round in which a client connects, and every call succeeds.
abbrev pub connects : ℕ → ℕ → Round
connects fd list = record {
  selected = ready 1;
  accepted = some fd;
  list = list;
  pthread_create = 0;
  pthread_detach = 0;
}

-- A round in which a signal comes.
abbrev pub signalled : Caught → Round
signalled c = record {
  selected = interrupted (some c);
  accepted = none;
  list = 0;
  pthread_create = 0;
  pthread_detach = 0;
}

abbrev pub connecting : List ArgsThrdClient → List Round → List Round
connecting [] rounds = rounds
connecting (a ∷ cs) rounds = connects a.client_fd a.queue_of_response ∷ connecting cs rounds

abbrev pub last_args : Option ArgsThrdClient → List ArgsThrdClient → Option ArgsThrdClient
last_args before [] = before
last_args before (a ∷ cs) = last_args (some a) cs

-- What comes after the clients: nothing yet, or a signal and what comes then.
abbrev pub ending : Option Caught → List Round → List Round
ending none rest = []
ending (some c) rest = signalled c ∷ rest

-- After a SIGHUP the thread waits for the workers, if there are any.
abbrev pub loop_after : Option Caught → Counter → Loop
loop_after none c = waits
loop_after (some hang_up) c = if c.worker_counter == 0 then ended else ending_workers
loop_after (some interrupt) c = ended

abbrev pub mode_after : Option Caught → Mode
mode_after none = on
mode_after (some c) = handler c

-- After a SIGHUP `n` jobs that end a worker stand behind the others, and nobody sleeps.
abbrev pub list_after : ℕ → Option Caught → WorkList → WorkList
list_after n none l = l
list_after n (some hang_up) l = record {
  jobs = l.jobs ++ endings n;
  sleeping = 0;
  woken = l.sleeping + l.woken;
}
list_after n (some interrupt) l = l

abbrev next_after : Caught → Counter → Next
next_after hang_up c = if passes c then leaves else waits_for_workers
next_after interrupt c = goes_on

round-connects :
    (n : ℕ) (a : ArgsThrdClient) (l : Listener)
    → l.server_mode ≡ on
    → round n (connects a.client_fd a.queue_of_response) l
      ≡ ok goes_on (record l { err = 1; args = some a; unread = l.unread + 1 })
unfolding round do_select accept_client safe_pthread_create
round-connects n a l e = rw e refl

round-signalled :
    (n : ℕ) (c : Caught) (l : Listener)
    → l.server_mode ≡ on
    → n < 2 ^ 31
    → round n (signalled c) l
      ≡ ok (next_after c l.counter) (record l {
        server_mode = handler c;
        err = minus_one32;
        work_list = list_after n (some c) l.work_list;
      })
unfolding round do_select
round-signalled n hang_up l e few = rw (e, sym (wake_all-flood_list n l.work_list few)) refl
round-signalled n interrupt l e few = rw e refl

-- The loop has ended, or still waits, as it should after these clients and what came then.
pub record Accepted (n : ℕ) (cs : List ArgsThrdClient) (e : Option Caught) (l : Listener) (r : Loop)
    (t : Listener) : Type 0 where
  pub result : r ≡ loop_after e l.counter
  pub server_mode : t.server_mode ≡ mode_after e
  pub threads : t.unread ≡ l.unread + length cs
  pub args : t.args ≡ last_args l.args cs
  pub work_list : t.work_list ≡ list_after n e l.work_list
  pub clients : t.clients ≡ l.clients

stopped :
    (n : ℕ) (rest : List Round) (l : Listener)
    → l.server_mode ≡ off
    → main_loop n rest l ≡ ok ended l
unfolding main_loop
stopped n [] l e = rw e refl
stopped n (r ∷ rest) l e = rw e refl

one_round :
    (n : ℕ) (r : Round) (rest : List Round) (l : Listener) {b : Next} {t : Listener}
    → l.server_mode ≡ on
    → round n r l ≡ ok b t
    → main_loop n (r ∷ rest) l
      ≡ (elim b as (λ _. Cmd Listener Loop) [
        | goes_on ↦ main_loop n rest
        | leaves ↦ pure ended
        | waits_for_workers ↦ pure ending_workers
      ])
          t
unfolding main_loop
one_round n r rest l o e = if_false _ _ _ (ap is_off o) (rw e refl)

left_loop :
    (n : ℕ) (rest : List Round) (c : Counter) (t : Listener)
    → (elim (next_after hang_up c) as (λ _. Cmd Listener Loop) [
      | goes_on ↦ main_loop n rest
      | leaves ↦ pure ended
      | waits_for_workers ↦ pure ending_workers
    ])
        t
      ≡ ok (loop_after (some hang_up) c) t
unfolding passes
left_loop n rest c t = elim (Bool-cases (c.worker_counter == 0)) [
  | inl y ↦ rw y refl
  | inr m ↦ rw m refl
]

no_round : (n : ℕ) (l : Listener) → l.server_mode ≡ on → main_loop n [] l ≡ ok waits l
unfolding main_loop
no_round n l o = if_false _ _ _ (ap is_off o) refl

module _ (n : ℕ) (few : n < 2 ^ 31) (rest : List Round) where
  last_round :
      (e : Option Caught) (l : Listener)
      → l.server_mode ≡ on
      → Returns (Accepted n [] e l) (main_loop n (ending e rest) l)
  last_round none l o = Returns-of_eq (no_round n l o) (record {
    result = refl;
    server_mode = o;
    threads = omega arith;
    args = refl;
    work_list = refl;
    clients = refl;
  })
  last_round (some hang_up) l o =
      Returns-of_eq
        (one_round n _ rest l o (round-signalled n hang_up l o few) ∙ left_loop n rest l.counter _)
        (record {
          result = refl;
          server_mode = refl;
          threads = omega arith;
          args = refl;
          work_list = refl;
          clients = refl;
        })
  last_round (some interrupt) l o =
      Returns-of_eq
        (one_round n _ rest l o (round-signalled n interrupt l o few) ∙ stopped n rest _ refl)
        (record {
          result = refl;
          server_mode = refl;
          threads = omega arith;
          args = refl;
          work_list = refl;
          clients = refl;
        })

  -- From a start at which the server is on, the loop of `main` creates one thread for each client
  -- that connects, where `accept` and the creation of the thread succeed, and waits for the next
  -- event if no signal has come. After a SIGHUP the list of jobs has `n` jobs `END_WORKER` behind
  -- those that were there, `n` being the Nslaves of the configuration and below 2 ^ 31, and no
  -- worker sleeps; the loop has ended if no worker is left, and waits for them otherwise. After a
  -- SIGINT or a SIGQUIT it has ended and the list of jobs is as it was. What would have come after
  -- the signal is not looked at.
  pub main_loop-Accepted :
      (cs : List ArgsThrdClient) (e : Option Caught) (l : Listener)
      → l.server_mode ≡ on
      → Returns (Accepted n cs e l) (main_loop n (connecting cs (ending e rest)) l)
  main_loop-Accepted [] e l o = last_round e l o
  main_loop-Accepted (a ∷ cs) e l o =
      let next = record l { err = 1; args = some a; unread = l.unread + 1 } in
      rw (one_round n _ (connecting cs (ending e rest)) l o (round-connects n a l o)) (
        Returns-mono (main_loop-Accepted cs e next o) λ r t k. record {
          result = k.result;
          server_mode = k.server_mode;
          threads = omega (arith, k.threads);
          args = k.args;
          work_list = k.work_list;
          clients = k.clients;
        })
