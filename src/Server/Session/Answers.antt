-- ===== src/Server/Session/Answers.antt =====
-- How many responses a turn of the worker pushes.
use progetto_sol_unipi.Base.{
  ℕ, zero, suc, ◌≡◌, refl, ◌||◌, arith, Bool, true, false, List, Option, none, some, ◌==◌,
  if◌then◌else◌,
}
use progetto_sol_unipi.Base.Command.{Run, Cmd, ◌>>=◌, ◌>>◌, Meets, Meets-mono}
use progetto_sol_unipi.Memory.State.{Ptr, Policy}
use progetto_sol_unipi.Memory.Files.{Host, write_to_file}
use progetto_sol_unipi.Server.Wire.{World, Response, lift, recv_message}
use progetto_sol_unipi.Server.Worker.{
  Job, Turn, again, stop, respond, serve, serve_create, serve_open, serve_read, serve_write,
  finish_write, serve_append, serve_readn, send_files, serve_remove, open_file, close_file,
  read_file, write_file, append_file, readn_file, remove_file, close_connection, efault, not_ok,
  status_ok,
}
use progetto_sol_unipi.Server.Session.Parts.{
  Answered, answered, Answers, Quiet, turn_parts, Answers-then, Answers-respond, next_message-Quiet,
}

module _ (host : Host) (policy : Policy) where
  Quiet-send_files :
      (n : ℕ) (file : Ptr) (w : World) {before : List Response}
      → w.responses ≡ before
      → Quiet before (send_files host policy n file w)
  unfolding send_files
  Quiet-send_files zero file w e = search turn_parts depth 30
  Quiet-send_files (suc n) file w e = search (turn_parts, Quiet-send_files n) depth 30

module _ (host : Host) (policy : Policy) (job : Job) (w : World) where
  Answers-serve_create : Answers w.responses (serve_create host policy job w)
  unfolding serve_create
  Answers-serve_create = search turn_parts depth 30

  Answers-serve_open : Answers w.responses (serve_open host policy job w)
  unfolding serve_open
  Answers-serve_open = search (turn_parts, Answers-serve_create) depth 30

  Answers-serve_remove : Answers w.responses (serve_remove host policy job w)
  unfolding serve_remove
  Answers-serve_remove = search turn_parts depth 30

  Answers-serve_read : Answers w.responses (serve_read host policy job w)
  unfolding serve_read
  Answers-serve_read = search turn_parts depth 30

  Answers-serve_readn : Answers w.responses (serve_readn host policy job w)
  unfolding serve_readn
  Answers-serve_readn = search (turn_parts, Quiet-send_files host policy) depth 30

module _ (host : Host) (policy : Policy) (job : Job) where
  Answers-finish_write :
      (n : ℕ) (msg : Option (List ℕ)) (w : World) {before : List Response}
      → w.responses ≡ before
      → Answers before (
          (elim msg as (λ _. Cmd World Turn) [
            | none ↦ respond efault not_ok
            | some m ↦ finish_write host policy job n m
          ])
            w)
  unfolding finish_write
  Answers-finish_write n none w e = search turn_parts depth 30
  Answers-finish_write n (some m) w e = search turn_parts depth 30

  Answers-finish_append :
      (n : ℕ) (file : Ptr) (msg : Option (List ℕ)) (w : World) {before : List Response}
      → w.responses ≡ before
      → Answers before (
          (elim msg as (λ _. Cmd World Turn) [
            | none ↦ respond efault not_ok
            | some m ↦ (lift (write_to_file file m n) >> respond 0 status_ok)
          ])
            w)
  Answers-finish_append n file none w e = search turn_parts depth 30
  Answers-finish_append n file (some m) w e = search turn_parts depth 30

  Answers-rest_of_write :
      (n : ℕ) (w : World) {before : List Response}
      → w.responses ≡ before
      → Answers before (
          (do
            msg ← recv_message
            elim msg [ none ↦ respond efault not_ok | some m ↦ finish_write host policy job n m ])
            w)
  Answers-rest_of_write n w e =
      Answers-then _ _ (next_message-Quiet _ _ e) λ msg t e'. Answers-finish_write n msg t e'

  Answers-rest_of_append :
      (n : ℕ) (file : Ptr) (w : World) {before : List Response}
      → w.responses ≡ before
      → Answers before (
          (do
            msg ← recv_message
            elim msg [
              | none ↦ respond efault not_ok
              | some m ↦ (lift (write_to_file file m n) >> respond 0 status_ok)
            ])
            w)
  Answers-rest_of_append n file w e =
      Answers-then _ _ (next_message-Quiet _ _ e) λ msg t e'. Answers-finish_append n file msg t e'

  Answers-serve_write : (w : World) → Answers w.responses (serve_write host policy job w)
  unfolding serve_write
  Answers-serve_write w = search (turn_parts, Answers-rest_of_write) depth 30

  Answers-serve_append : (w : World) → Answers w.responses (serve_append host policy job w)
  unfolding serve_append
  Answers-serve_append w = search (turn_parts, Answers-rest_of_append) depth 30

-- The operations of the `switch` but `CLOSE_FILE` and `END_WORKER`.
abbrev pub is_request : ℕ → Bool
is_request op =
    op == open_file
    || op == read_file
    || op == write_file
    || op == append_file
    || op == readn_file
    || op == remove_file
    || op == close_connection

-- What a turn does: one response to a request, and nothing for another operation.
pub data Turned (job : Job) (w : World) : Turn → World → Type 0 where
  request :
      (t : World) → is_request job.op ≡ true → Answered w.responses again t → Turned job w again t
  stopped : is_request job.op ≡ false → Turned job w stop w

module _ (host : Host) (policy : Policy) (job : Job) (w : World) where
  Turned-request :
      (r : Run World Turn)
      → is_request job.op ≡ true
      → Answers w.responses r
      → Meets (Turned job w) r
  Turned-request r y a = Meets-mono _ _ r a.answers λ turn t h. requested turn t h
    where
      requested : (turn : Turn) (t : World) → Answered w.responses turn t → Turned job w turn t
      requested turn t (answered r u e) = request u y (answered r u e)

  Turned-if :
      (b : Bool) (m n : Cmd World Turn)
      → (b ≡ true → Meets (Turned job w) (m w))
      → (b ≡ false → Meets (Turned job w) (n w))
      → Meets (Turned job w) ((if b then m else n) w)
  Turned-if true m n yes_case no_case = yes_case refl
  Turned-if false m n yes_case no_case = no_case refl

  pub serve-Turned : (job.op == close_file) ≡ false → Meets (Turned job w) (serve host policy job w)
  unfolding serve
  serve-Turned other =
      Turned-if (job.op == open_file) _ _
        (λ y. Turned-request _ (ground arith) (Answers-serve_open host policy job w))
        λ n1.
          Turned-if (job.op == close_file) _ _ (λ y. absurd (ground arith))
            λ n2.
              Turned-if (job.op == read_file) _ _
                (λ y. Turned-request _ (ground arith) (Answers-serve_read host policy job w))
                λ n3.
                  Turned-if (job.op == write_file) _ _
                    (λ y. Turned-request _ (ground arith) (Answers-serve_write host policy job w))
                    λ n4.
                      Turned-if (job.op == append_file) _ _
                        (λ y.
                          Turned-request _ (ground arith) (Answers-serve_append host policy job w))
                        λ n5.
                          Turned-if (job.op == readn_file) _ _
                            (λ y.
                              Turned-request _ (ground arith)
                                (Answers-serve_readn host policy job w))
                            λ n6.
                              Turned-if (job.op == remove_file) _ _
                                (λ y.
                                  Turned-request _ (ground arith)
                                    (Answers-serve_remove host policy job w))
                                λ n7.
                                  Turned-if (job.op == close_connection) _ _
                                    (λ y.
                                      Turned-request _ (ground arith) (Answers-respond _ _ _ refl))
                                    λ n8. stopped (ground arith)
