-- ===== src/Server/Worker/Limits.antt =====
-- What a turn of `worker_thread` does to the two limits of the cache.
use progetto_sol_unipi.Base.{
  ℕ, zero, suc, ◌≡◌, Bool, true, false, Option, none, some, [], ◌∷◌, List, if◌then◌else◌,
}
use progetto_sol_unipi.Base.Command.{
  Run, Cmd, ok, fault, exit, out_of_fuel, and_then, ◌>>=◌, ◌>>◌, Meets,
}
use progetto_sol_unipi.Memory.State.{Ptr, Policy, Server}
use progetto_sol_unipi.Memory.Files.{Host, write_to_file}
use progetto_sol_unipi.Memory.Limits.{Limited, calls}
use progetto_sol_unipi.Server.Wire.{
  Packet, number, message, broken, World, lift, lift_run, next_number, next_message, recv_message,
}
use progetto_sol_unipi.Server.Worker.{
  Job, Turn, again, stop, serve_create, serve_open, serve_read, serve_close, finish_write,
  serve_write, serve_append, send_files, serve_readn, serve_remove, serve, respond, efault,
  status_ok, not_ok, after_turn,
}

-- Wherever the run ends with a result, the limits of the cache are these.
pub record WorldLimited {A : Type 0} (files memory : ℕ) (r : Run World A) : Type 0 where
  pub limited : Meets (λ _ t. (t.server.max_files ≡ files) × (t.server.max_memory ≡ memory)) r

module _ {files memory : ℕ} {A : Type 0} where
  WorldLimited-ok :
      (a : A) (w : World)
      → w.server.max_files ≡ files
      → w.server.max_memory ≡ memory
      → WorldLimited files memory (ok a w)
  WorldLimited-ok a w m n = record { limited = (m, n) }

  WorldLimited-exit : WorldLimited {A = A} files memory exit
  WorldLimited-exit = record { limited = tt }

  WorldLimited-if :
      (b : Bool) (q r : Run World A)
      → WorldLimited files memory q
      → WorldLimited files memory r
      → WorldLimited files memory (if b then q else r)
  WorldLimited-if true q r hq hr = hq
  WorldLimited-if false q r hq hr = hr

  WorldLimited-if_command :
      (b : Bool) (m n : Cmd World A) (w : World)
      → WorldLimited files memory (m w)
      → WorldLimited files memory (n w)
      → WorldLimited files memory ((if b then m else n) w)
  WorldLimited-if_command true m n w hm hn = hm
  WorldLimited-if_command false m n w hm hn = hn

  WorldLimited-then :
      {B : Type 0} (r : Run World A) (k : A → Cmd World B)
      → WorldLimited files memory r
      → ((a : A) (t : World)
          → t.server.max_files ≡ files
          → t.server.max_memory ≡ memory
          → WorldLimited files memory (k a t))
      → WorldLimited files memory (and_then r k)
  WorldLimited-then (ok a t) k q rest = let (m, n) = q.limited in rest a t m n
  WorldLimited-then fault k q rest = record { limited = tt }
  WorldLimited-then exit k q rest = record { limited = tt }
  WorldLimited-then out_of_fuel k q rest = record { limited = tt }

  WorldLimited-lift :
      {B : Type 0} (r : Run Server A) (w : World) (k : A → Cmd World B)
      → Limited files memory r
      → ((a : A) (s : Server)
          → s.max_files ≡ files
          → s.max_memory ≡ memory
          → WorldLimited files memory (k a (record w { server = s })))
      → WorldLimited files memory (and_then (lift_run w r) k)
  WorldLimited-lift (ok a s) w k q rest = let (m, n) = q.limited in rest a s m n
  WorldLimited-lift fault w k q rest = record { limited = tt }
  WorldLimited-lift exit w k q rest = record { limited = tt }
  WorldLimited-lift out_of_fuel w k q rest = record { limited = tt }

module _ {files memory : ℕ} where
  next_number-WorldLimited :
      (w : World) (ps : List Packet)
      → w.server.max_files ≡ files
      → w.server.max_memory ≡ memory
      → WorldLimited files memory (next_number w ps)
  next_number-WorldLimited w [] m n = record { limited = tt }
  next_number-WorldLimited w (number k ∷ rest) m n = record { limited = (m, n) }
  next_number-WorldLimited w (message l ∷ rest) m n = record { limited = tt }
  next_number-WorldLimited w (broken ∷ rest) m n = record { limited = tt }

  next_message-WorldLimited :
      (w : World) (ps : List Packet)
      → w.server.max_files ≡ files
      → w.server.max_memory ≡ memory
      → WorldLimited files memory (next_message w ps)
  next_message-WorldLimited w [] m n = record { limited = (m, n) }
  next_message-WorldLimited w (number k ∷ rest) m n = record { limited = tt }
  next_message-WorldLimited w (message l ∷ rest) m n = record { limited = (m, n) }
  next_message-WorldLimited w (broken ∷ rest) m n = record { limited = (m, n) }

ruleset turns = (
  calls, WorldLimited-ok, WorldLimited-exit, WorldLimited-if, WorldLimited-if_command,
  WorldLimited-then, WorldLimited-lift, next_number-WorldLimited, next_message-WorldLimited,
)

-- A command leaves the limits as they are.
abbrev pub TurnKeepsLimits : {A : Type 0} → Cmd World A → Type 0
TurnKeepsLimits m =
    (files memory : ℕ) (w : World)
    → w.server.max_files ≡ files
    → w.server.max_memory ≡ memory
    → WorldLimited files memory (m w)

module _ (host : Host) (policy : Policy) where
  serve_create-Limited : (job : Job) → TurnKeepsLimits (serve_create host policy job)
  unfolding serve_create
  serve_create-Limited job files memory w m n = search (turns) depth 60

  serve_open-Limited : (job : Job) → TurnKeepsLimits (serve_open host policy job)
  unfolding serve_open
  serve_open-Limited job files memory w m n = search (turns, serve_create-Limited) depth 60

  serve_read-Limited : (job : Job) → TurnKeepsLimits (serve_read host policy job)
  unfolding serve_read
  serve_read-Limited job files memory w m n = search (turns) depth 60

  serve_close-Limited : (job : Job) → TurnKeepsLimits (serve_close host policy job)
  unfolding serve_close
  serve_close-Limited job files memory w m n = search (turns, serve_read-Limited) depth 60

  finish_write-Limited :
      (job : Job) (k : ℕ) (buffer : List ℕ)
      → TurnKeepsLimits (finish_write host policy job k buffer)
  unfolding finish_write
  finish_write-Limited job k buffer files memory w m n = search turns depth 60

  -- What is left of a write and of an append once the message is there, or known to be broken.
  write_tail-Limited :
      (job : Job) (k : ℕ) (msg : Option (List ℕ))
      → TurnKeepsLimits (elim msg [
        | none ↦ respond efault not_ok
        | some buffer ↦ finish_write host policy job k buffer
      ])
  write_tail-Limited job k none files memory w m n = search turns depth 20
  write_tail-Limited job k (some buffer) files memory w m n =
      finish_write-Limited job k buffer files memory w m n

  append_tail-Limited :
      (p : Ptr) (k : ℕ) (msg : Option (List ℕ))
      → TurnKeepsLimits (elim msg [
        | none ↦ respond efault not_ok
        | some buffer ↦ (lift (write_to_file p buffer k) >> respond 0 status_ok)
      ])
  append_tail-Limited p k none files memory w m n = search turns depth 20
  append_tail-Limited p k (some buffer) files memory w m n = search turns depth 20

  write_rest-Limited :
      (job : Job) (k : ℕ)
      → TurnKeepsLimits (do
        msg ← recv_message
        elim msg [
          | none ↦ respond efault not_ok
          | some buffer ↦ finish_write host policy job k buffer
        ])
  write_rest-Limited job k files memory w m n =
      WorldLimited-then _ _ (next_message-WorldLimited _ _ m n)
        λ msg. write_tail-Limited job k msg files memory

  append_rest-Limited :
      (p : Ptr) (k : ℕ)
      → TurnKeepsLimits (do
        msg ← recv_message
        elim msg [
          | none ↦ respond efault not_ok
          | some buffer ↦ (lift (write_to_file p buffer k) >> respond 0 status_ok)
        ])
  append_rest-Limited p k files memory w m n =
      WorldLimited-then _ _ (next_message-WorldLimited _ _ m n)
        λ msg. append_tail-Limited p k msg files memory

  serve_write-Limited : (job : Job) → TurnKeepsLimits (serve_write host policy job)
  unfolding serve_write
  serve_write-Limited job files memory w m n = search (turns, write_rest-Limited) depth 60

  serve_append-Limited : (job : Job) → TurnKeepsLimits (serve_append host policy job)
  unfolding serve_append
  serve_append-Limited job files memory w m n = search (turns, append_rest-Limited) depth 60

  send_files-Limited : (k : ℕ) (p : Ptr) → TurnKeepsLimits (send_files host policy k p)
  unfolding send_files
  send_files-Limited zero p files memory w m n = search turns depth 20
  send_files-Limited (suc k) p files memory w m n = search (turns, send_files-Limited k) depth 60

  serve_readn-Limited : (job : Job) → TurnKeepsLimits (serve_readn host policy job)
  unfolding serve_readn
  serve_readn-Limited job files memory w m n = search (turns, send_files-Limited) depth 60

  serve_remove-Limited : (job : Job) → TurnKeepsLimits (serve_remove host policy job)
  unfolding serve_remove
  serve_remove-Limited job files memory w m n = search (turns) depth 60

  pub serve-Limited : (job : Job) → TurnKeepsLimits (serve host policy job)
  unfolding serve
  serve-Limited job files memory w m n =
      search
        (
          turns, serve_open-Limited, serve_close-Limited, serve_read-Limited, serve_write-Limited,
          serve_append-Limited, serve_readn-Limited, serve_remove-Limited,
        )
        depth 60

  after_turn-Limited :
      (turn : Turn) (more : Cmd World Turn)
      → TurnKeepsLimits more
      → TurnKeepsLimits (after_turn host policy turn more)
  unfolding after_turn
  after_turn-Limited again more k files memory w m n = k files memory w m n
  after_turn-Limited stop more k files memory w m n = search turns depth 20
