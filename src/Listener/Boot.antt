-- ===== src/Listener/Boot.antt =====
-- `main` of server.c before its loop.
use progetto_sol_unipi.Base.{
  ℕ, zero, suc, ◌+◌, ◌^◌, Bool, true, false, not, Option, ◌==◌, ltb, if◌then◌else◌,
}
use progetto_sol_unipi.Base.Command.{
  Run, Cmd, ok, fault, exit, out_of_fuel, pure, gets, modify, ◌>>=◌, ◌>>◌,
}
use progetto_sol_unipi.Base.Word.{minus_one32}
use progetto_sol_unipi.Memory.State.{Server}
use progetto_sol_unipi.Memory.Evict.{init_memory}
use progetto_sol_unipi.Text.{Stream}
use progetto_sol_unipi.Config.{Reader, get_config}
use progetto_sol_unipi.Listener.{safe_pthread_create}

-- What the calls of `main` before the loop come to, in their order: the text of the configuration
-- file, and whether the log is opened, `socket`, `bind` and `listen` succeed, and all the calls for
-- the signals do; `threads` gives the answers for each worker.
pub record System : Type 0 where
  pub config : Option Stream
  pub log : Bool
  pub mutexes : Bool
  pub socket : Bool
  pub bind : Bool
  pub listen : Bool
  pub signals : Bool
  pub threads : ℕ → ℕ × ℕ

-- The globals that the start sets, and the number of workers that have been created.
pub record Boot : Type 0 where
  pub reader : Reader
  pub server : Server
  pub workers : ℕ

unfoldable pub start_workers : ℕ → (ℕ → ℕ × ℕ) → Cmd Boot (Unit {0})
start_workers zero threads = pure tt
start_workers (suc n) threads = do
  start_workers n threads
  safe_pthread_create (threads n).0 (threads n).1 (modify λ b. record b { workers = b.workers + 1 })

-- The workers, behind the array of their threads: one of no elements is undefined, and so is the
-- `int` that counts them where it does not reach their number.
unfoldable pub create_workers : ℕ → (ℕ → ℕ × ℕ) → Cmd Boot (Unit {0})
create_workers n_slaves threads =
    if n_slaves == 0
    then (λ _. fault)
    else if not (ltb n_slaves (2 ^ 31))
    then (λ _. fault)
    else start_workers n_slaves threads

-- A call of `main` that leaves the process if it fails.
abbrev pub needs : {S : Type 0} → Bool → Cmd S (Unit {0})
needs done = if done then pure tt else (λ _. exit)

-- `get_config`, `init_memory`: functions on a part of the globals.
module _ {A : Type 0} where
  abbrev pub lift_reader : Boot → Run Reader A → Run Boot A
  lift_reader b (ok a r) = ok a (record b { reader = r })
  lift_reader b fault = fault
  lift_reader b exit = exit
  lift_reader b out_of_fuel = out_of_fuel

  abbrev pub in_reader : Cmd Reader A → Cmd Boot A
  in_reader m b = lift_reader b (m b.reader)

  abbrev pub lift_server : Boot → Run Server A → Run Boot A
  lift_server b (ok a s) = ok a (record b { server = s })
  lift_server b fault = fault
  lift_server b exit = exit
  lift_server b out_of_fuel = out_of_fuel

  abbrev pub in_server : Cmd Server A → Cmd Boot A
  in_server m b = lift_server b (m b.server)

-- `main` up to its loop, with `argc` words on the command line; false if it returns -1 before. The
-- text is that of the file that the command line names, or of config.txt.
unfoldable pub start_up : ℕ → System → Cmd Boot Bool
start_up argc system = if ltb 2 argc then (λ _. exit) else do
  configured ← in_reader (get_config system.config)
  if configured == minus_one32 then (λ _. exit) else do
    needs system.log
    b ← gets λ b. b
    needs system.mutexes
    in_server (init_memory b.reader.config.max_files b.reader.config.max_memory)
    needs system.socket
    if not system.bind then pure false else do
      needs system.listen
      needs system.signals
      create_workers b.reader.config.n_slaves system.threads
      pure true
