-- ===== src/Listener/Start.antt =====
-- The start of the server: what the configuration file comes to.
use progetto_sol_unipi.Base.{ℕ, ◌+◌, ◌≡◌, refl, Bool, true}
use progetto_sol_unipi.Base.Command.{Returns-result}
use progetto_sol_unipi.Memory.State.{null, Server}
use progetto_sol_unipi.Memory.Evict.{init_memory}
use progetto_sol_unipi.Config.{Config}
use progetto_sol_unipi.Config.Entry.{Entry}
use progetto_sol_unipi.Listener.Boot.{System, Boot}
use progetto_sol_unipi.Server.Worker.Request.{Keeps}
use progetto_sol_unipi.Server.Worker.History.{init_memory-Keeps}

-- Every call of the system succeeds.
pub record Works (system : System) : Type 0 where
  pub log : system.log ≡ true
  pub mutexes : system.mutexes ≡ true
  pub socket : system.socket ≡ true
  pub bind : system.bind ≡ true
  pub listen : system.listen ≡ true
  pub signals : system.signals ≡ true
  pub created : (i : ℕ) → (system.threads i).0 ≡ 0
  pub detached : (i : ℕ) → (system.threads i).1 ≡ 0

cache :
    (c : Config) (s : Server)
    → Keeps c.max_files c.max_memory (record s {
      max_files = c.max_files;
      max_memory = c.max_memory;
      alg_trigger = 0;
      n_current_file = 0;
      n_current_memory_used = 0;
      max_recv_file = 0;
      max_used_memory = 0;
      memory = null;
    })
unfolding init_memory
cache c s = Returns-result (init_memory-Keeps c.max_files c.max_memory s) refl

-- The server has started with this configuration.
pub record Started (c : Config) (b : Boot) (goes_on : Bool) (t : Boot) : Type 0 where
  pub result : goes_on ≡ true
  pub config : t.reader.config ≡ c
  pub workers : t.workers ≡ b.workers + c.n_slaves
  pub cache : Keeps c.max_files c.max_memory t.server
