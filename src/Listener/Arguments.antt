-- ===== src/Listener/Arguments.antt =====
-- The arguments of the threads of the clients, which `main` passes by the address of one variable.
use progetto_sol_unipi.Base.{◌-◌, ◌<◌, ◌≡◌, some, [], ◌∷◌, ◌++◌}
use progetto_sol_unipi.Base.Command.{ok}
use progetto_sol_unipi.Listener.{ArgsThrdClient, Round, Listener, accept_client}

-- The main thread accepts a client, or a thread that it has created reads its arguments.
pub data Step (l : Listener) : Listener → Type 0 where
  accepts : (r : Round) {t : Listener} → accept_client r l ≡ ok tt t → Step l t
  reads :
      (a : ArgsThrdClient)
      → 0 < l.unread
      → l.args ≡ some a
      → Step l (record l { unread = l.unread - 1; clients = l.clients ++ a ∷ [] })
