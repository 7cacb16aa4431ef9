-- ===== src/Tests/ProgramTests.antt =====
-- Actions of the client.
use progetto_sol_unipi.Base.{ℕ, ◌≡◌, refl, true, false, List, Option, none, [], ◌∷◌, arith}
use progetto_sol_unipi.Base.Command.{fault, exit, Returns}
use progetto_sol_unipi.Memory.State.{Name}
use progetto_sol_unipi.Server.Wire.{number, Response}
use progetto_sol_unipi.Server.Worker.{status_ok}
use progetto_sol_unipi.Arguments.{Action, lookup}
use progetto_sol_unipi.Folder.{Listing}
use progetto_sol_unipi.Program.{
  System, Program, remove_named, run_actions, run_action, read_some, run_client,
}
use progetto_sol_unipi.Program.Removals.{removals, remove_named-sends}

-- A name without a slash is in the folder "/".
abbrev in_root : Name → Name
in_root [] = b'/' ∷ []
in_root (c ∷ name) = b'/' ∷ c ∷ name

abbrev no_folder : Name → Option Listing
no_folder name = none

abbrev no_file : Name → Option (List ℕ)
no_file name = none

abbrev system : System
system = record {
  realpath = in_root;
  listing = no_folder;
  has_size = λ name. false;
  contents = no_file;
  creates = λ name. true;
}

abbrev success : Response
success = record { err = 0; status_request = status_ok }

abbrev program : Program
program = record {
  client = record {
    connected = true;
    incoming = number status_ok ∷ number 0 ∷ number status_ok ∷ number 0 ∷ number 7 ∷ [];
    sent = [];
    errno = 0;
    saved = [];
  };
  written = [];
}

remove_named-sends_example :
    Returns
      (λ _ t.
        (t.client.sent ≡ removals system ((b'a' ∷ []) ∷ (b'b' ∷ []) ∷ []))
        × (t.client.incoming ≡ number 7 ∷ [])
        × (t.written ≡ []))
      (remove_named system ((b'a' ∷ []) ∷ (b'b' ∷ []) ∷ []) program)
remove_named-sends_example =
    remove_named-sends system ((b'a' ∷ []) ∷ (b'b' ∷ []) ∷ []) (success ∷ success ∷ [])
      (number 7 ∷ []) program (omega arith, (omega arith, tt)) refl refl refl

abbrev three : Action
three = record { op = b'R'; single_arg = none; args = none; n = 3 }

-- `-R` without `-d` reads a null pointer.
no_dir : run_client system [] [] (three ∷ []) program ≡ fault
unfolding run_client run_actions run_action read_some lookup
no_dir = refl

-- Without an action the client leaves.
no_action : run_client system [] [] [] program ≡ exit
unfolding run_client lookup
no_action = refl
