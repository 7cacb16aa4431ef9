-- ===== src/Program.antt =====
-- client.c: the actions of the command line, run one after the other.
pub mod Removals
pub mod Report
use progetto_sol_unipi.Base.{
  ℕ, zero, suc, ◌+◌, ◌^◌, Bool, true, false, not, List, Option, none, some, [], ◌∷◌, ◌++◌, ◌==◌,
  ltb, if◌then◌else◌, length, take,
}
use progetto_sol_unipi.Base.Command.{
  Run, Cmd, ok, fault, exit, out_of_fuel, pure, modify, ◌>>=◌, ◌>>◌,
}
use progetto_sol_unipi.Memory.State.{Name, max_name}
use progetto_sol_unipi.Server.Worker.{o_create}
use progetto_sol_unipi.Client.{
  Client, open_request, write_request, read_request, remove_request, read_n_request,
  close_connection_request,
}
use progetto_sol_unipi.Arguments.{Action, lookup}
use progetto_sol_unipi.Folder.{Listing, visit_dir, within}

-- What the system answers: `realpath`; `opendir` and `readdir`; `stat`; the contents of a file that
-- `fopen` can open; and whether `open` can create a file.
pub record System : Type 0 where
  pub realpath : Name → Name
  pub listing : Name → Option Listing
  pub has_size : Name → Bool
  pub contents : Name → Option (List ℕ)
  pub creates : Name → Bool

-- `written` are the files that `-r` writes to its folder.
pub record Program : Type 0 where
  pub client : Client
  pub written : List (Name × List ℕ)

module _ {A : Type 0} where
  abbrev pub lift_client : Program → Run Client A → Run Program A
  lift_client p (ok a c) = ok a (record p { client = c })
  lift_client p fault = fault
  lift_client p exit = exit
  lift_client p out_of_fuel = out_of_fuel

  -- A request; `apiCall` prints what comes of it.
  abbrev pub api_call : Cmd Client A → Cmd Program A
  api_call m p = lift_client p (m p.client)

abbrev pub visited : Run (List Name) (Unit {0}) → Cmd Program (List Name)
visited (ok _ names) = pure names
visited fault = λ _. fault
visited exit = λ _. exit
visited out_of_fuel = λ _. out_of_fuel

abbrev pub is_some : {A : Type 0} → Option A → Bool
is_some none = false
is_some (some _) = true

-- The folder of `-d`.
abbrev pub dir_name : Option Action → Option Name
dir_name none = none
dir_name (some action) = action.single_arg

-- A null array of names is a fault.
abbrev pub with_names :
    Option (List Name) → (List Name → Cmd Program (Unit {0})) → Cmd Program (Unit {0})
with_names none m = λ _. fault
with_names (some names) m = m names

module _ (system : System) where
  abbrev pub opens : Option Name → Bool
  opens none = false
  opens (some pathname) = is_some (system.listing pathname)

  abbrev pub create_and_write : Name → Cmd Program (Unit {0})
  create_and_write name = do
    api_call (open_request name o_create)
    api_call (write_request name (system.contents name))
    pure tt

  -- The loop of `-w`: at most `n` files, up to one without a size.
  unfoldable pub send_listed : ℕ → List Name → Cmd Program (Unit {0})
  send_listed zero names = pure tt
  send_listed (suc n) [] = pure tt
  send_listed (suc n) (name ∷ names) =
      if system.has_size name then (create_and_write name >> send_listed n names) else pure tt

  abbrev pub visit : Name → Option Listing → Cmd Program (List Name)
  visit pathname none = visited (visit_dir system.realpath pathname false Listing.end [])
  visit pathname (some listing) = visited (visit_dir system.realpath pathname true listing [])

  -- What `-w` does behind its `opendir`: nothing is sent for the number 0 or below. A null name is
  -- a fault.
  unfoldable pub send_folder : Action → Cmd Program (Unit {0})
  send_folder action = elim action.single_arg [
    | none ↦ (λ _. fault)
    | some pathname ↦ (do
      names ← visit pathname (system.listing (system.realpath pathname))
      if ltb action.n (2 ^ 31) then send_listed action.n names else pure tt)
  ]

  -- The buffer that `realpath` writes to has `MAXNAME` characters.
  abbrev pub real_path : Name → Cmd Program Name
  real_path name =
      if ltb (length (system.realpath name)) max_name
      then pure (system.realpath name)
      else (λ _. fault)

  -- `-W`.
  unfoldable pub send_named : List Name → Cmd Program (Unit {0})
  send_named [] = pure tt
  send_named (name ∷ names) = do path ← real_path name; create_and_write path; send_named names

  -- `-c`.
  unfoldable pub remove_named : List Name → Cmd Program (Unit {0})
  remove_named [] = pure tt
  remove_named (name ∷ names) = do
    path ← real_path name
    api_call (remove_request (some path))
    remove_named names

  -- What `-r` does with the buffer and the size of a file that has arrived: true unless the file
  -- cannot be created. The path has a buffer of `MAXNAME` characters, and `write` writes it whole.
  unfoldable pub save : Option Name → Name → Option (List ℕ × ℕ) → Cmd Program Bool
  save none name file = pure true
  save (some dir) name none = pure true
  save (some dir) name (some (buffer, size)) =
      if not (ltb (length (within dir name)) max_name)
      then (λ _. fault)
      else if not (system.creates (within dir name))
      then pure false
      else if ltb (length buffer) size
      then (λ _. fault)
      else (modify
            (λ p. record p { written = p.written ++ (within dir name, take size buffer) ∷ [] })
          >> pure true)

  -- `-r`: the file is opened by the name that was given, and read by its real path.
  unfoldable pub read_named : Option Name → List Name → Cmd Program (Unit {0})
  read_named dir [] = pure tt
  read_named dir (name ∷ names) = do
    path ← real_path name
    api_call (open_request name 0)
    answer ← api_call (read_request path)
    goes_on ← save dir name answer.1
    if goes_on then read_named dir names else pure tt

  -- `-R`: without a `-d` a null pointer is read. A negative number counts as 0.
  unfoldable pub read_some : Name → Option Action → ℕ → Cmd Program (Unit {0})
  read_some text none n = λ _. fault
  read_some text (some dir) n = do
    let has_dirname = is_some dir.single_arg
    api_call (read_n_request text (if ltb n (2 ^ 31) then n else 0) has_dirname)
    pure tt

  -- The cases of the `switch` but `-w`; a case for a list has one.
  unfoldable pub run_action : Name → Option Action → Action → Cmd Program (Unit {0})
  run_action text dir action =
      if action.op == b'W'
      then with_names action.args send_named
      else if action.op == b'r'
      then with_names action.args (read_named (dir_name dir))
      else if action.op == b'c'
      then with_names action.args remove_named
      else if action.op == b'R'
      then read_some text dir action.n
      else pure tt

  -- The loop over the actions. Where `-w` cannot open its folder, the loop goes on to the next
  -- action and takes that for the folder, so `failed` is true there; with no action left it reads a
  -- null pointer.
  unfoldable pub run_actions : Name → Option Action → Bool → List Action → Cmd Program (Unit {0})
  run_actions text dir failed [] = if failed then (λ _. fault) else pure tt
  run_actions text dir failed (action ∷ actions) =
      let after = run_actions text dir false actions in
      let after_failure = run_actions text dir true actions in
      if failed
      then send_folder action >> after
      else if action.op == b'w'
      then (if opens action.single_arg then send_folder action >> after else after_failure)
      else run_action text dir action >> after

  -- `main` once the connection stands: the texts are "readNString" and "Close connection".
  unfoldable pub run_client : Name → Name → List Action → Cmd Program ℕ
  run_client text closing actions = do
    lookup actions b'f'
    lookup actions b'p'
    dir ← lookup actions b'd'
    run_actions text dir false actions
    api_call (close_connection_request closing)
    pure 0
