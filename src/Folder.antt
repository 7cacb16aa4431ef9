-- ===== src/Folder.antt =====
-- `visitDir` of clientutils.c: the files of a folder and of the folders in it.
pub mod Listed
use progetto_sol_unipi.Base.{
  ℕ, ◌+◌, Bool, true, false, not, ◌==◌, ◌||◌, List, [], ◌∷◌, ◌++◌, ltb, if◌then◌else◌, length,
}
use progetto_sol_unipi.Base.Command.{Cmd, fault, pure, modify, gets, ◌>>=◌, ◌>>◌}
use progetto_sol_unipi.Memory.State.{Name, max_name}

-- `MAXFILES` of headers/utils.h.
abbrev pub max_files : ℕ
max_files = 1024

-- What `readdir` answers for a folder, up to its null pointer: for each entry its name, and for a
-- folder also whether `opendir` can open it, and what is in it.
mutual
  pub data Node : Type 0 where
    file : Name → Node
    folder : Name → Bool → Listing → Node

  pub data Listing : Type 0 where
    end : Listing
    entry : Node → Listing → Listing

abbrev pub same_text : Name → Name → Bool
same_text [] [] = true
same_text [] (d ∷ t) = false
same_text (c ∷ s) [] = false
same_text (c ∷ s) (d ∷ t) = let rest = same_text s t in if c == d then rest else false

-- "." and "..".
abbrev pub is_dots : Name → Bool
is_dots name = same_text name (b'.' ∷ []) || same_text name (b'.' ∷ b'.' ∷ [])

abbrev pub within : Name → Name → Name
within path name = path ++ b'/' ∷ name

-- The state is `fileList` up to `*acc`. The buffer of a name has `MAXNAME` characters, and
-- `fileList` has `MAXFILES` places.
unfoldable pub add_name : Name → Cmd (List Name) (Unit {0})
add_name name files =
    if ltb (length files) max_files
    then (if ltb (length name) max_name then modify (λ l. l ++ name ∷ []) files else fault)
    else fault

-- `visitDir` up to its loop, which is the command: nothing is added if `opendir` fails.
abbrev pub open_folder : Name → Bool → Cmd (List Name) (Unit {0}) → Cmd (List Name) (Unit {0})
open_folder realp readable loop =
    if not (ltb (length realp) max_name) then (λ _. fault) else if readable then loop else pure tt

-- `realpath` is the function of the system: what it leaves in the buffer.
module _ (realpath : Name → Name) where
  unfoldable mutual
    pub visit_entries : Name → Listing → Cmd (List Name) (Unit {0})
    visit_entries realp end = pure tt
    visit_entries realp (entry node rest) = visit_node realp node >> visit_entries realp rest

    pub visit_node : Name → Node → Cmd (List Name) (Unit {0})
    visit_node realp (file name) = if is_dots name then pure tt else add_name (within realp name)
    visit_node realp (folder name readable listing) =
        let dirname = within realp name in
        let loop = visit_entries (realpath dirname) listing in
        if is_dots name
        then pure tt
        else if not (ltb (length dirname) max_name)
        then (λ _. fault)
        else open_folder (realpath dirname) readable loop

  unfoldable pub visit_dir : Name → Bool → Listing → Cmd (List Name) (Unit {0})
  visit_dir pathname readable listing =
      open_folder (realpath pathname) readable (visit_entries (realpath pathname) listing)
