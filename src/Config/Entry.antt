-- ===== src/Config/Entry.antt =====
-- Configuration files as they are meant to be written: their text, and what their lines set.
use progetto_sol_unipi.Base.{
  ℕ, ◌+◌, ◌-◌, ◌*◌, ◌^◌, ◌<◌, ◌≡◌, Bool, true, false, ◌&&◌, List, [], ◌∷◌, ◌++◌, ◌==◌,
  if◌then◌else◌, length,
}
use progetto_sol_unipi.Memory.State.{Name, fifo, lru}
use progetto_sol_unipi.Memory.Names.{strncmp_eq}
use progetto_sol_unipi.Text.{Stream, is_digit}
use progetto_sol_unipi.Config.{Config, lpt, spt, nwk, mfl, mmb, pcy, fifo_word, max_path}

-- A line of the file.
pub data Entry : Type 0 where
  log_path socket_path policy_line : Name → Entry
  n_slaves max_files max_memory : Name → Entry

abbrev pub newline : Name
newline = b'\n' ∷ []

abbrev pub tag_of : Entry → Name
tag_of (log_path p) = lpt
tag_of (socket_path p) = spt
tag_of (policy_line p) = pcy
tag_of (n_slaves ds) = nwk
tag_of (max_files ds) = mfl
tag_of (max_memory ds) = mmb

abbrev pub body : Entry → Name
body (log_path p) = p
body (socket_path p) = p
body (policy_line p) = p
body (n_slaves ds) = ds
body (max_files ds) = ds
body (max_memory ds) = ds

abbrev pub print_all : List Entry → Stream
print_all [] = []
print_all (e ∷ es) = tag_of e ++ (body e ++ newline ++ print_all es)

-- The number that digits stand for.
abbrev pub value : ℕ → Name → ℕ
value n [] = n
value n (c ∷ ds) = value (n * 10 + (c - 48)) ds

abbrev pub all_digits : Name → Bool
all_digits [] = true
all_digits (c ∷ ds) = is_digit c && all_digits ds

abbrev pub no_newline : Name → Bool
no_newline [] = true
no_newline (c ∷ s) = if c == b'\n' then false else no_newline s

abbrev pub IsNumber : ℕ → Name → Type 0
IsNumber limit ds = (0 < length ds) × (all_digits ds ≡ true) × (value 0 ds < limit)

-- What a line may hold: text of one line that fits in the buffer with its newline, or a number in
-- range.
abbrev pub Fits : Entry → Type 0
Fits (log_path p) = (no_newline p ≡ true) × (length p < max_path - 1)
Fits (socket_path p) = (no_newline p ≡ true) × (length p < max_path - 1)
Fits (policy_line p) = (no_newline p ≡ true) × (length p < max_path - 1)
Fits (n_slaves ds) = IsNumber (2 ^ 32) ds
Fits (max_files ds) = IsNumber (2 ^ 32) ds
Fits (max_memory ds) = IsNumber (2 ^ 44) ds

abbrev pub AllFit : List Entry → Type 0
AllFit [] = Unit {0}
AllFit (e ∷ es) = Fits e × AllFit es

-- What a line sets. The texts keep their newline; `[MMB]` is in millions of bytes.
abbrev pub set_entry : Entry → Config → Config
set_entry (log_path p) c = record c { log_path = p ++ newline }
set_entry (socket_path p) c = record c { socket_path = p ++ newline }
set_entry (policy_line p) c = record c {
  policy = if strncmp_eq (p ++ newline) fifo_word 4 then fifo else lru;
}
set_entry (n_slaves ds) c = record c { n_slaves = value 0 ds }
set_entry (max_files ds) c = record c { max_files = value 0 ds }
set_entry (max_memory ds) c = record c { max_memory = value 0 ds * 1000000 }

abbrev pub set_all : List Entry → Config → Config
set_all [] c = c
set_all (e ∷ es) c = set_all es (set_entry e c)
