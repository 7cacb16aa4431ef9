-- ===== src/Config.antt =====
-- parser.c: the configuration of the server.
pub mod Entry
pub mod Client
pub mod Agreement
pub mod RoundTrip
use progetto_sol_unipi.Base.{
  ℕ, zero, suc, ◌+◌, ◌-◌, ◌*◌, ◌^◌, ◌%◌, Bool, true, false, List, Option, none, some, [], ◌∷◌, ◌++◌,
  ◌==◌, if◌then◌else◌, take,
}
use progetto_sol_unipi.Base.Command.{Cmd, pure, gets, modify, ◌>>=◌, ◌>>◌}
use progetto_sol_unipi.Base.Word.{u32, u64, minus_one32}
use progetto_sol_unipi.Memory.State.{Name, Policy, fifo, lru}
use progetto_sol_unipi.Memory.Names.{strncmp_eq}
use progetto_sol_unipi.Text.{
  Stream, fgets, skip_space, Scanned, end_of_file, no_match, matched, scan_number,
}
use progetto_sol_unipi.Transfer.{drop}

-- `MAXPATH` and `MAXCONFS` of headers/utils.h.
abbrev pub max_path : ℕ
max_path = 24

abbrev pub max_confs : ℕ
max_confs = 6

-- `config_t` of headers/parser.h.
pub record Config : Type 0 where
  pub n_slaves : ℕ
  pub max_memory : ℕ
  pub max_files : ℕ
  pub socket_path : Name
  pub log_path : Name
  pub policy : Policy

-- The global `configFile`, and what is left of the file `fp_config`, whose reading does not fail.
pub record Reader : Type 0 where
  pub config : Config
  pub rest : Stream

abbrev pub tag : ℕ → ℕ → ℕ → Name
tag a b c = b'[' ∷ a ∷ b ∷ c ∷ b']' ∷ []

abbrev pub lpt : Name
lpt = tag b'L' b'P' b'T'

abbrev pub spt : Name
spt = tag b'S' b'P' b'T'

abbrev pub nwk : Name
nwk = tag b'N' b'W' b'K'

abbrev pub mfl : Name
mfl = tag b'M' b'F' b'L'

abbrev pub mmb : Name
mmb = tag b'M' b'M' b'B'

abbrev pub pcy : Name
pcy = tag b'P' b'C' b'Y'

abbrev pub fifo_word : Name
fifo_word = b'F' ∷ b'I' ∷ b'F' ∷ b'O' ∷ []

abbrev pub change : (Config → Config) → Cmd Reader (Unit {0})
change f = modify λ r. record r { config = f r.config }

-- `scan` of "%5c": none at the end of the file.
unfoldable pub scan_flag : Cmd Reader (Option Name)
scan_flag r = elim r.rest [
  | [] ↦ pure none r
  | c ∷ s ↦ pure (some (take 5 (c ∷ s))) (record r { rest = drop 5 (c ∷ s) })
]

-- The branches of the loop answer none to go on, and otherwise what `get_config` returns. `fgets`,
-- and what is done with the line; -1 at the end of the file.
unfoldable pub scan_line : (Name → Config → Config) → Cmd Reader (Option ℕ)
scan_line f r =
    let (read, rest) = fgets (max_path - 1) r.rest in
    elim read [
      | none ↦ pure (some minus_one32) (record r { rest = rest })
      | some text ↦ pure none (record r { rest = rest; config = f text r.config })
    ]

-- `scan` of a number and the space behind it: the end of the file ends the function with 0, and
-- without a match the configuration stays.
unfoldable pub scan_value : (ℕ → Config → Config) → Cmd Reader (Option ℕ)
scan_value f r = elim (scan_number r.rest) [
  | end_of_file ↦ pure (some 0) (record r { rest = [] })
  | no_match rest ↦ pure none (record r { rest = rest })
  | matched n rest ↦ pure none (record r { rest = skip_space rest; config = f n r.config })
]

-- `max_memory` is multiplied whether the scan has matched or not.
unfoldable pub scan_memory : Cmd Reader (Option ℕ)
scan_memory = do
  done ← scan_value (λ n c. record c { max_memory = n })
  elim done [
    | some n ↦ pure (some n)
    | none ↦ (change (λ c. record c { max_memory = u64 (c.max_memory * 1000000) }) >> pure none)
  ]

unfoldable pub choose_policy : Name → Config → Config
choose_policy text c = record c { policy = if strncmp_eq text fifo_word 4 then fifo else lru }

unfoldable pub read_entry : Name → Cmd Reader (Option ℕ)
read_entry flag =
    if strncmp_eq flag lpt 5
    then scan_line (λ text c. record c { log_path = text })
    else if strncmp_eq flag spt 5
    then scan_line (λ text c. record c { socket_path = text })
    else if strncmp_eq flag nwk 5
    then scan_value (λ n c. record c { n_slaves = u32 n })
    else if strncmp_eq flag mfl 5
    then scan_value (λ n c. record c { max_files = u32 n })
    else if strncmp_eq flag mmb 5
    then scan_memory
    else if strncmp_eq flag pcy 5
    then scan_line choose_policy
    else pure none

unfoldable pub config_loop : ℕ → Cmd Reader ℕ
config_loop zero = pure 0
config_loop (suc rounds) = do
  flag ← scan_flag
  elim flag [
    | none ↦ pure 0
    | some f ↦ (do done ← read_entry f; elim done [ some n ↦ pure n | none ↦ config_loop rounds ])
  ]

-- `get_config` of a file with the given text, none if it cannot be opened.
unfoldable pub get_config : Option Stream → Cmd Reader ℕ
get_config none = pure minus_one32
get_config (some text) = do modify λ r. record r { rest = text }; config_loop (max_confs + 1)
