-- ===== src/Config/Client.antt =====
-- `get_config` of client.c, a second copy of the function: longer lines, a round less, no policy,
-- and a memory that is not scaled.
use progetto_sol_unipi.Base.{ℕ, zero, suc, ◌-◌, Option, none, some, if◌then◌else◌}
use progetto_sol_unipi.Base.Command.{Cmd, pure, modify, ◌>>=◌, ◌>>◌}
use progetto_sol_unipi.Base.Word.{u32, minus_one32}
use progetto_sol_unipi.Memory.State.{Name}
use progetto_sol_unipi.Memory.Names.{strncmp_eq}
use progetto_sol_unipi.Text.{Stream, fgets}
use progetto_sol_unipi.Config.{Config, Reader, lpt, spt, nwk, mfl, mmb, scan_flag, scan_value}

-- The size of `socket_path` and `log_path` in headers/clientutils.h.
abbrev pub path_size : ℕ
path_size = 256

unfoldable pub scan_path : (Name → Config → Config) → Cmd Reader (Option ℕ)
scan_path f r =
    let (read, rest) = fgets (path_size - 1) r.rest in
    elim read [
      | none ↦ pure (some minus_one32) (record r { rest = rest })
      | some text ↦ pure none (record r { rest = rest; config = f text r.config })
    ]

unfoldable pub read_setting : Name → Cmd Reader (Option ℕ)
read_setting flag =
    if strncmp_eq flag lpt 5
    then scan_path (λ text c. record c { log_path = text })
    else if strncmp_eq flag spt 5
    then scan_path (λ text c. record c { socket_path = text })
    else if strncmp_eq flag nwk 5
    then scan_value (λ n c. record c { n_slaves = u32 n })
    else if strncmp_eq flag mfl 5
    then scan_value (λ n c. record c { max_files = u32 n })
    else if strncmp_eq flag mmb 5
    then scan_value (λ n c. record c { max_memory = n })
    else pure none

unfoldable pub setting_loop : ℕ → Cmd Reader ℕ
setting_loop zero = pure 0
setting_loop (suc rounds) = do
  flag ← scan_flag
  elim flag [
    | none ↦ pure 0
    | some f ↦ (do
      done ← read_setting f
      elim done [ some n ↦ pure n | none ↦ setting_loop rounds ])
  ]

unfoldable pub get_settings : Option Stream → Cmd Reader ℕ
get_settings none = pure minus_one32
get_settings (some text) = do modify λ r. record r { rest = text }; setting_loop 6
