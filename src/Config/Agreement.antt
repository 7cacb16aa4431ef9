-- ===== src/Config/Agreement.antt =====
-- The server and the client on the same configuration file.
use progetto_sol_unipi.Base.{
  ℕ, zero, suc, ◌-◌, ◌<◌, ◌≤◌, ◌≡◌, refl, ap, arith, Bool, true, false, List, none, some, [], ◌∷◌,
  ◌++◌, length,
}
use progetto_sol_unipi.Base.Command.{ok, and_then-ok}
use progetto_sol_unipi.Base.Word.{u32}
use progetto_sol_unipi.Memory.State.{Name}
use progetto_sol_unipi.Memory.Names.{strncmp_eq}
use progetto_sol_unipi.Text.{skip_space}
use progetto_sol_unipi.Config.{Config, Reader, get_config, max_path}
use progetto_sol_unipi.Config.Entry.{
  Entry, log_path, socket_path, policy_line, n_slaves, max_files, max_memory, newline, tag_of, body,
  print_all, value, no_newline, Fits, AllFit, set_entry, set_all,
}
use progetto_sol_unipi.Config.RoundTrip.{
  fgets_lem, scan_value_lem, scan_flag_lem, scan_flag-end, skip_space-print_all,
  get_config-print_all,
}
use progetto_sol_unipi.Config.Client.{
  path_size, scan_path, read_setting, setting_loop, get_settings,
}

-- A file without a policy, of which the client knows nothing.
abbrev pub no_policy : List Entry → Bool
no_policy [] = true
no_policy (policy_line p ∷ es) = false
no_policy (e ∷ es) = no_policy es

-- What a line sets in the client.
abbrev pub set_setting : Entry → Config → Config
set_setting (max_memory ds) c = record c { max_memory = value 0 ds }
set_setting e c = set_entry e c

abbrev pub set_settings : List Entry → Config → Config
set_settings [] c = c
set_settings (e ∷ es) c = set_settings es (set_setting e c)

scan_path_lem :
    (p rest : Name) (f : Name → Config → Config) (c : Config)
    → no_newline p ≡ true
    → length p < max_path - 1
    → scan_path f (record { config = c; rest = p ++ newline ++ rest })
      ≡ ok none (record { config = f (p ++ newline) c; rest = rest })
unfolding scan_path
scan_path_lem p rest f c h few =
    let reads = fgets_lem p rest (path_size - 1) h (omega arith) in
    rw (reads, scan_path)
      (ap (λ s. ok none (record { config = f (p ++ newline) c; rest = s })) (ap (λ r. r.1) reads))

read_setting_lem :
    (e : Entry) (es : List Entry) (rest : Name) (c : Config)
    → no_policy (e ∷ es) ≡ true
    → Fits e
    → skip_space rest ≡ rest
    → read_setting (tag_of e) (record { config = c; rest = body e ++ newline ++ rest })
      ≡ ok none (record { config = set_setting e c; rest = rest })
unfolding read_setting strncmp_eq
read_setting_lem (log_path p) es rest c shared (h, few) stays =
    scan_path_lem p rest (λ text c. record c { log_path = text }) c h few
read_setting_lem (socket_path p) es rest c shared (h, few) stays =
    scan_path_lem p rest (λ text c. record c { socket_path = text }) c h few
read_setting_lem (policy_line p) es rest c shared fits stays = absurd (ground arith)
read_setting_lem (n_slaves ds) es rest c shared (some_digits, h, small) stays =
    rw
      (scan_value_lem ds rest (λ n c. record c { n_slaves = u32 n }) c (some_digits, h, omega arith)
        stays)
      (ap (λ n. ok none (record { config = record c { n_slaves = n }; rest = rest }))
        (let small : u32 (value 0 ds) ≡ value 0 ds = omega arith in small))
read_setting_lem (max_files ds) es rest c shared (some_digits, h, small) stays =
    rw
      (scan_value_lem ds rest (λ n c. record c { max_files = u32 n }) c
        (some_digits, h, omega arith) stays)
      (ap (λ n. ok none (record { config = record c { max_files = n }; rest = rest }))
        (let small : u32 (value 0 ds) ≡ value 0 ds = omega arith in small))
read_setting_lem (max_memory ds) es rest c shared (some_digits, h, small) stays =
    scan_value_lem ds rest (λ n c. record c { max_memory = n }) c (some_digits, h, omega arith)
      stays

no_policy-tail : (e : Entry) (es : List Entry) → no_policy (e ∷ es) ≡ true → no_policy es ≡ true
no_policy-tail (log_path p) es h = h
no_policy-tail (socket_path p) es h = h
no_policy-tail (policy_line p) es h = absurd (ground arith)
no_policy-tail (n_slaves ds) es h = h
no_policy-tail (max_files ds) es h = h
no_policy-tail (max_memory ds) es h = h

setting_loop-print_all :
    (es : List Entry) (rounds : ℕ) (c : Config)
    → AllFit es
    → no_policy es ≡ true
    → length es ≤ rounds
    → setting_loop rounds (record { config = c; rest = print_all es })
      ≡ ok 0 (record { config = set_settings es c; rest = [] })
unfolding setting_loop
setting_loop-print_all [] zero c fit shared few = refl
setting_loop-print_all [] (suc rounds) c fit shared few = and_then-ok _ _ (scan_flag-end c) refl
setting_loop-print_all (e ∷ es) zero c fit shared few = absurd (omega arith)
setting_loop-print_all (e ∷ es) (suc rounds) c (fits, fit) shared few =
    and_then-ok _ _ (scan_flag_lem e (body e ++ newline ++ print_all es) c) (
      and_then-ok _ _ (read_setting_lem e es (print_all es) c shared fits (skip_space-print_all es))
        (setting_loop-print_all es rounds (set_setting e c) fit (no_policy-tail e es shared)
          (omega arith)))

same_socket :
    (es : List Entry) (c d : Config)
    → c.socket_path ≡ d.socket_path
    → (set_settings es c).socket_path ≡ (set_all es d).socket_path
same_socket [] c d e = e
same_socket (log_path p ∷ es) c d e =
    same_socket es (set_setting (log_path p) c) (set_entry (log_path p) d) e
same_socket (socket_path p ∷ es) c d e =
    same_socket es (set_setting (socket_path p) c) (set_entry (socket_path p) d) refl
same_socket (policy_line p ∷ es) c d e =
    same_socket es (set_setting (policy_line p) c) (set_entry (policy_line p) d) e
same_socket (n_slaves ds ∷ es) c d e =
    same_socket es (set_setting (n_slaves ds) c) (set_entry (n_slaves ds) d) e
same_socket (max_files ds ∷ es) c d e =
    same_socket es (set_setting (max_files ds) c) (set_entry (max_files ds) d) e
same_socket (max_memory ds ∷ es) c d e =
    same_socket es (set_setting (max_memory ds) c) (set_entry (max_memory ds) d) e

-- A file of up to six lines that the server can read and that names no policy is read to its end by
-- both programs, each setting what its lines say, and if their socket paths agreed before they
-- agree afterwards.
pub get_settings-get_config :
    (es : List Entry) (r s : Reader)
    → AllFit es
    → no_policy es ≡ true
    → length es ≤ 6
    → r.config.socket_path ≡ s.config.socket_path
    → (get_settings (some (print_all es)) r
        ≡ ok 0 (record { config = set_settings es r.config; rest = [] }))
      × (get_config (some (print_all es)) s
          ≡ ok 0 (record { config = set_all es s.config; rest = [] }))
      × ((set_settings es r.config).socket_path ≡ (set_all es s.config).socket_path)
unfolding get_settings
get_settings-get_config es r s fit shared few same = (
  setting_loop-print_all es 6 r.config fit shared few,
  get_config-print_all es s fit (omega arith),
  same_socket es r.config s.config same,
)
