-- ===== src/Config/RoundTrip.antt =====
-- What `get_config` reads of a configuration file.
use progetto_sol_unipi.Base.{
  ℕ, zero, suc, ◌+◌, ◌-◌, ◌*◌, ◌^◌, ◌<◌, ◌≤◌, ◌≡◌, refl, ap, true, false, List, none, some, [], ◌∷◌,
  ◌++◌, arith, ◌==◌, ltb, length,
}
use progetto_sol_unipi.Base.Command.{ok, and_then-ok}
use progetto_sol_unipi.Base.Word.{u32, u64}
use progetto_sol_unipi.Memory.State.{Name}
use progetto_sol_unipi.Memory.Names.{strncmp_eq}
use progetto_sol_unipi.Text.{
  Stream, line, fgets, is_space, skip_space, is_digit, digits, strtoul, matched, scan_number,
}
use progetto_sol_unipi.Config.{
  Config, Reader, scan_flag, scan_line, scan_value, scan_memory, choose_policy, read_entry,
  config_loop, get_config, max_path,
}
use progetto_sol_unipi.Config.Entry.{
  Entry, log_path, socket_path, policy_line, n_slaves, max_files, max_memory, newline, tag_of, body,
  print_all, value, all_digits, no_newline, IsNumber, Fits, AllFit, set_entry, set_all,
}

line_lem :
    (p rest : Name) (n : ℕ)
    → no_newline p ≡ true
    → length p < n
    → line n (p ++ newline ++ rest) ≡ (p ++ newline, rest)
line_lem p rest zero h few = absurd (omega arith)
line_lem [] rest (suc n) h few = refl
line_lem (c ∷ p) rest (suc n) h few =
    let ih = line_lem p rest n (ground arith) (omega arith) in ground arith

pub fgets_lem :
    (p rest : Name) (n : ℕ)
    → no_newline p ≡ true
    → length p < n
    → fgets n (p ++ newline ++ rest) ≡ (some (p ++ newline), rest)
fgets_lem [] rest n h few = rw (line_lem [] rest n h few)
fgets_lem (c ∷ p) rest n h few = rw (line_lem (c ∷ p) rest n h few)

digits_lem :
    (ds rest : Name) (n : ℕ)
    → all_digits ds ≡ true
    → digits n (ds ++ newline ++ rest) ≡ (value n ds, newline ++ rest)
digits_lem [] rest n h = refl
digits_lem (c ∷ ds) rest n h =
    let here : is_digit c ≡ true = ground arith in
    rw here (digits_lem ds rest (n * 10 + (c - 48)) (ground arith))

strtoul_lem : (n : ℕ) → n < 2 ^ 64 → strtoul false n ≡ n
strtoul_lem n h = let fits : ltb n (2 ^ 64) ≡ true = ground arith in rw fits refl

scan_number_lem :
    (ds rest : Name)
    → IsNumber (2 ^ 64) ds
    → scan_number (ds ++ newline ++ rest) ≡ matched (value 0 ds) (newline ++ rest)
scan_number_lem [] rest h = absurd (omega arith)
scan_number_lem (c ∷ ds) rest (some_digits, h, small) =
    let here : is_digit c ≡ true = ground arith in
    let no_space : is_space c ≡ false = ground arith in
    let no_minus : (c == b'-') ≡ false = ground arith in
    let no_plus : (c == b'+') ≡ false = ground arith in
    rw (no_space) (
      rw (no_minus) (
        rw no_plus (
          rw here (
            rw (digits_lem ds rest (0 + (c - 48)) (ground arith))
              (ap (λ n. matched n (newline ++ rest)) (strtoul_lem _ small))))))

pub scan_value_lem :
    (ds rest : Name) (f : ℕ → Config → Config) (c : Config)
    → IsNumber (2 ^ 64) ds
    → skip_space rest ≡ rest
    → scan_value f (record { config = c; rest = ds ++ newline ++ rest })
      ≡ ok none (record { config = f (value 0 ds) c; rest = rest })
unfolding scan_value
scan_value_lem ds rest f c h stays = rw (scan_number_lem ds rest h, scan_value) (rw stays refl)

scan_line_lem :
    (p rest : Name) (f : Name → Config → Config) (c : Config)
    → no_newline p ≡ true
    → length p < max_path - 1
    → scan_line f (record { config = c; rest = p ++ newline ++ rest })
      ≡ ok none (record { config = f (p ++ newline) c; rest = rest })
unfolding scan_line
scan_line_lem p rest f c h few =
    let reads = fgets_lem p rest (max_path - 1) h few in
    rw (reads, scan_line)
      (ap (λ s. ok none (record { config = f (p ++ newline) c; rest = s })) (ap (λ r. r.1) reads))

read_entry_lem :
    (e : Entry) (rest : Name) (c : Config)
    → Fits e
    → skip_space rest ≡ rest
    → read_entry (tag_of e) (record { config = c; rest = body e ++ newline ++ rest })
      ≡ ok none (record { config = set_entry e c; rest = rest })
unfolding read_entry choose_policy scan_memory strncmp_eq
read_entry_lem (log_path p) rest c (h, few) stays =
    scan_line_lem p rest (λ text c. record c { log_path = text }) c h few
read_entry_lem (socket_path p) rest c (h, few) stays =
    scan_line_lem p rest (λ text c. record c { socket_path = text }) c h few
read_entry_lem (policy_line p) rest c (h, few) stays = scan_line_lem p rest choose_policy c h few
read_entry_lem (n_slaves ds) rest c (some_digits, h, small) stays =
    rw
      (scan_value_lem ds rest (λ n c. record c { n_slaves = u32 n }) c (some_digits, h, omega arith)
        stays)
      (ap (λ n. ok none (record { config = record c { n_slaves = n }; rest = rest }))
        (let small : u32 (value 0 ds) ≡ value 0 ds = omega arith in small))
read_entry_lem (max_files ds) rest c (some_digits, h, small) stays =
    rw
      (scan_value_lem ds rest (λ n c. record c { max_files = u32 n }) c
        (some_digits, h, omega arith) stays)
      (ap (λ n. ok none (record { config = record c { max_files = n }; rest = rest }))
        (let small : u32 (value 0 ds) ≡ value 0 ds = omega arith in small))
read_entry_lem (max_memory ds) rest c (some_digits, h, small) stays =
    rw
      (scan_value_lem ds rest (λ n c. record c { max_memory = n }) c (some_digits, h, omega arith)
        stays)
      (ap (λ n. ok none (record { config = record c { max_memory = n }; rest = rest }))
        (let small : u64 (value 0 ds * 1000000) ≡ value 0 ds * 1000000 = omega arith in small))

pub skip_space-print_all : (es : List Entry) → skip_space (print_all es) ≡ print_all es
skip_space-print_all [] = refl
skip_space-print_all (log_path p ∷ es) = refl
skip_space-print_all (socket_path p ∷ es) = refl
skip_space-print_all (policy_line p ∷ es) = refl
skip_space-print_all (n_slaves ds ∷ es) = refl
skip_space-print_all (max_files ds ∷ es) = refl
skip_space-print_all (max_memory ds ∷ es) = refl

pub scan_flag_lem :
    (e : Entry) (rest : Stream) (c : Config)
    → scan_flag (record { config = c; rest = tag_of e ++ rest })
      ≡ ok (some (tag_of e)) (record { config = c; rest = rest })
unfolding scan_flag
scan_flag_lem (log_path p) rest c = refl
scan_flag_lem (socket_path p) rest c = refl
scan_flag_lem (policy_line p) rest c = refl
scan_flag_lem (n_slaves ds) rest c = refl
scan_flag_lem (max_files ds) rest c = refl
scan_flag_lem (max_memory ds) rest c = refl

pub scan_flag-end :
    (c : Config)
    → scan_flag (record { config = c; rest = [] }) ≡ ok none (record { config = c; rest = [] })
unfolding scan_flag
scan_flag-end c = refl

config_loop-print_all :
    (es : List Entry) (rounds : ℕ) (c : Config)
    → AllFit es
    → length es ≤ rounds
    → config_loop rounds (record { config = c; rest = print_all es })
      ≡ ok 0 (record { config = set_all es c; rest = [] })
unfolding config_loop
config_loop-print_all [] zero c fit few = refl
config_loop-print_all [] (suc rounds) c fit few = and_then-ok _ _ (scan_flag-end c) refl
config_loop-print_all (e ∷ es) zero c fit few = absurd (omega arith)
config_loop-print_all (e ∷ es) (suc rounds) c (fits, fit) few =
    and_then-ok _ _ (scan_flag_lem e (body e ++ newline ++ print_all es) c) (
      and_then-ok _ _ (read_entry_lem e (print_all es) c fits (skip_space-print_all es))
        (config_loop-print_all es rounds (set_entry e c) fit (omega arith)))

-- A configuration file of up to seven lines, each an entry whose text fits in the buffer with its
-- newline or whose number is in range, is read to its end with the answer 0, and sets exactly what
-- its lines say, the later line winning: a text with its newline behind it, `[MMB]` in millions of
-- bytes.
pub get_config-print_all :
    (es : List Entry) (r : Reader)
    → AllFit es
    → length es ≤ 7
    → get_config (some (print_all es)) r ≡ ok 0 (record { config = set_all es r.config; rest = [] })
unfolding get_config
get_config-print_all es r fit few = config_loop-print_all es 7 r.config fit few
