-- ===== src/Tests/ConfigTests.antt =====
-- A configuration file.
use progetto_sol_unipi.Base.{ℕ, ◌≡◌, ◌++◌, refl, List, some, [], ◌∷◌, arith}
use progetto_sol_unipi.Base.Command.{ok}
use progetto_sol_unipi.Memory.State.{lru}
use progetto_sol_unipi.Config.{
  Reader, scan_flag, scan_line, scan_value, scan_memory, choose_policy, read_entry, config_loop,
  get_config,
}
use progetto_sol_unipi.Config.Client.{scan_path, read_setting, setting_loop, get_settings}
use progetto_sol_unipi.Config.Agreement.{set_settings, get_settings-get_config}
use progetto_sol_unipi.Memory.Names.{strncmp_eq}
use progetto_sol_unipi.Config.Entry.{
  Entry, log_path, socket_path, policy_line, max_files, n_slaves, max_memory, print_all, set_all,
}
use progetto_sol_unipi.Config.RoundTrip.{get_config-print_all}

abbrev entries : List Entry
entries =
    socket_path (b'/' ∷ b's' ∷ [])
    ∷ n_slaves (b'1' ∷ b'2' ∷ [])
    ∷ max_memory (b'3' ∷ [])
    ∷ policy_line (b'F' ∷ b'I' ∷ b'F' ∷ b'O' ∷ [])
    ∷ []

abbrev before : Reader
before = record {
  config = record {
    n_slaves = 0;
    max_memory = 0;
    max_files = 5;
    socket_path = [];
    log_path = [];
    policy = lru;
  };
  rest = [];
}

get_config-print_all_example :
    get_config (some (print_all entries)) before
    ≡ ok 0 (record { config = set_all entries before.config; rest = [] })
get_config-print_all_example =
    get_config-print_all entries before
      (
        (refl, omega arith),
        (
          (omega arith, refl, omega arith),
          ((omega arith, refl, omega arith), ((refl, omega arith), tt)),
        ),
      )
      (omega arith)

abbrev shared : List Entry
shared = socket_path (b'/' ∷ b's' ∷ []) ∷ n_slaves (b'1' ∷ b'2' ∷ []) ∷ max_memory (b'3' ∷ []) ∷ []

get_settings-get_config_example :
    (get_settings (some (print_all shared)) before
      ≡ ok 0 (record { config = set_settings shared before.config; rest = [] }))
    × (get_config (some (print_all shared)) before
        ≡ ok 0 (record { config = set_all shared before.config; rest = [] }))
    × ((set_settings shared before.config).socket_path ≡ (set_all shared before.config).socket_path)
get_settings-get_config_example =
    get_settings-get_config shared before before
      (
        (refl, omega arith),
        ((omega arith, refl, omega arith), ((omega arith, refl, omega arith), tt)),
      )
      refl (omega arith) refl

-- Behind a policy of three letters the client does not find the socket.
lost_socket :
    get_settings
      (some
        (print_all (policy_line (b'L' ∷ b'R' ∷ b'U' ∷ []) ∷ socket_path (b'/' ∷ b's' ∷ []) ∷ [])))
      before
    ≡ ok 0 (record before { rest = [] })
unfolding get_settings setting_loop read_setting scan_flag strncmp_eq
lost_socket = refl

-- The file config.txt of the repository, whose last line has no newline.
abbrev config_txt : List ℕ
config_txt =
    print_all (
      log_path (b'l' ∷ b'o' ∷ b'g' ∷ [])
      ∷ socket_path (b'/' ∷ b't' ∷ b'm' ∷ b'p' ∷ b'/' ∷ b's' ∷ b'o' ∷ b'k' ∷ [])
      ∷ n_slaves (b'1' ∷ [])
      ∷ max_files (b'1' ∷ b'0' ∷ b'0' ∷ b'0' ∷ b'0' ∷ [])
      ∷ max_memory (b'1' ∷ b'2' ∷ b'8' ∷ [])
      ∷ [])
    ++ (b'[' ∷ b'P' ∷ b'C' ∷ b'Y' ∷ b']' ∷ b'L' ∷ b'R' ∷ b'U' ∷ [])

abbrev tmp_sok : List ℕ
tmp_sok = b'/' ∷ b't' ∷ b'm' ∷ b'p' ∷ b'/' ∷ b's' ∷ b'o' ∷ b'k' ∷ b'\n' ∷ []

server_reads :
    get_config (some config_txt) before
    ≡ ok 0 (record {
      config = record {
        n_slaves = 1;
        max_memory = 128000000;
        max_files = 10000;
        socket_path = tmp_sok;
        log_path = b'l' ∷ b'o' ∷ b'g' ∷ b'\n' ∷ [];
        policy = lru;
      };
      rest = [];
    })
unfolding get_config config_loop read_entry scan_flag scan_line scan_value scan_memory choose_policy
    strncmp_eq
server_reads = refl

client_reads :
    get_settings (some config_txt) before
    ≡ ok 0 (record {
      config = record {
        n_slaves = 1;
        max_memory = 128;
        max_files = 10000;
        socket_path = tmp_sok;
        log_path = b'l' ∷ b'o' ∷ b'g' ∷ b'\n' ∷ [];
        policy = lru;
      };
      rest = b'L' ∷ b'R' ∷ b'U' ∷ [];
    })
unfolding get_settings setting_loop read_setting scan_path scan_flag scan_value strncmp_eq
client_reads = refl
