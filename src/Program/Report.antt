-- ===== src/Program/Report.antt =====
-- What client.c prints of a request: `apiCall`, and `error_to_str` of prot.c. A line stands for the
-- text that is printed, and holds what is put into it; the names of the requests stand for the
-- strings that `isOP` compares.
use progetto_sol_unipi.Base.{ℕ, Bool, List, Option, [], ◌∷◌, ◌==◌, if◌then◌else◌}
use progetto_sol_unipi.Memory.State.{Name, enoent, eexist, e2big}
use progetto_sol_unipi.Server.Worker.{eacces, efault, status_ok}

-- `OPEN`, `WRITE`, `READ`, `READN` and `REMOVE` of headers/clientutils.h.
pub data OpType : Type 0 where
  op_open op_write op_read op_readn op_remove : OpType

-- The strings of `error_to_str`; at any other number it also calls `perror`.
pub data Error : Type 0 where
  no_file file_exists buffer_not_received not_open not_enough_files file_too_big uncommented : Error

-- A request on a file; the bytes of a write; the number of files of a `readNFiles`; an error.
pub data Line : Type 0 where
  good bad : OpType → Option Name → Line
  wrote : Option Name → ℕ → Line
  files : ℕ → Line
  error : Error → Line

abbrev pub enodata : ℕ
enodata = 61

unfoldable pub error_to_str : ℕ → Error
error_to_str err =
    if err == enoent
    then no_file
    else if err == eexist
    then file_exists
    else if err == efault
    then buffer_not_received
    else if err == eacces
    then not_open
    else if err == enodata
    then not_enough_files
    else if err == e2big
    then file_too_big
    else uncommented

-- The line of a success.
abbrev pub success : OpType → Option Name → ℕ → Line
success op_open filename n = good op_open filename
success op_write filename n = wrote filename n
success op_read filename n = good op_read filename
success op_readn filename n = files n
success op_remove filename n = good op_remove filename

-- `err` is `errno` at the call. The value of `apiCall` is 0 and not used.
unfoldable pub report : (err ret : ℕ) → OpType → Option Name → (n : ℕ) → Bool → List Line
report err ret op_type filename n do_print =
    if do_print
    then (if ret == status_ok
        then success op_type filename n ∷ []
        else bad op_type filename ∷ error (error_to_str err) ∷ [])
    else []
