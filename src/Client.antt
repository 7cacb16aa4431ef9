-- ===== src/Client.antt =====
-- clientutils.c: the requests of a client, over the socket `serverfd` at the level of whole numbers
-- and messages.
pub mod Agreement
pub mod Connection
pub mod Conversation
pub mod Exchange
pub mod Reading
use progetto_sol_unipi.Base.{
  ℕ, zero, suc, ◌+◌, ◌^◌, Bool, true, false, not, ◌&&◌, ◌||◌, List, Option, none, some, [], ◌∷◌,
  ◌++◌, ◌==◌, ltb, if◌then◌else◌, length, take,
}
use progetto_sol_unipi.Base.Command.{
  Cmd, ok, fault, exit, out_of_fuel, Run, pure, gets, modify, ◌>>=◌, ◌>>◌,
}
use progetto_sol_unipi.Base.Word.{u32, minus_one32}
use progetto_sol_unipi.Memory.State.{Name}
use progetto_sol_unipi.Server.Wire.{Packet, number, message, broken}
use progetto_sol_unipi.Server.Worker.{
  open_file, close_file, read_file, write_file, readn_file, append_file, remove_file,
  close_connection, status_ok, not_ok, continue,
}

-- `saved` are the files that `readNFiles` writes to its directory: the index, and the contents.
pub record Client : Type 0 where
  pub connected : Bool
  pub incoming : List Packet
  pub sent : List Packet
  pub errno : ℕ
  pub saved : List (ℕ × List ℕ)

abbrev pub send : Packet → Cmd Client Bool
send p c =
    if c.connected then ok true (record c { sent = c.sent ++ p ∷ []; errno = 0 }) else ok false c

-- At the end of the stream `recv_number` answers a variable that is not initialised: a fault.
abbrev pub next_number : Client → List Packet → Run Client ℕ
next_number c [] = fault
next_number c (number n ∷ rest) = ok n (record c { incoming = rest })
next_number c (message m ∷ rest) = fault
next_number c (broken ∷ rest) = fault

abbrev pub recv_number : Cmd Client ℕ
recv_number c = next_number c c.incoming

abbrev pub next_message : Client → List Packet → Run Client (Option (List ℕ))
next_message c [] = ok (some (0 ∷ [])) c
next_message c (number n ∷ rest) = fault
next_message c (message m ∷ rest) = ok (some (m ++ 0 ∷ [])) (record c { incoming = rest })
next_message c (broken ∷ rest) = ok none (record c { incoming = rest })

abbrev pub recv_message : Cmd Client (Option (List ℕ))
recv_message c = next_message c c.incoming

abbrev pub must : Cmd Client Bool → Cmd Client (Unit {0})
must m = do done ← m; if done then pure tt else (λ _. exit)

-- The status; -1 for a success with an error number.
unfoldable pub get_resp : Cmd Client ℕ
get_resp = do
  modify λ c. record c { errno = 0 }
  status ← recv_number
  error ← recv_number
  modify λ c. record c { errno = error }
  if (u32 status == status_ok) && not (u32 error == 0) then pure minus_one32 else pure (u32 status)

-- `can_continue_function`: a number other than `CONTINUE` ends the request with the response.
unfoldable pub when_can_continue : Cmd Client ℕ → Cmd Client ℕ
when_can_continue k = do
  can_continue ← recv_number
  if u32 can_continue == continue then k else get_resp

-- The file name goes with its closing NUL.
unfoldable pub send_req : ℕ → Name → ℕ → Cmd Client (Unit {0})
send_req op filename flags = do
  must (send (number op))
  must (send (message (filename ++ 0 ∷ [])))
  must (send (number flags))

-- `removeFile`: 0 for a null name.
unfoldable pub remove_request : Option Name → Cmd Client ℕ
remove_request none = pure 0
remove_request (some pathname) = do send_req remove_file pathname 0; get_resp

-- `openFile`.
unfoldable pub open_request : Name → ℕ → Cmd Client ℕ
open_request pathname flags = do send_req open_file pathname flags; get_resp

-- `closeFile`.
unfoldable pub close_request : Name → Cmd Client ℕ
close_request pathname = do send_req close_file pathname 0; get_resp

-- `closeConnection`; the name is the text "Close connection".
unfoldable pub close_connection_request : Name → Cmd Client ℕ
close_connection_request text = do
  send_req close_connection text 0
  resp ← get_resp
  if resp == status_ok
      then (modify (λ c. record c { connected = false }) >> pure resp)
      else pure not_ok

-- `readFile`: the status, and the buffer and the size that have been stored.
unfoldable pub read_request : Name → Cmd Client (ℕ × Option (List ℕ × ℕ))
read_request pathname = do
  send_req read_file pathname 0
  can_continue ← recv_number
  if not (u32 can_continue == continue) then (get_resp >>= λ status. pure (status, none)) else do
    can_continue ← recv_number
    if not (u32 can_continue == continue) then (get_resp >>= λ status. pure (status, none)) else do
      file_size ← recv_number
      file_cont ← recv_message
      elim file_cont [
        | none ↦ pure (minus_one32, none)
        | some m ↦ (get_resp >>= λ status. pure (status, some (m, file_size)))
      ]

-- `writeFile`, of a file with the given contents; none if it cannot be read. Of an empty file the
-- loop of `fread` never meets the end.
unfoldable pub write_request : Name → Option (List ℕ) → Cmd Client ℕ
write_request pathname file = do
  send_req write_file pathname 0
  when_can_continue (elim file [
    | none ↦ pure minus_one32
    | some file_cont ↦ do
      done ← send (number (length file_cont))
      if not done
          then pure minus_one32
          else when_can_continue (
              if length file_cont == 0 then (λ _. out_of_fuel) else do
                done ← send (message file_cont)
                if not done then (λ _. exit) else when_can_continue get_resp)
  ])

-- `appendToFile`; `size` bytes of the buffer are read.
unfoldable pub append_request : Name → List ℕ → ℕ → Cmd Client ℕ
append_request pathname buf size = do
  send_req append_file pathname 0
  when_can_continue (do
    done ← send (number size)
    if not done
        then pure minus_one32
        else if ltb (length buf) size
        then (λ _. fault)
        else do done ← send (message (take size buf)); if not done then (λ _. exit) else get_resp)

-- The files that arrive: a file of size 0 is not saved.
unfoldable pub receive_files : ℕ → ℕ → Bool → Cmd Client (Unit {0})
receive_files zero i has_dirname = pure tt
receive_files (suc n) i has_dirname = do
  buffer ← recv_message
  file_size ← recv_number
  (if (file_size == 0) || not has_dirname then pure tt else elim buffer [
    | none ↦ (λ _. fault)
    | some m ↦ modify (λ c. record c { saved = c.saved ++ (i, take file_size m) ∷ [] })
  ])
  receive_files n (i + 1) has_dirname

-- `readNFiles` for a number that is not negative, with the text "readNString" as its name. An array
-- with a negative number of elements is a fault.
unfoldable pub read_n_request : Name → ℕ → Bool → Cmd Client ℕ
read_n_request text n has_dirname = do
  send_req readn_file text n
  real_n ← recv_number
  if u32 real_n == 0
      then pure not_ok
      else if not (ltb (u32 real_n) (2 ^ 31))
      then (λ _. fault)
      else when_can_continue (do receive_files (u32 real_n) 0 has_dirname; get_resp)
