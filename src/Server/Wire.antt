-- ===== src/Server/Wire.antt =====
-- What a worker sees of the world: the cache, the socket of the client whose job it serves, and
-- that client's response queue. The functions of prot.c are taken here at the level of whole
-- numbers and messages.
use progetto_sol_unipi.Base.{
  ℕ, Bool, true, false, List, Option, none, some, [], ◌∷◌, ◌++◌, if◌then◌else◌,
}
use progetto_sol_unipi.Base.Command.{Run, Cmd, ok, fault, exit, out_of_fuel, ◌>>=◌}
use progetto_sol_unipi.Memory.State.{Server}

-- `broken` is a message of which the connection delivers a part only.
pub data Packet : Type 0 where
  number : ℕ → Packet
  message : List ℕ → Packet
  broken : Packet

-- `err` and `status_request` of a finished job.
pub record Response : Type 0 where
  pub err : ℕ
  pub status_request : ℕ

-- `connected` is false when `send` fails; `sent` is in the order of sending, `responses` in the
-- order of pushing, each as it stands when it is pushed.
pub record World : Type 0 where
  pub server : Server
  pub connected : Bool
  pub incoming : List Packet
  pub sent : List Packet
  pub responses : List Response

module _ {A : Type 0} where
  abbrev pub lift_run : World → Run Server A → Run World A
  lift_run w (ok a s) = ok a (record w { server = s })
  lift_run w fault = fault
  lift_run w exit = exit
  lift_run w out_of_fuel = out_of_fuel

  -- A function of memory.c.
  abbrev pub lift : Cmd Server A → Cmd World A
  lift m w = lift_run w (m w.server)

abbrev pub send : Packet → Cmd World Bool
send p w = if w.connected then ok true (record w { sent = w.sent ++ p ∷ [] }) else ok false w

-- `send_number`: true unless it answers -1.
abbrev pub send_number : ℕ → Cmd World Bool
send_number n = send (number n)

-- `send_message` leaves the process if it cannot send the length.
abbrev pub send_message : List ℕ → Cmd World Bool
send_message m w =
    if w.connected then ok true (record w { sent = w.sent ++ message m ∷ [] }) else exit

-- `error_handling_minus`.
abbrev pub must : Cmd World Bool → Cmd World (Unit {0})
must m = do done ← m; if done then (λ w. ok tt w) else (λ _. exit)

-- `recv_number` answers 0 on an error; at the end of the stream it answers a variable that is not
-- initialised, which is a fault. A number where a message stands in the stream, or the other
-- way round, is a fault of the protocol.
abbrev pub next_number : World → List Packet → Run World ℕ
next_number w [] = fault
next_number w (number n ∷ rest) = ok n (record w { incoming = rest })
next_number w (message m ∷ rest) = fault
next_number w (broken ∷ rest) = fault

abbrev pub recv_number : Cmd World ℕ
recv_number w = next_number w w.incoming

-- `recv_message`: the buffer, one byte longer than the message and closed by a NUL; none if the
-- message does not arrive whole. Where the length cannot be read, `recv_number` answers 0, and so
-- the buffer is that of an empty message.
abbrev pub next_message : World → List Packet → Run World (Option (List ℕ))
next_message w [] = ok (some (0 ∷ [])) w
next_message w (number n ∷ rest) = fault
next_message w (message m ∷ rest) = ok (some (m ++ 0 ∷ [])) (record w { incoming = rest })
next_message w (broken ∷ rest) = ok none (record w { incoming = rest })

abbrev pub recv_message : Cmd World (Option (List ℕ))
recv_message w = next_message w w.incoming
