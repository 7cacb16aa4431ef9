-- ===== src/Protocol.antt =====
-- prot.c at the level of bytes, over the calls `send`, `recv`, `read` and `write` of the system.
pub mod RoundTrip
use progetto_sol_unipi.Base.{
  ℕ, ◌+◌, ◌-◌, ◌^◌, Bool, true, false, not, List, Option, none, some, [], ◌∷◌, ◌++◌, ◌==◌,
  if◌then◌else◌, length,
}
use progetto_sol_unipi.Base.Command.{Cmd, exit, pure, ◌>>=◌}
use progetto_sol_unipi.Transfer.{readn, writen, drop}

-- How the machine holds an `unsigned long` in memory: its bytes, and the number that bytes stand
-- for.
pub record Machine : Type 0 where
  pub encode : ℕ → List ℕ
  pub decode : List ℕ → ℕ

-- The calls on a descriptor whose state is in `S`: none is the answer -1.
pub record Socket (S : Type 0) : Type 0 where
  pub send : List ℕ → Cmd S (Option ℕ)
  pub recv : ℕ → Cmd S (Option (List ℕ))
  pub read : ℕ → Cmd S (Option (List ℕ))
  pub write : List ℕ → Cmd S (Option ℕ)

module _ {S : Type 0} (machine : Machine) (socket : Socket S) where
  -- -1 is none.
  unfoldable pub send_number : ℕ → Cmd S (Option ℕ)
  send_number number = socket.send (machine.encode number)

  -- `before` is what stands in the variable `msg`, which is not initialised; the bytes that arrive
  -- overwrite the first of it. The answer is 0 on an error.
  unfoldable pub recv_number : List ℕ → Cmd S ℕ
  recv_number before = do
    bytes ← socket.recv 8
    elim bytes [ none ↦ pure 0 | some b ↦ pure (machine.decode (b ++ drop (length b) before)) ]

  -- True for the answer 0, false for -1.
  unfoldable pub send_message : List ℕ → Cmd S Bool
  send_message message = do
    err ← send_number (length message)
    elim err [
      | none ↦ (λ _. exit)
      | some _ ↦ (do
        wrote_bytes ← writen socket.write message
        elim wrote_bytes [ none ↦ pure false | some n ↦ pure (n == length message) ])
    ]

  -- The buffer is one byte longer than the message, and zero.
  unfoldable pub recv_message : List ℕ → Cmd S (Option (List ℕ))
  recv_message before = do
    msg_size ← recv_number before
    if msg_size == 2 ^ 64 - 1 then pure none else do
      byte_read ← readn socket.read msg_size
      elim byte_read [
        | none ↦ pure none
        | some b ↦ (if length b == msg_size then pure (some (b ++ 0 ∷ [])) else pure none)
      ]
