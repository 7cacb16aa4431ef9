-- ===== src/Transfer.antt =====
-- `readn` and `writen` of utils.c, over the calls `read` and `write` of the system.
pub mod Whole
use progetto_sol_unipi.Base.{
  ℕ, zero, suc, ◌+◌, ◌-◌, List, Option, none, some, [], ◌∷◌, ◌++◌, ◌==◌, if◌then◌else◌, length,
}
use progetto_sol_unipi.Base.Command.{Cmd, out_of_fuel, pure, ◌>>=◌}

-- `read fd ptr n` and `write fd ptr n` answer with the bytes read and with the number of bytes
-- written, or none for -1; `S` is the state of the descriptor.
module _ {S : Type 0} (read : ℕ → Cmd S (Option (List ℕ))) where
  -- The loop of `readn`: what it has read when it ends, none for an error at once.
  unfoldable pub read_loop : ℕ → ℕ → (nleft : ℕ) → List ℕ → Cmd S (Option (List ℕ))
  read_loop zero n nleft got = λ _. out_of_fuel
  read_loop (suc rounds) n nleft got = if nleft == 0 then pure (some got) else do
    nread ← read nleft
    elim nread [
      | none ↦ (if nleft == n then pure none else pure (some got))
      | some bytes ↦
          (if length bytes == 0
            then pure (some got)
            else read_loop rounds n (nleft - length bytes) (got ++ bytes))
    ]

  unfoldable pub readn : ℕ → Cmd S (Option (List ℕ))
  readn n = read_loop (n + 1) n n []

abbrev pub drop : ℕ → List ℕ → List ℕ
drop zero xs = xs
drop (suc n) [] = []
drop (suc n) (x ∷ xs) = drop n xs

module _ {S : Type 0} (write : List ℕ → Cmd S (Option ℕ)) where
  -- The loop of `writen` with the bytes that are left.
  unfoldable pub write_bytes : ℕ → (n : ℕ) → List ℕ → Cmd S (Option ℕ)
  write_bytes zero n left = λ _. out_of_fuel
  write_bytes (suc rounds) n left = if length left == 0 then pure (some n) else do
    nwritten ← write left
    elim nwritten [
      | none ↦ (if length left == n then pure none else pure (some (n - length left)))
      | some k ↦
          (if k == 0 then pure (some (n - length left)) else write_bytes rounds n (drop k left))
    ]

  unfoldable pub writen : List ℕ → Cmd S (Option ℕ)
  writen bytes = write_bytes (length bytes + 1) (length bytes) bytes
