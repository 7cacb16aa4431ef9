-- ===== src/Tests/ProtocolTests.antt =====
-- Messages and numbers over a connection that delivers messages byte by byte.
use progetto_sol_unipi.Base.{
  ℕ, zero, suc, ◌+◌, ◌*◌, ◌/◌, ◌%◌, List, Option, some, [], ◌∷◌, ◌++◌, length, take,
}
use progetto_sol_unipi.Base.Command.{Cmd, ok}
use progetto_sol_unipi.Transfer.{drop}
use progetto_sol_unipi.Protocol.{Machine, Socket}

-- The least byte first.
abbrev little_endian : ℕ → ℕ → List ℕ
little_endian zero n = []
little_endian (suc k) n = n % 256 ∷ little_endian k (n / 256)

abbrev read_little : List ℕ → ℕ
read_little [] = 0
read_little (b ∷ bs) = b + 256 * read_little bs

abbrev limit : ℕ → ℕ
limit zero = 1
limit (suc k) = 256 * limit k

abbrev machine : Machine
machine = record { encode = little_endian 8; decode = read_little }

abbrev Bytes : Type 0
Bytes = List ℕ

abbrev in_flight : Bytes → List ℕ
in_flight bytes = bytes

abbrev one_byte : ℕ → Cmd Bytes (Option (List ℕ))
one_byte n [] = ok (some []) []
one_byte n (x ∷ xs) = ok (some (x ∷ [])) xs

abbrev socket : Socket Bytes
socket = record {
  send = λ b s. ok (some (length b)) (s ++ b);
  recv = λ n s. ok (some (take n s)) (drop n s);
  read = one_byte;
  write = λ b s. ok (some 1) (s ++ take 1 b);
}
