-- ===== src/Tests/TransferTests.antt =====
-- Descriptors that move one byte at a time.
use progetto_sol_unipi.Base.{ℕ, ◌<◌, refl, List, Option, some, [], ◌∷◌, ◌++◌, arith, length, take}
use progetto_sol_unipi.Base.Command.{Cmd, ok, Returns, returns}
use progetto_sol_unipi.Transfer.Whole.{Delivered, Accepted}

abbrev Bytes : Type 0
Bytes = List ℕ

abbrev all_bytes : Bytes → List ℕ
all_bytes bytes = bytes

abbrev read_byte : ℕ → Cmd Bytes (Option (List ℕ))
read_byte n [] = ok (some []) []
read_byte n (x ∷ xs) = ok (some (x ∷ [])) xs

abbrev write_byte : List ℕ → Cmd Bytes (Option ℕ)
write_byte bytes out = ok (some 1) (out ++ take 1 bytes)

read_byte-Delivered :
    (n : ℕ) (s : Bytes)
    → 0 < n
    → 0 < length (all_bytes s)
    → Returns (Delivered all_bytes n s) (read_byte n s)
read_byte-Delivered n [] h h' = absurd (omega arith)
read_byte-Delivered n (x ∷ xs) h h' = returns (record {
  bytes = x ∷ [];
  result = refl;
  progress = omega arith;
  bounded = omega arith;
  order = refl;
})

write_byte-Accepted :
    (bytes : List ℕ) (s : Bytes)
    → 0 < length bytes
    → Returns (Accepted all_bytes bytes s) (write_byte bytes s)
write_byte-Accepted bytes s h =
    returns (record { count = 1; result = refl; progress = omega arith; bounded = h; order = refl })
