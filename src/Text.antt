-- ===== src/Text.antt =====
-- Functions of the C library on text, as the program uses them: `fgets`, `fscanf` and `strtok_r`.
use progetto_sol_unipi.Base.{
  ℕ, zero, suc, ◌+◌, ◌-◌, ◌*◌, ◌^◌, Bool, true, false, not, ◌&&◌, ◌||◌, List, Option, none, some,
  [], ◌∷◌, ◌==◌, ltb, if◌then◌else◌,
}

-- A stream is what is left of the text of a file.
abbrev pub Stream : Type 0
Stream = List ℕ

-- `n` characters at most, up to and with the first newline.
abbrev pub line : ℕ → Stream → List ℕ × Stream
line zero s = ([], s)
line (suc n) [] = ([], [])
line (suc n) (c ∷ s) =
    let rest = line n s in if c == b'\n' then (c ∷ [], s) else (c ∷ rest.0, rest.1)

-- `fgets` into a buffer of `n + 1` characters: none at the end of the file.
abbrev pub fgets : ℕ → Stream → Option (List ℕ) × Stream
fgets n [] = (none, [])
fgets n (c ∷ s) = let (read, rest) = line n (c ∷ s) in (some read, rest)

abbrev pub is_space : ℕ → Bool
is_space c = (ltb 8 c && ltb c 14) || c == 32

abbrev pub skip_space : Stream → Stream
skip_space [] = []
skip_space (c ∷ s) = if is_space c then skip_space s else c ∷ s

abbrev pub is_digit : ℕ → Bool
is_digit c = ltb 47 c && ltb c 58

-- The number of the digits at the front, behind `n`, and the rest.
abbrev pub digits : ℕ → Stream → ℕ × Stream
digits n [] = (n, [])
digits n (c ∷ s) = if is_digit c then digits (n * 10 + (c - 48)) s else (n, c ∷ s)

-- What `fscanf` comes to at `%u` or `%lu`: the end of the file, no number, or the number that
-- `strtoul` makes of it.
pub data Scanned : Type 0 where
  end_of_file : Scanned
  no_match : Stream → Scanned
  matched : ℕ → Stream → Scanned

-- `strtoul` answers the greatest number if the value is not below 2 ^ 64, and negates by the
-- modulus.
abbrev pub strtoul : Bool → ℕ → ℕ
strtoul negative n =
    if not (ltb n (2 ^ 64)) then 2 ^ 64 - 1 else if negative && not (n == 0) then 2 ^ 64 - n else n

abbrev pub scan_digits : Bool → Stream → Scanned
scan_digits negative [] = no_match []
scan_digits negative (c ∷ s) =
    if is_digit c
    then (let (n, rest) = digits 0 (c ∷ s) in matched (strtoul negative n) rest)
    else no_match (c ∷ s)

abbrev pub scan_sign : Stream → Scanned
scan_sign [] = end_of_file
scan_sign (c ∷ s) =
    if c == b'-'
    then scan_digits true s
    else if c == b'+'
    then scan_digits false s
    else scan_digits false (c ∷ s)

-- `fscanf` with `%u` or `%lu`, the space that follows in the format not counted.
abbrev pub scan_number : Stream → Scanned
scan_number s = scan_sign (skip_space s)
