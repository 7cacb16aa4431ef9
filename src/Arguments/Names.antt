-- ===== src/Arguments/Names.antt =====
-- The names of an option with a list.
use progetto_sol_unipi.Base.{
  ℕ, zero, suc, ◌+◌, ◌<◌, ◌≡◌, refl, ap, arith, Bool, true, false, List, none, some, [], ◌∷◌, ◌++◌,
  ◌==◌, ltb, if◌then◌else◌, length, length-append,
}
use progetto_sol_unipi.Base.Command.{ok, and_then-ok}
use progetto_sol_unipi.Memory.State.{Name}
use progetto_sol_unipi.Arguments.{
  Parse, Action, token, strtok, more_names, parse_names, parse_list, init_action, add_to_tail,
  max_readable_file,
}

-- Names with commas between them.
abbrev pub join : Name → List Name → Name
join name [] = name
join name (next ∷ names) = name ++ b',' ∷ join next names

abbrev pub no_comma : Name → Bool
no_comma [] = true
no_comma (c ∷ s) = if c == b',' then false else no_comma s

-- A name that is not empty and has no comma.
abbrev pub IsName : Name → Type 0
IsName name = (0 < length name) × (no_comma name ≡ true)

abbrev pub AllNames : List Name → Type 0
AllNames [] = Unit {0}
AllNames (name ∷ names) = IsName name × AllNames names

-- The copies of the names, the first being the i-th.
abbrev pub copies : (ℕ → Name) → ℕ → List Name → List Name
copies behind i [] = []
copies behind i (name ∷ names) = (name ++ behind i) ∷ copies behind (i + 1) names

token_lem : (s rest : Name) → no_comma s ≡ true → token (s ++ b',' ∷ rest) ≡ (s, rest)
token_lem [] rest h = refl
token_lem (c ∷ s) rest h = let ih = token_lem s rest (ground arith) in ground arith

token_end : (s : Name) → no_comma s ≡ true → token s ≡ (s, [])
token_end [] h = refl
token_end (c ∷ s) h = let ih = token_end s (ground arith) in ground arith

abbrev join_all : List Name → Name
join_all [] = []
join_all (next ∷ names) = join next names

strtok-join :
    (name : Name) (names : List Name)
    → IsName name
    → strtok (join name names) ≡ some (name, join_all names)
strtok-join [] names (h, clean) = absurd (omega arith)
strtok-join (c ∷ s) [] (h, clean) =
    let first : (c == b',') ≡ false = ground arith in rw first (ap some (token_end (c ∷ s) clean))
strtok-join (c ∷ s) (next ∷ names) (h, clean) =
    let first : (c == b',') ≡ false = ground arith in
    rw first (ap some (token_lem (c ∷ s) (join next names) clean))

length-join :
    (name : Name) (names : List Name)
    → 0 < length name
    → length (join_all names) < length (join name names)
length-join name [] h = h
length-join name (next ∷ names) h = omega (arith, length-append name (b',' ∷ join next names))

more_names-join_all :
    (behind : ℕ → Name) (names : List Name) (fuel counter : ℕ) (p : Parse)
    → AllNames names
    → counter + length names < max_readable_file
    → length (join_all names) < fuel
    → more_names behind fuel counter (join_all names) p ≡ ok (copies behind counter names) p
unfolding more_names
more_names-join_all behind names zero counter p all few enough = absurd (omega arith)
more_names-join_all behind [] (suc fuel) counter p all few enough =
    let fits : ltb counter max_readable_file ≡ true = ground arith in rw fits refl
more_names-join_all behind (name ∷ names) (suc fuel) counter p (is_name, all) few enough =
    let fits : ltb counter max_readable_file ≡ true = ground arith in
    rw fits (
      rw (strtok-join name names is_name) (
        and_then-ok _ _
          (more_names-join_all behind names fuel (counter + 1) p all (omega arith)
            (omega (arith, length-join name names is_name.0)))
          refl))

-- The names of an option, fewer than 1024.
parse_names-join :
    (behind : ℕ → Name) (name : Name) (names : List Name) (p : Parse)
    → AllNames (name ∷ names)
    → length (name ∷ names) < max_readable_file
    → parse_names behind (join name names) p ≡ ok (copies behind 0 (name ∷ names)) p
unfolding parse_names
parse_names-join behind name names p (is_name, all) few =
    rw (strtok-join name names is_name, parse_names)
      (and_then-ok _ _
        (more_names-join_all behind names (length (join_all names) + 1) 1 p all (omega arith)
          (omega arith))
        refl)

length-copies :
    (behind : ℕ → Name) (i : ℕ) (names : List Name) → length (copies behind i names) ≡ length names
length-copies behind i [] = refl
length-copies behind i (name ∷ names) = ap suc (length-copies behind (i + 1) names)

-- The action that a list of names makes.
abbrev pub named : ℕ → List Name → Action
named op names = record { op = op; single_arg = none; args = some names; n = 0 }

-- Of names with commas between them, not empty, without commas and fewer than 1023, an option with
-- a list makes one action, with these names in their order, each followed by what stands behind its
-- copy up to the first NUL. It comes behind the actions of the options before, and nothing else
-- changes; the copies of the names and the null pointer behind them stay within their array.
pub parse_list-join :
    (behind : ℕ → Name) (op : ℕ) (name : Name) (names : List Name) (p : Parse)
    → AllNames (name ∷ names)
    → length (name ∷ names) + 1 < max_readable_file
    → parse_list behind op (join name names) p
      ≡ ok tt (record p { head = add_to_tail p.head (named op (copies behind 0 (name ∷ names))) })
unfolding parse_list init_action
parse_list-join behind op name names p all few =
    let fits : ltb (length (copies behind 0 (name ∷ names)) + 1) max_readable_file ≡ true =
      let same = length-copies behind 0 (name ∷ names) in ground arith in
    and_then-ok _ _ (parse_names-join behind name names p all (omega arith)) (rw fits refl)
