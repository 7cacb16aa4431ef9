-- ===== src/Arguments.antt =====
-- clientutils.c: the list of actions that the client makes of its command line.
pub mod Names
pub mod Keeping
pub mod Order
use progetto_sol_unipi.Base.{
  ℕ, zero, suc, ◌+◌, ◌-◌, ◌*◌, ◌^◌, Bool, true, false, not, ◌&&◌, ◌||◌, List, Option, none, some,
  [], ◌∷◌, ◌++◌, ◌==◌, ltb, if◌then◌else◌, length,
}
use progetto_sol_unipi.Base.Command.{
  Cmd, ok, fault, exit, out_of_fuel, pure, gets, modify, ◌>>=◌, ◌>>◌,
}
use progetto_sol_unipi.Memory.State.{Name, max_name}
use progetto_sol_unipi.Text.{skip_space, digits}
use progetto_sol_unipi.Transfer.{drop}

-- `MAXREADABLEFILE` of headers/clientutils.h.
abbrev pub max_readable_file : ℕ
max_readable_file = 1024

-- `Action`; the list that the field `next` makes is a list of these. `n` is an `int`.
pub record Action : Type 0 where
  pub op : ℕ
  pub single_arg : Option Name
  pub args : Option (List Name)
  pub n : ℕ

-- `head`, and the buffer `w_args` of `MAXNAME` characters.
pub record Parse : Type 0 where
  pub head : List Action
  pub w_args : List ℕ

-- What one call of `getopt` answers: the option, and `optarg`.
pub record Opt : Type 0 where
  pub opt : ℕ
  pub optarg : Name

-- `strtok_r` with ",": the next token, and what is left.
abbrev pub skip_commas : Name → Name
skip_commas [] = []
skip_commas (c ∷ s) = if c == b',' then skip_commas s else c ∷ s

abbrev pub token : Name → Name × Name
token [] = ([], [])
token (c ∷ s) = let rest = token s in if c == b',' then ([], s) else (c ∷ rest.0, rest.1)

abbrev pub first_token : Name → Option (Name × Name)
first_token [] = none
first_token (c ∷ s) = some (token (c ∷ s))

abbrev pub strtok : Name → Option (Name × Name)
strtok s = first_token (skip_commas s)

-- What `n` calls of `strtok_r` leave of the buffer: each puts a NUL at the comma that ends its
-- token. The flag says whether a token has begun.
abbrev pub cut : ℕ → Bool → List ℕ → List ℕ
cut zero in_token s = s
cut (suc n) in_token [] = []
cut (suc n) in_token (c ∷ s) =
    let after = cut n false s in
    let further = cut (suc n) false s in
    let within = cut (suc n) true s in
    if c == 0
    then c ∷ s
    else if c == b','
    then (if in_token then 0 ∷ after else c ∷ further)
    else c ∷ within

-- The C string at the front of a buffer; none if no NUL ends it.
abbrev pub string_in : List ℕ → Option Name
string_in [] = none
string_in (c ∷ s) =
    let rest = string_in s in
    if c == 0 then some [] else elim rest [ none ↦ none | some n ↦ some (c ∷ n) ]

-- `atoi`; a value that does not fit in an `int` is undefined.
abbrev pub signed : Bool → ℕ → Cmd Parse ℕ
signed negative n =
    if negative
    then (if not (ltb (2 ^ 31) n) then pure (if n == 0 then 0 else 2 ^ 32 - n) else (λ _. fault))
    else (if ltb n (2 ^ 31) then pure n else (λ _. fault))

abbrev pub atoi_sign : Name → Cmd Parse ℕ
atoi_sign [] = pure 0
atoi_sign (c ∷ s) =
    if c == b'-'
    then signed true (digits 0 s).0
    else if c == b'+'
    then signed false (digits 0 s).0
    else signed false (digits 0 (c ∷ s)).0

abbrev pub atoi : Name → Cmd Parse ℕ
atoi s = atoi_sign (skip_space s)

-- `initAction`. The array of the copies has `MAXREADABLEFILE` places and is zero; the last write is
-- one place behind the end of the names.
unfoldable pub init_action : Option (List Name) → ℕ → ℕ → Option Name → Cmd Parse Action
init_action none n op single_arg =
    pure (record { op = op; single_arg = single_arg; args = none; n = n })
init_action (some names) n op single_arg =
    if ltb (length names + 1) max_readable_file
    then pure (record { op = op; single_arg = single_arg; args = some names; n = n })
    else (λ _. fault)

unfoldable pub add_to_tail : List Action → Action → List Action
add_to_tail [] new = new ∷ []
add_to_tail (a ∷ actions) new = a ∷ add_to_tail actions new

abbrev pub find_op : ℕ → List Action → Option Action
find_op op [] = none
find_op op (a ∷ actions) = let rest = find_op op actions in if a.op == op then some a else rest

-- `lookup` leaves the process if there is no action at all.
unfoldable pub lookup : {S : Type 0} → List Action → ℕ → Cmd S (Option Action)
lookup [] op = λ _. exit
lookup (a ∷ actions) op = pure (find_op op (a ∷ actions))

abbrev pub add_action : Action → Cmd Parse (Unit {0})
add_action a = modify λ p. record p { head = add_to_tail p.head a }

-- The names of a list. Each is copied without its NUL into memory of `malloc`: `behind i` is what
-- stands behind the copy of the i-th, up to the first NUL. An array of `MAXREADABLEFILE` names
-- takes them and the null pointer that ends them.
module _ (behind : ℕ → Name) where
  unfoldable pub more_names : (fuel counter : ℕ) → Name → Cmd Parse (List Name)
  more_names zero counter rest = λ _. out_of_fuel
  more_names (suc fuel) counter rest =
      if ltb counter max_readable_file
      then (elim (strtok rest) [
        | none ↦ pure []
        | some (save, rest') ↦ (do
          names ← more_names fuel (counter + 1) rest'
          pure ((save ++ behind counter) ∷ names))
      ])
      else (λ _. fault)

  -- `strlen` of the null pointer, where there is no name at all.
  unfoldable pub parse_names : Name → Cmd Parse (List Name)
  parse_names optarg = elim (strtok optarg) [
    | none ↦ (λ _. fault)
    | some (save, rest) ↦ (do
      names ← more_names (length rest + 1) 1 rest
      pure ((save ++ behind 0) ∷ names))
  ]

  unfoldable pub parse_list : ℕ → Name → Cmd Parse (Unit {0})
  parse_list op optarg = do
    names ← parse_names optarg
    new ← init_action (some names) 0 op none
    add_action new

-- `-w`: the buffer is used again for each of these options, and what a longer text has left in it
-- stands behind a shorter one.
unfoldable pub copy_args : Name → Cmd Parse Name
copy_args optarg p =
    if ltb max_name (length optarg)
    then fault
    else let buffer = optarg ++ drop (length optarg) p.w_args in
      elim (string_in buffer) [
        | none ↦ fault
        | some text ↦ ok text (record p { w_args = cut 2 false buffer })
      ]

abbrev pub token_of : Option (Name × Name) → Option Name
token_of none = none
token_of (some (t, _)) = some t

abbrev pub rest_of : Option (Name × Name) → Name
rest_of none = []
rest_of (some (_, rest)) = rest

unfoldable pub parse_w : Name → Cmd Parse (Unit {0})
parse_w optarg = do
  text ← copy_args optarg
  let dirname = strtok text
  w_n ← elim (strtok (rest_of dirname)) [ none ↦ pure 0 | some (num, _) ↦ atoi num ]
  new ← init_action none w_n b'w' (token_of dirname)
  add_action new

unfoldable pub parse_number : ℕ → Name → Cmd Parse (Unit {0})
parse_number op optarg = do n ← atoi optarg; new ← init_action none n op none; add_action new

unfoldable pub parse_single : ℕ → Option Name → Cmd Parse (Unit {0})
parse_single op single_arg = do new ← init_action none 0 op single_arg; add_action new

-- The `switch`; the help is printed, and the errors of `getopt` pass.
unfoldable pub parse_option : (ℕ → Name) → Opt → Cmd Parse (Unit {0})
parse_option behind o =
    if o.opt == b'f'
    then parse_single b'f' (some o.optarg)
    else if o.opt == b'w'
    then parse_w o.optarg
    else if o.opt == b'W'
    then parse_list behind b'W' o.optarg
    else if o.opt == b'r'
    then parse_list behind b'r' o.optarg
    else if o.opt == b'R'
    then parse_number b'R' o.optarg
    else if o.opt == b'd'
    then parse_single b'd' (some o.optarg)
    else if o.opt == b't'
    then parse_number b't' o.optarg
    else if o.opt == b'c'
    then parse_list behind b'c' o.optarg
    else if o.opt == b'p'
    then parse_single b'p' none
    else pure tt

-- The loop over the answers of `getopt`, up to its -1. `behind i` belongs to the i-th option.
unfoldable pub parse_options : (ℕ → ℕ → Name) → ℕ → List Opt → Cmd Parse (Unit {0})
parse_options behind i [] = pure tt
parse_options behind i (o ∷ opts) = do parse_option (behind i) o; parse_options behind (i + 1) opts

-- `parseArgs`; `w_args` is the memory that `malloc` gives.
unfoldable pub parse_args : (ℕ → ℕ → Name) → List ℕ → List Opt → Cmd Parse (List Action)
parse_args behind w_args opts = do
  modify λ p. record p { head = []; w_args = w_args }
  parse_options behind 0 opts
  gets λ p. p.head
