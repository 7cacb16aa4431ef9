-- ===== src/Arguments/Keeping.antt =====
-- The parts of `parseArgs` that leave the list of actions as it is, and end.
use progetto_sol_unipi.Base.{
  ℕ, zero, suc, ◌+◌, ◌<◌, ◌≤◌, ◌≡◌, refl, arith, Bool, true, false, List, Option, none, some, [],
  ◌∷◌, ◌++◌, ltb, if◌then◌else◌, length,
}
use progetto_sol_unipi.Base.Command.{
  Run, Cmd, ok, fault, out_of_fuel, exit, Ends, and_then, pure, ◌>>=◌,
}
use progetto_sol_unipi.Memory.State.{Name}
use progetto_sol_unipi.Text.{skip_space}
use progetto_sol_unipi.Transfer.{drop}
use progetto_sol_unipi.Arguments.{
  Action, Parse, string_in, parse_names, atoi, atoi_sign, strtok, skip_commas, token, first_token,
  more_names, copy_args, cut, max_readable_file,
}

-- The run ends, and if it does so with a result, the actions are those of before.
pub record Keeps {A : Type 0} (before : List Action) (r : Run Parse A) : Type 0 where
  pub keeps : Ends (λ _ t. t.head ≡ before) r

module _ {A : Type 0} {before : List Action} where
  pub Keeps-ok : (a : A) (p : Parse) → p.head ≡ before → Keeps before (ok a p)
  Keeps-ok a p e = record { keeps = e }

  pub Keeps-fault : Keeps {A = A} before fault
  Keeps-fault = record { keeps = tt }

  pub Keeps-if :
      (b : Bool) (q r : Run Parse A)
      → Keeps before q
      → Keeps before r
      → Keeps before (if b then q else r)
  Keeps-if true q r hq hr = hq
  Keeps-if false q r hq hr = hr

  pub Keeps-if_command :
      (b : Bool) (m n : Cmd Parse A) (p : Parse)
      → Keeps before (m p)
      → Keeps before (n p)
      → Keeps before ((if b then m else n) p)
  Keeps-if_command true m n p hm hn = hm
  Keeps-if_command false m n p hm hn = hn

pub Keeps-then :
    {A B : Type 0} {before : List Action} (r : Run Parse A) (k : A → Cmd Parse B)
    → Keeps before r
    → ((a : A) (t : Parse) → t.head ≡ before → Keeps before (k a t))
    → Keeps before (and_then r k)
Keeps-then (ok a t) k q rest = rest a t q.keeps
Keeps-then fault k q rest = record { keeps = tt }
Keeps-then exit k q rest = record { keeps = tt }
Keeps-then out_of_fuel k q rest = absurd q.keeps

ruleset keeping = (refl, Keeps-ok, Keeps-fault, Keeps-if, Keeps-if_command, Keeps-then)

-- What is left behind a token is shorter than the text.
abbrev IsShorter : Name → Option (Name × Name) → Type 0
IsShorter s none = Unit {0}
IsShorter s (some (_, rest)) = length rest < length s

skip_commas-length : (s : Name) → length (skip_commas s) ≤ length s
skip_commas-length [] = omega arith
skip_commas-length (c ∷ s) = let ih = skip_commas-length s in ground arith

token-length : (s : Name) → length (token s).1 ≤ length s
token-length [] = omega arith
token-length (c ∷ s) = let ih = token-length s in ground arith

first_token-IsShorter : (s t : Name) → length s ≤ length t → IsShorter t (first_token s)
first_token-IsShorter [] t h = tt
first_token-IsShorter (c ∷ s) t h = let short = token-length s in ground arith

strtok-IsShorter : (s : Name) → IsShorter s (strtok s)
strtok-IsShorter s = first_token-IsShorter (skip_commas s) s (skip_commas-length s)

module _ {before : List Action} where
  pub Keeps-atoi_sign : (s : Name) (p : Parse) → p.head ≡ before → Keeps before (atoi_sign s p)
  Keeps-atoi_sign [] p e = search keeping depth 20
  Keeps-atoi_sign (c ∷ s) p e = search keeping depth 20

  names_of :
      (behind : ℕ → Name) (fuel : Name → ℕ) (counter i : ℕ) (s : Name) (p : Parse)
      → ((rest : Name)
          → length rest < length s
          → Keeps before (more_names behind (fuel rest) counter rest p))
      → (m : Cmd Parse (List Name)) → Keeps before (m p)
      → (found : Option (Name × Name)) → IsShorter s found
      → Keeps before (
          (elim found as (λ _. Cmd Parse (List Name)) [
            | none ↦ m
            | some (save, rest) ↦ (do
              names ← more_names behind (fuel rest) counter rest
              pure ((save ++ behind i) ∷ names))
          ])
            p)
  names_of behind fuel counter i s p later m end none short = end
  names_of behind fuel counter i s p later m end (some (save, rest)) short =
      Keeps-then _ _ (later rest short) λ names t e. Keeps-ok _ t e

  pub Keeps-more_names :
      (behind : ℕ → Name) (fuel counter : ℕ) (rest : Name) (p : Parse)
      → length rest < fuel
      → p.head ≡ before
      → Keeps before (more_names behind fuel counter rest p)
  unfolding more_names
  Keeps-more_names behind zero counter rest p enough e = absurd (omega arith)
  Keeps-more_names behind (suc fuel) counter rest p enough e =
      Keeps-if_command (ltb counter max_readable_file) _ (λ _. fault) p
        (names_of behind (λ _. fuel) (counter + 1) counter rest p
          (λ rest' short. Keeps-more_names behind fuel (counter + 1) rest' p (omega arith) e)
          (pure []) (Keeps-ok [] p e) (strtok rest) (strtok-IsShorter rest))
        Keeps-fault

  pub Keeps-parse_names :
      (behind : ℕ → Name) (optarg : Name) (p : Parse)
      → p.head ≡ before
      → Keeps before (parse_names behind optarg p)
  unfolding parse_names
  Keeps-parse_names behind optarg p e =
      names_of behind (λ rest. length rest + 1) 1 0 optarg p
        (λ rest short. Keeps-more_names behind (length rest + 1) 1 rest p (omega arith) e)
        (λ _. fault) Keeps-fault (strtok optarg) (strtok-IsShorter optarg)

  pub Keeps-copy_args :
      (optarg : Name) (p : Parse) → p.head ≡ before → Keeps before (copy_args optarg p)
  unfolding copy_args
  Keeps-copy_args optarg p e =
      Keeps-if _ _ _ Keeps-fault (text_of (string_in (optarg ++ drop (length optarg) p.w_args)))
    where
      text_of :
          (text : Option Name)
          → Keeps before (elim text as (λ _. Run Parse Name) [
            | none ↦ fault
            | some n ↦
                ok n (record p { w_args = cut 2 false (optarg ++ drop (length optarg) p.w_args) })
          ])
      text_of none = search keeping
      text_of (some n) = Keeps-ok n _ e

  pub Keeps-count :
      (found : Option (Name × Name)) (p : Parse)
      → p.head ≡ before
      → Keeps before
          ((elim found as (λ _. Cmd Parse ℕ) [ none ↦ pure 0 | some (num, _) ↦ atoi num ]) p)
  Keeps-count none p e = search keeping
  Keeps-count (some (num, _)) p e = Keeps-atoi_sign (skip_space num) p e
