-- ===== src/Base/Command.antt =====
-- Commands over a state: the state and result monad in which the stateful C functions are written.
use mathlib.Core.Path.{◌≡◌, refl, ap, subst, ◌∙◌}
use mathlib.Core.Bool.{Bool, true, false}
use progetto_sol_unipi.Base.Tests.{if◌then◌else◌}

-- `fault` is undefined behaviour (a null or dangling pointer, a read out of bounds), `exit` the
-- call of `exit(EXIT_FAILURE)`, `out_of_fuel` a loop that has used up the rounds it was given.
pub data Run (S A : Type 0) : Type 0 where
  ok : A → S → Run S A
  fault exit out_of_fuel : Run S A

abbrev pub Cmd : Type 0 → Type 0 → Type 0
Cmd S A = S → Run S A

module _ {S A : Type 0} where
  abbrev pub pure : A → Cmd S A
  pure a s = ok a s

  abbrev pub gets : (S → A) → Cmd S A
  gets f s = ok (f s) s

abbrev pub modify : {S : Type 0} → (S → S) → Cmd S (Unit {0})
modify f s = ok tt (f s)

module _ {S A B : Type 0} where
  abbrev pub and_then : Run S A → (A → Cmd S B) → Run S B
  and_then (ok a s) k = k a s
  and_then fault k = fault
  and_then exit k = exit
  and_then out_of_fuel k = out_of_fuel

  infixl 5 ◌>>=◌ ◌>>◌
  abbrev pub ◌>>=◌ : Cmd S A → (A → Cmd S B) → Cmd S B
  m >>= k = λ s. and_then (m s) k

  abbrev pub ◌>>◌ : Cmd S A → Cmd S B → Cmd S B
  m >> n = m >>= λ _. n

-- One command of a run whose result is known.
pub and_then-ok :
    {S A B : Type 0} (m : Run S A) (k : A → Cmd S B) {t : S} {a : A} {r : Run S B}
    → m ≡ ok a t
    → k a t ≡ r
    → and_then m k ≡ r
and_then-ok m k first rest = ap (λ x. and_then x k) first ∙ rest

-- Total correctness of a run: it ends with a result, and the postcondition holds of it.
pub data Returns {S A : Type 0} (P : A → S → Type 0) : Run S A → Type 0 where
  returns : {a : A} {s : S} → P a s → Returns P (ok a s)

-- A run that returns has a result.
pub result_of :
    {S A : Type 0} {P : A → S → Type 0} (r : Run S A)
    → Returns P r
    → (a : A) × (t : S) × (r ≡ ok a t)
result_of r (returns p) = (_, _, refl)

module _ {S A : Type 0} {P : A → S → Type 0} where
  pub Returns-bind :
      {B : Type 0} {Q : B → S → Type 0} {r : Run S A} {k : A → Cmd S B}
      → Returns P r
      → ((a : A) (s : S) → P a s → Returns Q (k a s))
      → Returns Q (and_then r k)
  Returns-bind (returns p) rest = rest _ _ p

  pub Returns-mono :
      {Q : A → S → Type 0} {r : Run S A}
      → Returns P r
      → ((a : A) (s : S) → P a s → Q a s)
      → Returns Q r
  Returns-mono (returns p) weaken = returns (weaken _ _ p)

  pub Returns-of_eq : {r : Run S A} {a : A} {s : S} → r ≡ ok a s → P a s → Returns P r
  Returns-of_eq e p = rw e (returns p)

-- One step of a run whose test is known.
module _ {S A : Type 0} (m k : Cmd S A) (s : S) where
  pub if_true : {b : Bool} {r : Run S A} → b ≡ true → m s ≡ r → (if b then m else k) s ≡ r
  if_true e h = rw e h

  pub if_false : {b : Bool} {r : Run S A} → b ≡ false → k s ≡ r → (if b then m else k) s ≡ r
  if_false e h = rw e h

  pub Returns-if_true :
      {P : A → S → Type 0} {b : Bool}
      → b ≡ true
      → Returns P (m s)
      → Returns P ((if b then m else k) s)
  Returns-if_true e h = rw e h

  pub Returns-if_false :
      {P : A → S → Type 0} {b : Bool}
      → b ≡ false
      → Returns P (k s)
      → Returns P ((if b then m else k) s)
  Returns-if_false e h = rw e h

-- Partial correctness of a run: if it ends with a result, the postcondition holds of it.
module _ {S A : Type 0} where
  abbrev pub Meets : (A → S → Type 0) → Run S A → Type 0
  Meets P (ok a s) = P a s
  Meets P fault = Unit {0}
  Meets P exit = Unit {0}
  Meets P out_of_fuel = Unit {0}

  pub Meets-mono :
      (P Q : A → S → Type 0) (r : Run S A)
      → Meets P r
      → ((a : A) (s : S) → P a s → Q a s)
      → Meets Q r
  Meets-mono P Q (ok a s) p weaken = weaken a s p
  Meets-mono P Q fault p weaken = tt
  Meets-mono P Q exit p weaken = tt
  Meets-mono P Q out_of_fuel p weaken = tt

  pub Meets-result :
      (P : A → S → Type 0) {r : Run S A} {a : A} {s : S} → Meets P r → r ≡ ok a s → P a s
  Meets-result P h e = subst (Meets P) e h

  pub Meets-if :
      (P : A → S → Type 0) (b : Bool) (q r : Run S A)
      → Meets P q
      → Meets P r
      → Meets P (if b then q else r)
  Meets-if P true q r hq hr = hq
  Meets-if P false q r hq hr = hr

module _ {S A B : Type 0} where
  pub Meets-bind :
      (P : A → S → Type 0) (Q : B → S → Type 0) (r : Run S A) (k : A → Cmd S B)
      → Meets P r
      → ((a : A) (s : S) → P a s → Meets Q (k a s))
      → Meets Q (and_then r k)
  Meets-bind P Q (ok a s) k p rest = rest a s p
  Meets-bind P Q fault k p rest = tt
  Meets-bind P Q exit k p rest = tt
  Meets-bind P Q out_of_fuel k p rest = tt

-- The result of a run that ends with one.
pub Returns-result :
    {S A : Type 0} {P : A → S → Type 0} {r : Run S A} {a : A} {s : S}
    → Returns P r
    → r ≡ ok a s
    → P a s
Returns-result {P} (returns p) e = Meets-result P p e

-- The same of a run that does not use up its rounds: it may still fault or leave the process.
module _ {S A : Type 0} where
  abbrev pub Ends : (A → S → Type 0) → Run S A → Type 0
  Ends P (ok a s) = P a s
  Ends P fault = Unit {0}
  Ends P exit = Unit {0}
  Ends P out_of_fuel = ⊥

  pub Ends-mono :
      (P Q : A → S → Type 0) (r : Run S A) → Ends P r → ((a : A) (s : S) → P a s → Q a s) → Ends Q r
  Ends-mono P Q (ok a s) p weaken = weaken a s p
  Ends-mono P Q fault p weaken = tt
  Ends-mono P Q exit p weaken = tt
  Ends-mono P Q out_of_fuel p weaken = absurd p

pub Ends-bind :
    {S A B : Type 0} (P : A → S → Type 0) (Q : B → S → Type 0) (r : Run S A) (k : A → Cmd S B)
    → Ends P r
    → ((a : A) (s : S) → P a s → Ends Q (k a s))
    → Ends Q (and_then r k)
Ends-bind P Q (ok a s) k p rest = rest a s p
Ends-bind P Q fault k p rest = tt
Ends-bind P Q exit k p rest = tt
Ends-bind P Q out_of_fuel k p rest = absurd p
