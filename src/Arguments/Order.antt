-- ===== src/Arguments/Order.antt =====
-- The order of the actions.
use progetto_sol_unipi.Base.{
  ℕ, ◌+◌, ◌≡◌, refl, sym, ap, ◌∙◌, arith, inl, inr, Bool-cases, Bool, true, false, ◌||◌, List,
  Option, none, some, [], ◌∷◌, ◌++◌, append-nil, append_assoc, ◌==◌, ltb, if◌then◌else◌, length,
}
use progetto_sol_unipi.Base.Command.{
  Run, Cmd, ok, fault, out_of_fuel, exit, Ends, Ends-bind, Ends-mono, and_then, ◌>>=◌,
}
use progetto_sol_unipi.Memory.State.{Name}
use progetto_sol_unipi.Text.{skip_space}
use progetto_sol_unipi.Arguments.{
  Action, Parse, Opt, add_to_tail, add_action, init_action, token_of, rest_of, parse_list, parse_w,
  parse_number, parse_single, parse_option, parse_options, parse_args, strtok, max_readable_file,
}
use progetto_sol_unipi.Arguments.Keeping.{
  Keeps, Keeps-atoi_sign, Keeps-parse_names, Keeps-copy_args, Keeps-count,
}

-- The options that make an action.
abbrev pub is_action : ℕ → Bool
is_action c =
    c == b'f'
    || c == b'w'
    || c == b'W'
    || c == b'r'
    || c == b'R'
    || c == b'd'
    || c == b't'
    || c == b'c'
    || c == b'p'

abbrev pub asked : List Opt → List ℕ
asked [] = []
asked (o ∷ opts) = let rest = asked opts in if is_action o.opt then o.opt ∷ rest else rest

abbrev pub ops : List Action → List ℕ
ops [] = []
ops (a ∷ actions) = a.op ∷ ops actions

-- The run ends, and if it does so with a result, the actions are for these operations.
pub record Makes {A : Type 0} (wanted : List ℕ) (r : Run Parse A) : Type 0 where
  pub makes : Ends (λ _ t. ops t.head ≡ wanted) r

ops-add_to_tail :
    (actions : List Action) (a : Action) → ops (add_to_tail actions a) ≡ ops actions ++ a.op ∷ []
unfolding add_to_tail
ops-add_to_tail [] a = refl
ops-add_to_tail (x ∷ actions) a = ap (◌∷◌ x.op) (ops-add_to_tail actions a)

module _ {before : List Action} where
  Makes-then :
      {A B : Type 0} {wanted : List ℕ} (r : Run Parse A) (k : A → Cmd Parse B)
      → Keeps before r
      → ((a : A) (t : Parse) → t.head ≡ before → Makes wanted (k a t))
      → Makes wanted (and_then r k)
  Makes-then (ok a t) k q rest = rest a t q.keeps
  Makes-then fault k q rest = record { makes = tt }
  Makes-then exit k q rest = record { makes = tt }
  Makes-then out_of_fuel k q rest = absurd q.keeps

  Makes-action :
      (args : Option (List Name)) (n op : ℕ) (single_arg : Option Name) (p : Parse)
      → p.head ≡ before
      → Makes (ops before ++ op ∷ []) ((init_action args n op single_arg >>= add_action) p)
  unfolding init_action
  Makes-action none n op single_arg p e = record {
    makes = ops-add_to_tail p.head _ ∙ ap (λ l. ops l ++ op ∷ []) e;
  }
  Makes-action (some names) n op single_arg p e =
      elim (Bool-cases (ltb (length names + 1) max_readable_file)) [
        | inl y ↦ rw y (record { makes = ops-add_to_tail p.head _ ∙ ap (λ l. ops l ++ op ∷ []) e })
        | inr n ↦ rw n (record { makes = tt })
      ]

  Makes-parse_single :
      (op : ℕ) (single_arg : Option Name) (p : Parse)
      → p.head ≡ before
      → Makes (ops before ++ op ∷ []) (parse_single op single_arg p)
  unfolding parse_single
  Makes-parse_single op single_arg p e = Makes-action none 0 op single_arg p e

  Makes-parse_number :
      (op : ℕ) (optarg : Name) (p : Parse)
      → p.head ≡ before
      → Makes (ops before ++ op ∷ []) (parse_number op optarg p)
  unfolding parse_number
  Makes-parse_number op optarg p e =
      Makes-then _ _ (Keeps-atoi_sign (skip_space optarg) p e)
        λ n t e'. Makes-action none n op none t e'

  Makes-parse_list :
      (behind : ℕ → Name) (op : ℕ) (optarg : Name) (p : Parse)
      → p.head ≡ before
      → Makes (ops before ++ op ∷ []) (parse_list behind op optarg p)
  unfolding parse_list
  Makes-parse_list behind op optarg p e =
      Makes-then _ _ (Keeps-parse_names behind optarg p e)
        λ names t e'. Makes-action (some names) 0 op none t e'

  Makes-parse_w :
      (optarg : Name) (p : Parse)
      → p.head ≡ before
      → Makes (ops before ++ b'w' ∷ []) (parse_w optarg p)
  unfolding parse_w
  Makes-parse_w optarg p e = Makes-then _ _ (Keeps-copy_args optarg p e) λ text t e'.
      Makes-then _ _ (Keeps-count (strtok (rest_of (strtok text))) t e')
        λ n u e''. Makes-action none n b'w' (token_of (strtok text)) u e''

-- What an option adds is what it asks for.
Makes-wanted :
    (before : List Action) {r : Run Parse (Unit {0})} (o : Opt) (op : ℕ)
    → o.opt ≡ op
    → is_action op ≡ true
    → Makes (ops before ++ op ∷ []) r
    → Makes (ops before ++ asked (o ∷ [])) r
Makes-wanted before o op e y h = rw (e, y) h

Makes-choice :
    {wanted : List ℕ} (b : Bool) (m n : Cmd Parse (Unit {0})) (p : Parse)
    → (b ≡ true → Makes wanted (m p))
    → (b ≡ false → Makes wanted (n p))
    → Makes wanted ((if b then m else n) p)
Makes-choice true m n p yes_case no_case = yes_case refl
Makes-choice false m n p yes_case no_case = no_case refl

module _ (before : List Action) (behind : ℕ → Name) (o : Opt) (p : Parse)
    (e : p.head ≡ before) where
  Makes-parse_option : Makes (ops before ++ asked (o ∷ [])) (parse_option behind o p)
  unfolding parse_option
  Makes-parse_option =
      Makes-choice (o.opt == b'f') _ _ p
        (λ y. Makes-wanted before o b'f' (ground arith) refl (Makes-parse_single _ _ p e))
        λ n1.
          Makes-choice (o.opt == b'w') _ _ p
            (λ y. Makes-wanted before o b'w' (ground arith) refl (Makes-parse_w _ p e))
            λ n2.
              Makes-choice (o.opt == b'W') _ _ p
                (λ y.
                  Makes-wanted before o b'W' (ground arith) refl (Makes-parse_list behind _ _ p e))
                λ n3.
                  Makes-choice (o.opt == b'r') _ _ p
                    (λ y.
                      Makes-wanted before o b'r' (ground arith) refl
                        (Makes-parse_list behind _ _ p e))
                    λ n4.
                      Makes-choice (o.opt == b'R') _ _ p
                        (λ y.
                          Makes-wanted before o b'R' (ground arith) refl
                            (Makes-parse_number _ _ p e))
                        λ n5.
                          Makes-choice (o.opt == b'd') _ _ p
                            (λ y.
                              Makes-wanted before o b'd' (ground arith) refl
                                (Makes-parse_single _ _ p e))
                            λ n6.
                              Makes-choice (o.opt == b't') _ _ p
                                (λ y.
                                  Makes-wanted before o b't' (ground arith) refl
                                    (Makes-parse_number _ _ p e))
                                λ n7.
                                  Makes-choice (o.opt == b'c') _ _ p
                                    (λ y.
                                      Makes-wanted before o b'c' (ground arith) refl
                                        (Makes-parse_list behind _ _ p e))
                                    λ n8.
                                      Makes-choice (o.opt == b'p') _ _ p
                                        (λ y.
                                          Makes-wanted before o b'p' (ground arith) refl
                                            (Makes-parse_single _ _ p e))
                                        λ n9.
                                          let no_action : is_action o.opt ≡ false = ground arith in
                                          rw no_action (record {
                                            makes = ap ops e ∙ sym (append-nil (ops before));
                                          })

asked-cons : (o : Opt) (opts : List Opt) → asked (o ∷ opts) ≡ asked (o ∷ []) ++ asked opts
asked-cons o opts = elim (Bool-cases (is_action o.opt)) [ inl y ↦ rw y refl | inr n ↦ rw n refl ]

parse_options-makes :
    (behind : ℕ → ℕ → Name) (i : ℕ) (opts : List Opt) (p : Parse)
    → Ends (λ _ t. ops t.head ≡ ops p.head ++ asked opts) (parse_options behind i opts p)
unfolding parse_options
parse_options-makes behind i [] p = sym (append-nil (ops p.head))
parse_options-makes behind i (o ∷ opts) p =
    Ends-bind _ _ (parse_option (behind i) o p) _
      (Makes-parse_option p.head (behind i) o p refl).makes
      λ _ t made.
        Ends-mono _ _ (parse_options behind (i + 1) opts t)
          (parse_options-makes behind (i + 1) opts t)
          λ _ u more.
            more
            ∙ ap (λ l. l ++ asked opts) made
            ∙ append_assoc (ops p.head) (asked (o ∷ [])) (asked opts)
            ∙ ap (λ l. ops p.head ++ l) (sym (asked-cons o opts))

-- Every loop of `parseArgs` ends, and if it returns, its list has one action for each option that
-- asks for one, in the order of the command line; the help, the options that `getopt` does not know
-- and those without their argument have none. A fault is not excluded, as on a list without a name
-- or a text too long for its buffer.
pub parse_args-makes :
    (behind : ℕ → ℕ → Name) (w_args : List ℕ) (opts : List Opt) (p : Parse)
    → Ends (λ actions _. ops actions ≡ asked opts) (parse_args behind w_args opts p)
unfolding parse_args
parse_args-makes behind w_args opts p =
    Ends-bind _ _ (parse_options behind 0 opts _) _ (parse_options-makes behind 0 opts _)
      λ _ t made. made
