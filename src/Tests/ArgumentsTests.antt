-- ===== src/Tests/ArgumentsTests.antt =====
-- Command lines of the client.
use progetto_sol_unipi.Base.{ℕ, ◌≡◌, refl, arith, List, some, none, [], ◌∷◌}
use progetto_sol_unipi.Base.Command.{ok, fault, Ends}
use progetto_sol_unipi.Memory.State.{Name}
use progetto_sol_unipi.Arguments.{
  Parse, Opt, parse_names, parse_list, parse_w, parse_args, init_action, add_to_tail, copy_args,
}
use progetto_sol_unipi.Arguments.Names.{named, parse_list-join}
use progetto_sol_unipi.Arguments.Order.{ops, parse_args-makes}

abbrev none_behind : ℕ → Name
none_behind i = []

abbrev nothing : Parse
nothing = record { head = []; w_args = 0 ∷ 0 ∷ 0 ∷ 0 ∷ 0 ∷ 0 ∷ 0 ∷ 0 ∷ [] }

parse_list-join_example :
    parse_list none_behind b'W' (b'a' ∷ b',' ∷ b'b' ∷ b'c' ∷ []) nothing
    ≡ ok tt (record nothing {
      head = add_to_tail [] (named b'W' ((b'a' ∷ []) ∷ (b'b' ∷ b'c' ∷ []) ∷ []));
    })
parse_list-join_example =
    parse_list-join none_behind b'W' (b'a' ∷ []) ((b'b' ∷ b'c' ∷ []) ∷ []) nothing
      ((omega arith, refl), ((omega arith, refl), tt)) (omega arith)

abbrev command_line : List Opt
command_line =
    (record { opt = b'h'; optarg = [] })
    ∷ (record { opt = b'W'; optarg = b'a' ∷ b',' ∷ b'b' ∷ [] })
    ∷ (record { opt = b't'; optarg = b'2' ∷ b'0' ∷ [] })
    ∷ []

parse_args-makes_example :
    Ends
      (λ actions _. ops actions ≡ b'W' ∷ b't' ∷ [])
      (parse_args (λ _. none_behind) [] command_line nothing)
parse_args-makes_example = parse_args-makes (λ _. none_behind) [] command_line nothing

-- A list of no name is a fault.
no_name : parse_names none_behind (b',' ∷ []) nothing ≡ fault
unfolding parse_names
no_name = refl

-- A second `-w` finds what the first has left in the buffer: `abc`, then `x`.
left_over :
    parse_w (b'x' ∷ []) (record { head = []; w_args = b'a' ∷ b'b' ∷ b'c' ∷ 0 ∷ [] })
    ≡ ok tt (record {
      head =
          (record { op = b'w'; single_arg = some (b'x' ∷ b'b' ∷ b'c' ∷ []); args = none; n = 0 })
          ∷ [];
      w_args = b'x' ∷ b'b' ∷ b'c' ∷ 0 ∷ [];
    })
unfolding parse_w copy_args init_action add_to_tail
left_over = refl
