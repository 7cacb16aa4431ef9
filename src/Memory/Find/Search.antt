-- ===== src/Memory/Find/Search.antt =====
-- The loops of `inMem` and `find_file`, along a chain.
use progetto_sol_unipi.Base.{◌≡◌, refl, inl, inr, some, [], ◌∷◌, Bool-cases, if◌then◌else◌, length}
use progetto_sol_unipi.Base.Command.{ok, if_false}
use progetto_sol_unipi.Memory.State.{Ptr, null, Name, Server}
use progetto_sol_unipi.Memory.Names.{equal_names}
use progetto_sol_unipi.Memory.Chain.{
  Cells, Chain, Chain-uncons, Chain-nil, Chain-not_null, not_null, load_lem,
}
use progetto_sol_unipi.Memory.Cache.{has_name, Holds}
use progetto_sol_unipi.Memory.Find.{next, in_mem_loop, in_mem}

module _ (s : Server) (n : Name) where
  in_mem_loop-has_name :
      (xs : Cells) {p : Ptr}
      → Chain s.heap null p xs
      → in_mem_loop (length xs) p n s ≡ ok (if has_name n xs then 1 else 0) s
  unfolding in_mem_loop next
  in_mem_loop-has_name [] c = refl
  in_mem_loop-has_name ((a, f) ∷ []) c =
      let (q, e, at, out, rest) = Chain-uncons c in
      rw (e, load_lem s at)
        (elim (Bool-cases (equal_names f.filename n)) [
          | inl y ↦ rw y
          | inr o ↦ rw (o, not_null at, load_lem s at, Chain-nil rest)
        ])
  in_mem_loop-has_name ((a, f) ∷ x ∷ xs) c =
      let (q, e, at, out, rest) = Chain-uncons c in
      rw (e, load_lem s at)
        (elim (Bool-cases (equal_names f.filename n)) [
          | inl y ↦ rw y
          | inr o ↦
              rw (o, not_null at, load_lem s at)
                (if_false _ _ _ (Chain-not_null rest) (in_mem_loop-has_name (x ∷ xs) rest))
        ])

  -- On a list of files `inMem` answers 1 if a file has the name and 0 if none has, and changes
  -- nothing.
  pub in_mem_lem :
      {xs : Cells} → Holds s xs → in_mem (some n) s ≡ ok (if has_name n xs then 1 else 0) s
  unfolding in_mem
  in_mem_lem {xs} h = simp h.files (in_mem_loop-has_name xs h.chain)
