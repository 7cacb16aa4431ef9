-- ===== src/Memory/Names.antt =====
-- `equalNames` of memory.c.
use progetto_sol_unipi.Base.{
  ℕ, zero, suc, ◌≡◌, refl, ◌↔◌, Bool, true, false, ◌&&◌, [], ◌∷◌, arith, ◌==◌, length,
}
use progetto_sol_unipi.Memory.State.{Name}

-- `strncmp(a, b, n) == 0`: the first `n` characters agree, or both strings end before.
unfoldable pub strncmp_eq : Name → Name → ℕ → Bool
strncmp_eq a b zero = true
strncmp_eq [] [] (suc n) = true
strncmp_eq [] (y ∷ b) (suc n) = false
strncmp_eq (x ∷ a) [] (suc n) = false
strncmp_eq (x ∷ a) (y ∷ b) (suc n) = (x == y) && strncmp_eq a b n

unfoldable pub equal_names : Name → Name → Bool
unfolding strncmp_eq
equal_names a b =
    let cond = strncmp_eq a b (length a) in let cond2 = strncmp_eq b a (length b) in cond && cond2

sound : (a b : Name) → equal_names a b ≡ true → a ≡ b
unfolding equal_names
sound [] [] h = refl
sound [] (y ∷ b) h = ground arith
sound (x ∷ a) [] h = ground arith
sound (x ∷ a) (y ∷ b) h = ground (arith, sound a b)

pub equal_names_refl : (a : Name) → equal_names a a ≡ true
unfolding equal_names
equal_names_refl [] = refl
equal_names_refl (x ∷ a) = ground (arith, equal_names_refl a)

-- `equalNames` answers 1 for equal strings, and for no others: a name and a longer one that begins
-- with it are told apart.
pub equal_names_iff : (a b : Name) → (equal_names a b ≡ true) ↔ (a ≡ b)
equal_names_iff a b = (sound a b, λ e. rw e (equal_names_refl b))
