-- ===== src/Memory/Evict/Clean.antt =====
-- `clean_cache` against the list of files.
use progetto_sol_unipi.Base.{
  ℕ, zero, suc, ◌+◌, ◌<◌, ◌≡◌, refl, ◌∙◌, inl, inr, true, false, [], ◌∷◌, none, arith, ◌==◌,
  Bool-cases, length,
}
use progetto_sol_unipi.Base.Command.{
  Returns, returns, Returns-mono, Returns-bind, Returns-if_true, Returns-if_false,
}
use progetto_sol_unipi.Memory.State.{Ptr, Server, write}
use progetto_sol_unipi.Memory.Chain.{
  Cells, owns, write_self, SameOutside, SameOutside-write, with_heap,
}
use progetto_sol_unipi.Memory.Cache.{Holds}
use progetto_sol_unipi.Memory.Files.Pop.{pop_from_head-Popped, free_file_lem}
use progetto_sol_unipi.Memory.Files.Remove.{Holds-free}
use progetto_sol_unipi.Memory.Evict.{clean_loop, clean_cache}

abbrev pub Cleaned : Server → Cells → Server → Type 0
Cleaned s xs t =
    Holds t [] × ((a : Ptr) → owns a xs ≡ true → t.heap a ≡ none) × SameOutside xs s.heap t.heap

clean_loop-Cleaned :
    (k : ℕ) (s : Server) (xs : Cells)
    → length xs < k
    → Holds s xs
    → Returns (λ _ t. Cleaned s xs t) (clean_loop k s)
unfolding clean_loop
clean_loop-Cleaned zero s xs fuel h = absurd (omega arith)
clean_loop-Cleaned (suc k) s [] fuel h =
    let stop : (s.n_current_file == 0) ≡ true = let e = h.files in ground arith in
    Returns-if_true _ _ _ stop (returns (h, λ a i. absurd (ground arith), λ a i. refl))
clean_loop-Cleaned (suc k) s (c ∷ xs) fuel h =
    let go : (s.n_current_file == 0) ≡ false = let e = h.files in ground arith in
    Returns-if_false _ _ _ go (
      Returns-bind (pop_from_head-Popped s c xs h) λ r t p.
        let g = write t.heap c.0 none in
        let own : owns c.0 (c ∷ xs) ≡ true = ground arith in
        let same = SameOutside-write (c ∷ xs) s.heap t.heap c.0 none own p.outside in
        rw p.result (
          rw (free_file_lem t p.at) (
            Returns-mono
              (clean_loop-Cleaned k (with_heap t g) xs (omega arith)
                (Holds-free c.0 p.holds p.alone))
              λ _ u (empty, freed, outside). (
                empty,
                λ a i. elim (Bool-cases (owns a xs)) [
                  | inl y ↦ freed a y
                  | inr n ↦
                      let e : a ≡ c.0 = ground arith in
                      outside a n ∙ rw e (write_self t.heap c.0 none)
                ],
                λ a i. outside a (ground arith) ∙ same a i,
              ))))

-- `clean_cache` ends with the list empty, the counters 0, and every file of the list freed; the
-- rest of the heap is untouched.
pub clean_cache-Cleaned :
    (s : Server) (xs : Cells) → Holds s xs → Returns (λ _ t. Cleaned s xs t) (clean_cache s)
unfolding clean_cache
clean_cache-Cleaned s xs h =
    clean_loop-Cleaned (s.n_current_file + 1) s xs (omega (arith, h.files)) h
