-- ===== src/Memory/Evict/Room.antt =====
-- The loop over memory of `cache_algorithm` against the list of files.
use progetto_sol_unipi.Base.{
  ℕ, zero, suc, ◌+◌, ◌^◌, ◌<◌, ◌≤◌, ◌≡◌, refl, sym, subst, ap, ◌∙◌, ◌⊎◌, inl, inr, true, false, not,
  ◌&&◌, [], ◌∷◌, ◌++◌, append-nil, append_assoc, arith, ltb, ◌==◌, Bool-cases, length,
  length-append, none,
}
use progetto_sol_unipi.Base.Command.{
  Returns, returns, Returns-bind, Returns-mono, Returns-if_true, Returns-if_false,
}
use progetto_sol_unipi.Base.Word.{add64, sub64, is_positive64}
use progetto_sol_unipi.Memory.State.{Ptr, File, Server, write}
use progetto_sol_unipi.Memory.Chain.{Cells, total, with_heap, load_lem, snoc_view}
use progetto_sol_unipi.Memory.Cache.{Holds, total-append}
use progetto_sol_unipi.Memory.Files.Pop.{pop_from_tail-Popped, free_file_lem}
use progetto_sol_unipi.Memory.Evict.{memory_loop}
use progetto_sol_unipi.Memory.Evict.Drop.{Evicted, Evicted-refl, Evicted-trans, Evicted-of_Popped}

-- The files that are kept leave room for `amount`, and the last one dropped was in the way.
pub record Fits (amount limit : ℕ) (s : Server) (xs : Cells) (t : Server) : Type 0 where
  pub kept : Cells
  pub gone : Cells
  pub parts : xs ≡ kept ++ gone
  pub evicted : Evicted s kept gone t
  pub room : total kept + amount ≤ limit
  pub tight :
      (gone ≡ [])
      ⊎ ((c : Ptr × File) × (rest : Cells) × (gone ≡ c ∷ rest)
          × (limit < total kept + c.1.used_memory + amount))

-- What the loop's test says of the memory in use.
pub is_positive64_lem :
    (used amount limit : ℕ)
    → used < 2 ^ 62
    → amount ≤ limit
    → limit < 2 ^ 62
    → is_positive64 (sub64 (add64 used amount) limit) ≡ ltb limit (used + amount)
is_positive64_lem used amount limit h h' h'' = ground arith

module _ (amount limit : ℕ) (below : amount ≤ limit) (small : limit < 2 ^ 62) where
  Fits-refl :
      {s : Server} (xs : Cells) → Holds s xs → total xs + amount ≤ limit → Fits amount limit s xs s
  Fits-refl xs h enough = record {
    kept = xs;
    gone = [];
    parts = sym (append-nil xs);
    evicted = Evicted-refl xs h;
    room = enough;
    tight = inl refl;
  }

  -- One more file has gone, since the write did not fit beside it.
  Fits-snoc :
      {s u t : Server} (ws : Cells) (c : Ptr × File)
      → Holds s (ws ++ c ∷ [])
      → limit < total (ws ++ c ∷ []) + amount
      → Evicted s ws (c ∷ []) u
      → Fits amount limit u ws t
      → Fits amount limit s (ws ++ c ∷ []) t
  Fits-snoc {s} {u} {t} ws c h over first f = record {
    kept = f.kept;
    gone = f.gone ++ c ∷ [];
    parts = ap (λ l. l ++ c ∷ []) f.parts ∙ append_assoc f.kept f.gone (c ∷ []);
    evicted =
        Evicted-trans f.kept f.gone (c ∷ []) (subst (λ l. Holds s (l ++ c ∷ [])) f.parts h)
          (subst (λ l. Evicted s l (c ∷ []) u) f.parts first) f.evicted;
    room = f.room;
    tight = elim f.tight [
      | inl none_before ↦ inr (
        c,
        [],
        ap (λ l. l ++ c ∷ []) none_before,
        omega (
          arith,
          ap total f.parts,
          total-append f.kept f.gone,
          ap total none_before,
          total-append ws (c ∷ []),
        ),
      )
      | inr (d, rest, e, out) ↦ inr (d, rest ++ c ∷ [], ap (λ l. l ++ c ∷ []) e, out)
    ];
  }

  pub memory_loop-Fits :
      (k : ℕ) (s : Server) (xs : Cells) (current need : ℕ)
      → length xs < k
      → Holds s xs
      → current ≡ total xs
      → total xs < 2 ^ 62
      → is_positive64 need ≡ ltb limit (total xs + amount)
      → Returns (λ _ t. Fits amount limit s xs t) (memory_loop k current need amount limit s)
  unfolding memory_loop
  memory_loop-Fits zero s xs current need fuel h now few test = absurd (omega arith)
  memory_loop-Fits (suc k) s [] current need fuel h now few test =
      let stop : not (is_positive64 need && not (s.n_current_file == 0)) ≡ true =
        let e = h.files in ground arith in
      Returns-if_true _ _ _ stop (returns (Fits-refl [] h (omega arith)))
  memory_loop-Fits (suc k) s (x ∷ xs) current need fuel h now few test =
      elim (Bool-cases (ltb limit (total (x ∷ xs) + amount))) [
        | inl over ↦
            let go : not (is_positive64 need && not (s.n_current_file == 0)) ≡ false =
              let e = h.files in ground arith in
            let (ws, c, parts) = snoc_view x xs in
            let h' = subst (Holds s) parts h in
            let sum = total-append ws (c ∷ []) in
            let size = ap total parts in
            let left : sub64 current c.1.used_memory ≡ total ws = omega arith in
            Returns-if_false _ _ _ go (
              Returns-bind (pop_from_tail-Popped s ws c h') λ r t p. rw p.result (
                rw (load_lem t p.at, free_file_lem t p.at)
                  (Returns-mono
                    (memory_loop-Fits k (with_heap t (write t.heap c.0 none)) ws _ _
                      (omega (arith, ap length parts, length-append ws (c ∷ [])))
                      (Evicted-of_Popped ws c p).holds left (omega arith)
                      (rw left
                        (is_positive64_lem (total ws) amount limit (omega arith) below small)))
                    λ _ u f.
                      subst (λ l. Fits amount limit s l u) (sym parts)
                        (Fits-snoc ws c h' (ground arith) (Evicted-of_Popped ws c p) f))))
        | inr under ↦
            let stop : not (is_positive64 need && not (s.n_current_file == 0)) ≡ true =
              ground arith in
            Returns-if_true _ _ _ stop (returns (Fits-refl (x ∷ xs) h (ground arith)))
      ]
