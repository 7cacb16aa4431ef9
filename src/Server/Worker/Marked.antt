-- ===== src/Server/Worker/Marked.antt =====
-- What opening, closing, writing and creating a file do to the files of the cache.
use progetto_sol_unipi.Base.{
  ℕ, ◌+◌, ◌≤◌, ◌≡◌, refl, sym, subst, ap, ◌∙◌, inl, inr, Bool-cases, true, false, List, [], ◌∷◌,
  ◌++◌, arith, length, length-append,
}
use progetto_sol_unipi.Memory.State.{Ptr, Name, Policy}
use progetto_sol_unipi.Memory.Chain.{Cells, total}
use progetto_sol_unipi.Memory.Cache.{has_name, after_use, hit}
use progetto_sol_unipi.Memory.Files.Contents.{appended}
use progetto_sol_unipi.Server.Worker.Create.{opened_file}
use progetto_sol_unipi.Server.Worker.Open.{opened, open_first, open_first_hit, after_open}
use progetto_sol_unipi.Server.Worker.Close.{closed, close_first, close_first_hit}
use progetto_sol_unipi.Server.Worker.Finish.{append_first, append_first_hit, append_first_miss}
use progetto_sol_unipi.Server.Worker.Served.{has_name-after_use}
use progetto_sol_unipi.Server.Worker.Stored.{
  Stored, Tidy, Tidy-flushed, Tidy-change, Tidy-part, Stored-mark, Stored-after_use,
}

total-append_first :
    (n : Name) (more : List ℕ) (xs : Cells)
    → Tidy xs
    → total (append_first n more xs) ≤ total xs + length more
total-append_first n more [] t = omega arith
total-append_first n more (c ∷ xs) (flushed, new, rest) =
    let a = total-append_first n more xs rest in
    let b = length-append c.1.buffer more in ground arith

module _ {files memory : ℕ} (n : Name) where
  Stored-open_first :
      (xs : Cells)
      → has_name n xs ≡ true
      → Stored files memory xs
      → Stored files memory (open_first n xs)
  Stored-open_first xs y k =
      let h = hit n xs y in
      let c = h.cell in
      let shown = ap (open_first n) h.parts ∙ open_first_hit n h.before c h.after h.new h.same in
      let k' = subst (Stored files memory) h.parts k in
      subst (Stored files memory) (sym shown) (
        Stored-mark h.before c (opened c) h.after refl refl
          (Tidy-flushed h.before c h.after k'.tidy) k')

  pub Stored-close_first :
      (xs : Cells)
      → has_name n xs ≡ true
      → Stored files memory xs
      → Stored files memory (close_first n xs)
  Stored-close_first xs y k =
      let h = hit n xs y in
      let c = h.cell in
      let shown = ap (close_first n) h.parts ∙ close_first_hit n h.before c h.after h.new h.same in
      let k' = subst (Stored files memory) h.parts k in
      subst (Stored files memory) (sym shown) (
        Stored-mark h.before c (closed c) h.after refl refl
          (Tidy-flushed h.before c h.after k'.tidy) k')

  pub Stored-after_open :
      (policy : Policy) (xs : Cells)
      → Stored files memory xs
      → Stored files memory (after_open policy n (has_name n xs) xs)
  Stored-after_open policy xs k = elim (Bool-cases (has_name n xs)) [
    | inl y ↦ rw y (
        Stored-open_first (after_use policy n xs) (has_name-after_use n policy xs ∙ y)
          (Stored-after_use n policy xs k))
    | inr o ↦ rw o k
  ]

  -- More data in the first file of the name, within the limits.
  pub Stored-append_first :
      (more : List ℕ) (xs : Cells)
      → Tidy xs
      → length xs ≤ files
      → total xs + length more ≤ memory
      → Stored files memory (append_first n more xs)
  Stored-append_first more xs t few fits = elim (Bool-cases (has_name n xs)) [
    | inl y ↦
        let h = hit n xs y in
        let c = h.cell in
        let shown =
          ap (append_first n more) h.parts
          ∙ append_first_hit n more h.before c h.after h.new h.same in
        record {
          tidy = subst Tidy (sym shown) (
              Tidy-change h.before c (c.0, appended c.1 more) h.after refl refl
                (subst Tidy h.parts t));
          few = omega (
            arith,
            few,
            ap length shown,
            ap length h.parts,
            length-append h.before (c ∷ h.after),
            length-append h.before ((c.0, appended c.1 more) ∷ h.after),
          );
          small = omega (arith, fits, total-append_first n more xs t);
        }
    | inr o ↦
        rw (append_first_miss n more xs o)
          (record { tidy = t; few = few; small = omega (arith, fits) })
  ]

-- The more recent of the files behind a new, empty one.
pub Stored-created :
    {files memory : ℕ} (p : Ptr) (n : Name) (kept gone : Cells)
    → Tidy (kept ++ gone)
    → has_name n kept ≡ false
    → length kept + 1 ≤ files
    → total kept ≤ memory
    → Stored files memory ((p, opened_file n) ∷ kept)
Stored-created p n kept gone t new few small = record {
  tidy = (refl, new, Tidy-part kept gone t);
  few = omega (arith, few);
  small = omega (arith, small);
}
