-- ===== src/Server/Worker/Stored.antt =====
-- What holds of the files of the cache between the turns of a worker.
use progetto_sol_unipi.Base.{
  ℕ, ◌≤◌, ◌≡◌, refl, sym, subst, ap, ◌∙◌, inl, inr, Bool-cases, true, false, ◌||◌, [], ◌∷◌, ◌++◌,
  arith, length, length-append,
}
use progetto_sol_unipi.Memory.State.{Ptr, Name, Policy, fifo, lru, File}
use progetto_sol_unipi.Memory.Names.{equal_names, equal_names_iff}
use progetto_sol_unipi.Memory.Chain.{Cells, total}
use progetto_sol_unipi.Memory.Cache.{
  has_name, erase, after_use, hit, lookup_hit, erase_hit, lookup_miss, erase_miss, total-append,
}

-- The size of each file is that of its contents, and no two files have the same name.
abbrev pub Tidy : Cells → Type 0
Tidy [] = Unit
Tidy ((p, f) ∷ xs) = (f.used_memory ≡ length f.buffer) × (has_name f.filename xs ≡ false) × Tidy xs

-- The files are tidy and within the two limits.
pub record Stored (files memory : ℕ) (xs : Cells) : Type 0 where
  pub tidy : Tidy xs
  pub few : length xs ≤ files
  pub small : total xs ≤ memory

pub equal_names_sym : (a b : Name) → equal_names a b ≡ equal_names b a
equal_names_sym a b = elim (Bool-cases (equal_names a b)) [
  | inl y ↦ rw ((equal_names_iff a b).0 y) refl
  | inr n ↦ elim (Bool-cases (equal_names b a)) [
    | inl y ↦ rw ((equal_names_iff b a).0 y) refl
    | inr o ↦ n ∙ sym o
  ]
]

pub has_name-append :
    (n : Name) (xs ys : Cells) → has_name n (xs ++ ys) ≡ (has_name n xs || has_name n ys)
has_name-append n [] ys = refl
has_name-append n (x ∷ xs) ys = ground (arith, has_name-append n xs ys)

-- A file in the middle of the list put first.
Tidy-front : (xs : Cells) (c : Ptr × File) (ys : Cells) → Tidy (xs ++ c ∷ ys) → Tidy (c ∷ xs ++ ys)
Tidy-front [] c ys t = t
Tidy-front (x ∷ xs) c ys (flushed, new, rest) =
    let (flushed', new', rest') = Tidy-front xs c ys rest in
    let s = equal_names_sym x.1.filename c.1.filename in
    let a = has_name-append x.1.filename xs ys in
    let b = has_name-append x.1.filename xs (c ∷ ys) in
    (flushed', ground arith, (flushed, ground arith, rest'))

-- Part of a list of files.
pub Tidy-part : (xs ys : Cells) → Tidy (xs ++ ys) → Tidy xs
Tidy-part [] ys t = tt
Tidy-part (x ∷ xs) ys (flushed, new, rest) =
    let a = has_name-append x.1.filename xs ys in (flushed, ground arith, Tidy-part xs ys rest)

-- A file changed at its place, its name kept.
pub Tidy-change :
    (xs : Cells) (c d : Ptr × File) (ys : Cells)
    → d.1.filename ≡ c.1.filename
    → d.1.used_memory ≡ length d.1.buffer
    → Tidy (xs ++ c ∷ ys)
    → Tidy (xs ++ d ∷ ys)
Tidy-change [] c d ys e h (flushed, new, rest) =
    (h, subst (λ n. has_name n ys ≡ false) (sym e) new, rest)
Tidy-change (x ∷ xs) c d ys e h (flushed, new, rest) =
    let a = has_name-append x.1.filename xs (c ∷ ys) in
    let b = has_name-append x.1.filename xs (d ∷ ys) in
    let s = ap (λ n. equal_names n x.1.filename) e in
    (flushed, ground arith, Tidy-change xs c d ys e h rest)

module _ {files memory : ℕ} where
  Stored-front :
      (xs : Cells) (c : Ptr × File) (ys : Cells)
      → Stored files memory (xs ++ c ∷ ys)
      → Stored files memory (c ∷ xs ++ ys)
  Stored-front xs c ys k = record {
    tidy = Tidy-front xs c ys k.tidy;
    few = omega (arith, k.few, length-append xs (c ∷ ys), length-append xs ys);
    small = omega (arith, k.small, total-append xs (c ∷ ys), total-append xs ys);
  }

  pub Stored-tail :
      {c : Ptr × File} {xs : Cells} → Stored files memory (c ∷ xs) → Stored files memory xs
  Stored-tail {c} {xs} k =
      let (flushed, new, rest) = k.tidy in
      record { tidy = rest; few = omega (arith, k.few); small = omega (arith, k.small) }

  -- A file changed at its place, its name and its contents kept.
  pub Stored-mark :
      (xs : Cells) (c d : Ptr × File) (ys : Cells)
      → d.1.filename ≡ c.1.filename
      → d.1.used_memory ≡ c.1.used_memory
      → d.1.used_memory ≡ length d.1.buffer
      → Stored files memory (xs ++ c ∷ ys)
      → Stored files memory (xs ++ d ∷ ys)
  Stored-mark xs c d ys e u h k = record {
    tidy = Tidy-change xs c d ys e h k.tidy;
    few = omega (arith, k.few, length-append xs (c ∷ ys), length-append xs (d ∷ ys));
    small = omega (arith, k.small, total-append xs (c ∷ ys), total-append xs (d ∷ ys), u);
  }

pub Tidy-flushed :
    (xs : Cells) (c : Ptr × File) (ys : Cells)
    → Tidy (xs ++ c ∷ ys)
    → c.1.used_memory ≡ length c.1.buffer
Tidy-flushed [] c ys (flushed, new, rest) = flushed
Tidy-flushed (x ∷ xs) c ys (flushed, new, rest) = Tidy-flushed xs c ys rest

-- The first file of a name is moved to the front.
pub moved :
    (n : Name) (xs : Cells) (y : has_name n xs ≡ true)
    → after_use lru n xs ≡ (hit n xs y).cell ∷ (hit n xs y).before ++ (hit n xs y).after
moved n xs y =
    let h = hit n xs y in
    ap (after_use lru n) h.parts
    ∙ rw
        (
          lookup_hit n h.before h.cell h.after h.new h.same,
          erase_hit n h.before h.cell h.after h.new h.same,
        )
        refl

-- The files after a use, after a removal, and with the first file of a name changed.
module _ {files memory : ℕ} (n : Name) where
  pub Stored-after_use :
      (policy : Policy) (xs : Cells)
      → Stored files memory xs
      → Stored files memory (after_use policy n xs)
  Stored-after_use fifo xs k = k
  Stored-after_use lru xs k = elim (Bool-cases (has_name n xs)) [
    | inl y ↦
        let h = hit n xs y in
        subst (Stored files memory) (sym (moved n xs y))
          (Stored-front h.before h.cell h.after (subst (Stored files memory) h.parts k))
    | inr o ↦ rw (lookup_miss n xs o, erase_miss n xs o) k
  ]

  pub Stored-erase : (xs : Cells) → Stored files memory xs → Stored files memory (erase n xs)
  Stored-erase xs k = elim (Bool-cases (has_name n xs)) [
    | inl y ↦
        let h = hit n xs y in
        let gone = ap (erase n) h.parts ∙ erase_hit n h.before h.cell h.after h.new h.same in
        subst (Stored files memory) (sym gone) (
          Stored-tail
            (Stored-front h.before h.cell h.after (subst (Stored files memory) h.parts k)))
    | inr o ↦ rw (erase_miss n xs o) k
  ]

pub total-after_use :
    (n : Name) (policy : Policy) (xs : Cells) → total (after_use policy n xs) ≡ total xs
total-after_use n fifo xs = refl
total-after_use n lru xs = elim (Bool-cases (has_name n xs)) [
  | inl y ↦
      let h = hit n xs y in
      let c = h.cell in
      ap total (moved n xs y)
      ∙ omega (
        arith,
        ap total h.parts,
        total-append h.before (c ∷ h.after),
        total-append h.before h.after,
      )
  | inr o ↦ rw (lookup_miss n xs o, erase_miss n xs o) refl
]
