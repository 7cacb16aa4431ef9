-- ===== src/Server/Worker/View.antt =====
-- The cache as a client sees it: what each name stands for, whatever the order of the files and their
-- places in the heap.
use progetto_sol_unipi.Base.{
  ℕ, ◌≡◌, refl, sym, subst, ap, ◌∙◌, ◌⊎◌, inl, inr, Bool-cases, Bool, true, false, List, Option,
  none, some, [], ◌∷◌, ◌++◌, arith, if◌then◌else◌,
}
use progetto_sol_unipi.Memory.State.{Ptr, Name, Policy, fifo, lru, File}
use progetto_sol_unipi.Memory.Names.{equal_names, equal_names_iff}
use progetto_sol_unipi.Memory.Chain.{Cells}
use progetto_sol_unipi.Memory.Cache.{has_name, erase, after_use, hit, lookup_miss, erase_miss}
use progetto_sol_unipi.Server.Worker.Open.{open_first}
use progetto_sol_unipi.Server.Worker.Close.{close_first}
use progetto_sol_unipi.Server.Worker.Finish.{append_first}
use progetto_sol_unipi.Server.Worker.Stored.{Tidy, moved, equal_names_sym}

-- What a name stands for: the contents of its file, and whether it is open.
pub record Content : Type 0 where
  pub contents : List ℕ
  pub is_open : Bool

abbrev pub Store : Type 0
Store = Name → Option Content

abbrev pub content : File → Content
content f = record { contents = f.buffer; is_open = f.is_open }

abbrev pub view : Cells → Store
view [] k = none
view ((p, f) ∷ xs) k =
    let rest = view xs k in if equal_names f.filename k then some (content f) else rest

-- The operations on what the names stand for.
abbrev pub on_content : (Content → Content) → Option Content → Option Content
on_content g none = none
on_content g (some c) = some (g c)

abbrev pub change : Name → (Content → Content) → Store → Store
change n g v k = if equal_names n k then on_content g (v k) else v k

abbrev pub drop : Name → Store → Store
drop n v k = if equal_names n k then none else v k

abbrev pub create : Name → Store → Store
create n v k = if equal_names n k then some (record { contents = []; is_open = true }) else v k

abbrev pub opens : Content → Content
opens c = record c { is_open = true }

abbrev pub closes : Content → Content
closes c = record c { is_open = false }

abbrev pub appends : List ℕ → Content → Content
appends m c = record c { contents = c.contents ++ m }

same_name : (a n k : Name) → equal_names a n ≡ true → equal_names a k ≡ equal_names n k
same_name a n k e = ap (λ b. equal_names b k) ((equal_names_iff a n).0 e)

other_name :
    (a n k : Name) → equal_names a n ≡ false → (equal_names a k ≡ false) ⊎ (equal_names n k ≡ false)
other_name a n k o = elim (Bool-cases (equal_names a k)) [
  | inl y ↦
      inr (ap (λ b. equal_names n b) (sym ((equal_names_iff a k).0 y)) ∙ equal_names_sym n a ∙ o)
  | inr z ↦ inl z
]

module _ (n k : Name) where
  pub view-open_first : (xs : Cells) → view (open_first n xs) k ≡ change n opens (view xs) k
  view-open_first [] = grind arith
  view-open_first ((p, f) ∷ xs) = elim (Bool-cases (equal_names f.filename n)) [
    | inl y ↦ let e = same_name f.filename n k y in ground arith
    | inr o ↦ let e = view-open_first xs in let d = other_name f.filename n k o in ground arith
  ]

  pub view-close_first : (xs : Cells) → view (close_first n xs) k ≡ change n closes (view xs) k
  view-close_first [] = grind arith
  view-close_first ((p, f) ∷ xs) = elim (Bool-cases (equal_names f.filename n)) [
    | inl y ↦ let e = same_name f.filename n k y in ground arith
    | inr o ↦ let e = view-close_first xs in let d = other_name f.filename n k o in ground arith
  ]

  pub view-append_first :
      (m : List ℕ) (xs : Cells) → view (append_first n m xs) k ≡ change n (appends m) (view xs) k
  view-append_first m [] = grind arith
  view-append_first m ((p, f) ∷ xs) = elim (Bool-cases (equal_names f.filename n)) [
    | inl y ↦ let e = same_name f.filename n k y in ground arith
    | inr o ↦ let e = view-append_first m xs in let d = other_name f.filename n k o in ground arith
  ]

  pub view_miss : (xs : Cells) → has_name n xs ≡ false → equal_names n k ≡ true → view xs k ≡ none
  view_miss [] h e = refl
  view_miss ((p, f) ∷ xs) h e =
      let ih = view_miss xs in
      let d = ap (λ b. equal_names f.filename b) (sym ((equal_names_iff n k).0 e)) in ground arith

  pub view-erase : (xs : Cells) → Tidy xs → view (erase n xs) k ≡ drop n (view xs) k
  view-erase [] t = grind arith
  view-erase ((p, f) ∷ xs) (flushed, new, rest) = elim (Bool-cases (equal_names f.filename n)) [
    | inl y ↦
        let e = same_name f.filename n k y in
        let gone : equal_names n k ≡ true → view xs k ≡ none =
          view_miss xs
            (subst (λ b. has_name b xs ≡ false) ((equal_names_iff f.filename n).0 y) new) in
        elim (Bool-cases (equal_names n k)) [
          | inl z ↦ let g = gone z in ground arith
          | inr z ↦ ground arith
        ]
    | inr o ↦ let e = view-erase xs rest in let d = other_name f.filename n k o in ground arith
  ]

  -- A use of a file moves it, and no more.
  view_middle :
      (xs : Cells) (c : Ptr × File) (ys : Cells)
      → has_name c.1.filename xs ≡ false
      → view (c ∷ xs ++ ys) k ≡ view (xs ++ c ∷ ys) k
  view_middle [] c ys h = refl
  view_middle (x ∷ xs) c ys h =
      let e = view_middle xs c ys in
      let d : (equal_names x.1.filename k ≡ false) ⊎ (equal_names c.1.filename k ≡ false) =
        other_name x.1.filename c.1.filename k (ground arith) in
      ground arith

  pub view-after_use : (policy : Policy) (xs : Cells) → view (after_use policy n xs) k ≡ view xs k
  view-after_use fifo xs = refl
  view-after_use lru xs = elim (Bool-cases (has_name n xs)) [
    | inl y ↦
        let h = hit n xs y in
        let new : has_name h.cell.1.filename h.before ≡ false =
          subst (λ b. has_name b h.before ≡ false)
            (sym ((equal_names_iff h.cell.1.filename n).0 h.same)) h.new in
        ap (λ l. view l k) (moved n xs y)
        ∙ view_middle h.before h.cell h.after new
        ∙ ap (λ l. view l k) (sym h.parts)
    | inr o ↦ rw (lookup_miss n xs o, erase_miss n xs o) refl
  ]

  -- Of a part of the files, a name stands for what it did, or for nothing.
  pub view_part : (kept gone : Cells) → (view kept k ≡ view (kept ++ gone) k) ⊎ (view kept k ≡ none)
  view_part [] gone = inr refl
  view_part ((p, f) ∷ kept) gone = let e = view_part kept gone in ground arith
