-- ===== src/Memory/Chain/Split.antt =====
-- Chains are taken apart, joined, and kept by writes elsewhere.
use progetto_sol_unipi.Base.{
  ◌≡◌, refl, sym, ap, subst, true, false, Option, [], ◌∷◌, ◌++◌, ◌||◌, ◌==◌, arith,
}
use mathlib.Core.Bool.{or_assoc}
use progetto_sol_unipi.Memory.State.{Ptr, null, File, FileMemory, Heap, write}
use progetto_sol_unipi.Memory.Chain.Links.{
  Cells, owns, Apart, SameOutside, Points, Chain, nil, cons, link, not_null, Points-write_self,
}

pub owns-append : (a : Ptr) (xs ys : Cells) → owns a (xs ++ ys) ≡ (owns a xs || owns a ys)
owns-append a [] ys = refl
owns-append a (x ∷ xs) ys = rw (owns-append a xs ys, or_assoc)

module _ {h : Heap} {stop : Ptr} where
  pub Chain-frame :
      {g : Heap} {p : Ptr} {xs : Cells}
      → Chain h stop p xs
      → ((a : Ptr) → owns a xs ≡ true → g a ≡ h a)
      → Chain g stop p xs
  Chain-frame nil same = nil
  Chain-frame (cons {p} at out c) same =
      let e = same p in
      cons
        (record {
          ne_null = at.ne_null;
          back = at.back;
          holds = let e' = at.holds in ground (arith, e);
        })
        out (Chain-frame c λ a i. same a (ground arith))

  pub Chain-write :
      {p : Ptr} {xs : Cells} (a : Ptr) (c : Option FileMemory)
      → Chain h stop p xs
      → owns a xs ≡ false
      → Chain (write h a c) stop p xs
  unfolding write
  Chain-write a c ch out = Chain-frame ch (ground arith)

  pub Chain-append :
      {mid p : Ptr} {xs ys : Cells}
      → Chain h mid p xs
      → Chain h stop mid ys
      → Apart xs ys
      → Chain h stop p (xs ++ ys)
  Chain-append nil d apart = d
  Chain-append {ys} (cons {p} {xs} at out c) d apart =
      cons at (let e = apart p in ground (arith, owns-append p xs ys, e))
        (Chain-append c d λ a i. apart a (ground arith))

  -- The head of a chain is the address of its first file.
  pub Chain-uncons :
      {p : Ptr} {x : Ptr × File} {xs : Cells}
      → Chain h stop p (x ∷ xs)
      → (q : Ptr) × (p ≡ x.0) × Points h x.0 x.1 q × (owns x.0 xs ≡ false) × Chain h stop q xs
  Chain-uncons (cons {q} at out c) = (q, refl, at, out, c)

  pub Chain-nil : {p : Ptr} → Chain h stop p [] → p ≡ stop
  Chain-nil nil = refl

  pub Chain-not_null :
      {p : Ptr} {x : Ptr × File} {xs : Cells} → Chain h stop p (x ∷ xs) → (p == null) ≡ false
  Chain-not_null (cons at out c) = not_null at

  pub Chain-split :
      (xs : Cells) {ys : Cells} {p : Ptr}
      → Chain h stop p (xs ++ ys)
      → (mid : Ptr) × Chain h mid p xs × Chain h stop mid ys × Apart xs ys
  Chain-split [] {p} c = (p, nil, c, λ a i. cc)
  Chain-split ((a, f) ∷ xs) {ys} c =
      let (q, e, at, out, rest) = Chain-uncons c in
      let (mid, front, back, apart) = Chain-split xs rest in
      let joint = owns-append a xs ys in
      (
        mid,
        subst (λ t. Chain h mid t ((a, f) ∷ xs)) (sym e) (cons at (ground (arith, joint)) front),
        back,
        λ b i. let later = apart b in ground (arith, joint, later),
      )

pub Apart-lone :
    (xs : Cells) (c : Ptr × File) (zs : Cells) → Apart xs (c ∷ zs) → owns c.0 xs ≡ false
Apart-lone xs c zs apart = let k = apart c.0 in ground (arith, k)

-- The address of the last file, or `p` if there is none.
abbrev pub last_address : Ptr → Cells → Ptr
last_address p [] = p
last_address p ((q, _) ∷ xs) = last_address q xs

pub last_address-snoc :
    (p : Ptr) (xs : Cells) (c : Ptr × File) → last_address p (xs ++ c ∷ []) ≡ c.0
last_address-snoc p [] c = refl
last_address-snoc p (x ∷ xs) c = last_address-snoc x.0 xs c

pub snoc_view :
    (x : Ptr × File) (xs : Cells) → (ys : Cells) × (y : Ptr × File) × (x ∷ xs ≡ ys ++ y ∷ [])
snoc_view x [] = ([], x, refl)
snoc_view x (x' ∷ xs) = let (ys, y, e) = snoc_view x' xs in (x ∷ ys, y, ap (◌∷◌ x) e)

module _ {h : Heap} {stop p : Ptr} where
  -- The last file of a segment is linked to another address.
  pub Chain-relink :
      (xs : Cells) (c : Ptr × File) (q : Ptr)
      → Chain h stop p (xs ++ c ∷ [])
      → (at : Points h c.0 c.1 stop) × Chain (write h c.0 (link c.1 q at.back)) q p (xs ++ c ∷ [])
  Chain-relink xs c q ch =
      let (mid, front, back, apart) = Chain-split xs ch in
      let (r, e, at, out, rest) = Chain-uncons back in
      let at' : Points h c.0 c.1 stop = subst (Points h c.0 c.1) (Chain-nil rest) at in
      let lone = Apart-lone xs c [] apart in
      (
        at',
        Chain-append (Chain-write c.0 _ (subst (λ t. Chain h t p xs) e front) lone)
            (cons (Points-write_self at' c.1 q at'.back) refl nil) apart,
      )

-- Writes to the files of a list stay within it.
pub SameOutside-write :
    (xs : Cells) (h g : Heap) (p : Ptr) (c : Option FileMemory)
    → owns p xs ≡ true
    → SameOutside xs h g
    → SameOutside xs h (write g p c)
unfolding write
SameOutside-write xs h g p c own same a i = let e = same a i in ground arith

pub owns-middle : (xs : Cells) (c : Ptr × File) (ys : Cells) → owns c.0 (xs ++ c ∷ ys) ≡ true
owns-middle xs c ys = let o = owns-append c.0 xs (c ∷ ys) in ground (arith, o)

pub owns-front : (a : Ptr) (xs ys : Cells) → owns a xs ≡ true → owns a (xs ++ ys) ≡ true
owns-front a xs ys i = let o = owns-append a xs ys in ground (arith, o)

module _ {h : Heap} {stop p : Ptr} where
  -- The contents of one file of the list are replaced.
  pub Chain-set_file :
      (ys : Cells) (a : Ptr) (f g : File) (zs : Cells)
      → Chain h stop p (ys ++ (a, f) ∷ zs)
      → (r : Ptr) × (at : Points h a f r) × Chain
          (write h a (link g r at.back))
          stop
          p
          (ys ++ (a, g) ∷ zs)
  Chain-set_file ys a f g zs ch =
      let (mid, front, back, apart) = Chain-split ys ch in
      let (r, e, at, out, rest) = Chain-uncons back in
      let lone = Apart-lone ys (a, f) zs apart in
      (
        r,
        at,
        Chain-append (Chain-write a _ (subst (λ t. Chain h t p ys) e front) lone)
            (cons (Points-write_self at g r at.back) out (Chain-write a _ rest out)) apart,
      )
