-- ===== src/Memory/Chain/Links.antt =====
-- Files at addresses, and the chains that their `next` pointers make.
use progetto_sol_unipi.Base.{
  ℕ, ◌+◌, ◌≡◌, ◌≢◌, Bool, true, false, ◌||◌, Option, some, List, [], ◌∷◌, arith, ◌==◌,
}
use progetto_sol_unipi.Base.Command.{ok}
use progetto_sol_unipi.Memory.State.{
  Ptr, null, File, FileMemory, Heap, Server, write, load, set_file, set_next, set_prev,
}

-- What the list stands for: the address and the contents of each file, in order.
abbrev pub Cells : Type 0
Cells = List (Ptr × File)

abbrev pub owns : Ptr → Cells → Bool
owns a [] = false
owns a ((p, _) ∷ xs) = (a == p) || owns a xs

-- The sum of `usedMemory`.
abbrev pub total : Cells → ℕ
total [] = 0
total ((_, f) ∷ xs) = f.used_memory + total xs

abbrev pub Apart : Cells → Cells → Type 0
Apart xs ys = (a : Ptr) → owns a xs ≡ true → owns a ys ≡ false

-- The heaps agree at the addresses that are not in `xs`.
abbrev pub SameOutside : Cells → Heap → Heap → Type 0
SameOutside xs h g = (a : Ptr) → owns a xs ≡ false → g a ≡ h a

abbrev pub link : File → Ptr → Ptr → Option FileMemory
link g r b = some (record { file = g; next = r; prev = b })

-- `p` holds the file `f`, linked to `q`; the field `prev` is never read.
pub record Points (h : Heap) (p : Ptr) (f : File) (q : Ptr) : Type 0 where
  pub ne_null : p ≢ null
  pub back : Ptr
  pub holds : h p ≡ some (record { file = f; next = q; prev = back })

-- From `p` the `next` pointers lead through the distinct addresses of `xs` to `stop`.
pub data Chain (h : Heap) (stop : Ptr) : Ptr → Cells → Type 0 where
  nil : Chain h stop stop []
  cons :
      {p q : Ptr} {f : File} {xs : Cells}
      → Points h p f q
      → owns p xs ≡ false
      → Chain h stop q xs
      → Chain h stop p ((p, f) ∷ xs)

abbrev pub with_heap : Server → Heap → Server
with_heap s h = record s { heap = h }

pub write_self : (h : Heap) (p : Ptr) (c : Option FileMemory) → write h p c p ≡ c
unfolding write
write_self h p c = ground arith

module _ {h : Heap} {p q : Ptr} {f : File} (at : Points h p f q) where
  pub not_null : (p == null) ≡ false
  not_null = let n = at.ne_null in ground arith

  pub Points-write_ne : (a : Ptr) (c : Option FileMemory) → p ≢ a → Points (write h a c) p f q
  unfolding write
  Points-write_ne a c n = record {
    ne_null = at.ne_null;
    back = at.back;
    holds = let e = at.holds in ground arith;
  }

  pub Points-write_self : (g : File) (r b : Ptr) → Points (write h p (link g r b)) p g r
  unfolding write
  Points-write_self g r b = record { ne_null = at.ne_null; back = b; holds = ground arith }

module _ (s : Server) {p q : Ptr} {f : File} (at : Points s.heap p f q) where
  pub load_lem : load p s ≡ ok (record { file = f; next = q; prev = at.back }) s
  unfolding load
  load_lem = rw (not_null at, at.holds)

  pub set_next_lem :
      (r : Ptr)
      → set_next p r s
        ≡ ok tt
            (with_heap s (write s.heap p (some (record { file = f; next = r; prev = at.back }))))
  unfolding set_next
  set_next_lem r = rw load_lem

  pub set_prev_lem :
      (b : Ptr)
      → set_prev p b s
        ≡ ok tt (with_heap s (write s.heap p (some (record { file = f; next = q; prev = b }))))
  unfolding set_prev
  set_prev_lem b = rw load_lem

  pub set_file_lem :
      (g : File → File)
      → set_file p g s
        ≡ ok tt
            (with_heap s (write s.heap p (some (record { file = g f; next = q; prev = at.back }))))
  unfolding set_file
  set_file_lem g = rw load_lem
