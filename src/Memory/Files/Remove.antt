-- ===== src/Memory/Files/Remove.antt =====
-- `remove_generic_file` against the list of files.
use progetto_sol_unipi.Base.{
  ℕ, ◌≡◌, refl, subst, ◌∙◌, inl, inr, true, false, [], ◌∷◌, none, some, arith, Bool-cases,
}
use progetto_sol_unipi.Base.Command.{Returns, returns, Returns-bind}
use progetto_sol_unipi.Memory.State.{Ptr, Name, lru, File, Heap, Server, write}
use progetto_sol_unipi.Memory.Names.{equal_names}
use progetto_sol_unipi.Memory.Chain.{
  Cells, owns, write_self, Points, Chain, with_heap, Chain-uncons, Chain-write, load_lem,
}
use progetto_sol_unipi.Memory.Cache.{has_name, lookup, erase, push_found, Holds}
use progetto_sol_unipi.Memory.Find.Search.{in_mem_lem}
use progetto_sol_unipi.Memory.Find.Found.{find_file-Found}
use progetto_sol_unipi.Memory.Files.{remove_generic_file}
use progetto_sol_unipi.Memory.Files.Pop.{pop_from_head-Popped, free_file_lem}

pub Chain-lookup :
    {h : Heap} {stop : Ptr} (n : Name) (xs : Cells) (c : Ptr × File) {p : Ptr}
    → Chain h stop p xs
    → lookup n xs ≡ some c
    → (q : Ptr) × Points h c.0 c.1 q
Chain-lookup n [] c ch e = absurd (ground arith)
Chain-lookup {h} n (x ∷ xs) c ch e =
    let (q, e', at, out, rest) = Chain-uncons ch in
    elim (Bool-cases (equal_names x.1.filename n)) [
      | inl y ↦
          let same : x ≡ c = (let e' : some x ≡ some c = rw y at e in cc) in
          (q, subst (λ t. Points h t.0 t.1 q) same at)
      | inr o ↦ Chain-lookup n xs c rest (ground arith)
    ]

pub has_name_of_lookup :
    (n : Name) (xs : Cells) (c : Ptr × File) → lookup n xs ≡ some c → has_name n xs ≡ true
has_name_of_lookup n [] c e = absurd (ground arith)
has_name_of_lookup n (x ∷ xs) c e = ground (arith, has_name_of_lookup n xs c)

-- What `free_file` does to a list that the freed file is not on.
pub Holds-free :
    {t : Server} {xs : Cells} (a : Ptr)
    → Holds t xs
    → owns a xs ≡ false
    → Holds (with_heap t (write t.heap a none)) xs
Holds-free a h out = record {
  chain = Chain-write a none h.chain out;
  files = h.files;
  used = h.used;
  few = h.few;
  small = h.small;
}

abbrev pub Removed : Server → Cells → Ptr → File → ℕ → Server → Type 0
Removed s xs p f r t =
    (r ≡ 1)
    × Holds t (erase f.filename xs)
    × (t.heap p ≡ none)
    × (t.max_files ≡ s.max_files)
    × (t.max_memory ≡ s.max_memory)

-- Where the file at `p` is the first of its name, `remove_generic_file` answers 1, takes it off the
-- list and frees it; the counters are those of the files that are left, which keep their order, and
-- the limits stay.
pub remove_generic_file-Removed :
    (s : Server) (p : Ptr) (f : File) {xs : Cells}
    → Holds s xs
    → lookup f.filename xs ≡ some (p, f)
    → Returns (Removed s xs p f) (remove_generic_file p s)
unfolding remove_generic_file
remove_generic_file-Removed s p f {xs} h e =
    let n = f.filename in
    let (q, at) = Chain-lookup n xs (p, f) h.chain e in
    rw (load_lem s at) (
      rw (in_mem_lem s n h, has_name_of_lookup n xs (p, f) e)
        (rw (load_lem s at) (
          Returns-bind (find_file-Found s n lru h) λ r u found.
            let listed = subst (λ o. Holds u (push_found o (erase n xs))) e found.holds in
            Returns-bind (pop_from_head-Popped u (p, f) (erase n xs) listed) λ r' t popped.
              rw popped.result (
                rw (free_file_lem t popped.at) (
                  returns (
                    refl,
                    Holds-free p popped.holds popped.alone,
                    write_self t.heap p none,
                    popped.unchanged.max_files ∙ found.steady.max_files,
                    popped.unchanged.max_memory ∙ found.steady.max_memory,
                  ))))))
