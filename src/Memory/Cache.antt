-- ===== src/Memory/Cache.antt =====
-- What the list of memory.c stands for: the files, most recent first, and the invariant that ties
-- them to the heap and to the two counters.
use progetto_sol_unipi.Base.{
  ℕ, ◌+◌, ◌<◌, ◌^◌, ◌≡◌, refl, ap, inl, inr, Bool, true, false, ◌||◌, Option, none, some, [], ◌∷◌,
  ◌++◌, arith, Bool-cases, if◌then◌else◌, length,
}
use progetto_sol_unipi.Memory.State.{Ptr, null, Name, Policy, fifo, lru, File, Heap, Server}
use progetto_sol_unipi.Memory.Names.{equal_names}
use progetto_sol_unipi.Memory.Chain.{Cells, total, Chain}

-- The search by name: the first file that has it.
abbrev pub has_name : Name → Cells → Bool
has_name n [] = false
has_name n ((_, f) ∷ xs) = equal_names f.filename n || has_name n xs

abbrev pub lookup : Name → Cells → Option (Ptr × File)
lookup n [] = none
lookup n ((p, f) ∷ xs) = if equal_names f.filename n then some (p, f) else lookup n xs

abbrev pub address : Option (Ptr × File) → Ptr
address none = null
address (some (p, _)) = p

-- Drops the first file that has the name.
abbrev pub erase : Name → Cells → Cells
erase n [] = []
erase n ((p, f) ∷ xs) = if equal_names f.filename n then xs else (p, f) ∷ erase n xs

abbrev pub push_found : Option (Ptr × File) → Cells → Cells
push_found none xs = xs
push_found (some c) xs = c ∷ xs

-- The order of the files after a use of one of them: under LRU it comes first.
abbrev pub after_use : Policy → Name → Cells → Cells
after_use fifo n xs = xs
after_use lru n xs = push_found (lookup n xs) (erase n xs)

pub record Holds (s : Server) (xs : Cells) : Type 0 where
  pub chain : Chain s.heap null s.memory xs
  pub files : s.n_current_file ≡ length xs
  pub used : s.n_current_memory_used ≡ total xs
  pub few : length xs < 2 ^ 31
  pub small : total xs < 2 ^ 63

-- What a search leaves as it is: all but the order, the links and `errno`.
pub record Steady (s t : Server) : Type 0 where
  pub n_current_memory_used : t.n_current_memory_used ≡ s.n_current_memory_used
  pub max_memory : t.max_memory ≡ s.max_memory
  pub n_current_file : t.n_current_file ≡ s.n_current_file
  pub max_files : t.max_files ≡ s.max_files
  pub alg_trigger : t.alg_trigger ≡ s.alg_trigger
  pub max_recv_file : t.max_recv_file ≡ s.max_recv_file
  pub max_used_memory : t.max_used_memory ≡ s.max_used_memory

pub Steady-same :
    (s : Server) (h : Heap) (p : Ptr) (e : ℕ)
    → Steady s (record s { heap = h; memory = p; errno = e })
Steady-same s h p e = record {
  n_current_memory_used = refl;
  max_memory = refl;
  n_current_file = refl;
  max_files = refl;
  alg_trigger = refl;
  max_recv_file = refl;
  max_used_memory = refl;
}

-- A list that holds the name is cut at the first file that has it.
pub record Hit (n : Name) (xs : Cells) : Type 0 where
  pub before : Cells
  pub cell : Ptr × File
  pub after : Cells
  pub parts : xs ≡ before ++ cell ∷ after
  pub new : has_name n before ≡ false
  pub same : equal_names cell.1.filename n ≡ true

pub hit : (n : Name) (xs : Cells) → has_name n xs ≡ true → Hit n xs
hit n [] h = absurd (ground arith)
hit n (c ∷ xs) h = elim (Bool-cases (equal_names c.1.filename n)) [
  | inl y ↦ record { before = []; cell = c; after = xs; parts = refl; new = refl; same = y }
  | inr o ↦
      let r = hit n xs (ground arith) in
      record {
        before = c ∷ r.before;
        cell = r.cell;
        after = r.after;
        parts = ap (◌∷◌ c) r.parts;
        new = let e = r.new in ground arith;
        same = r.same;
      }
]

module _ (n : Name) where
  pub lookup_hit :
      (xs : Cells) (c : Ptr × File) (ys : Cells)
      → has_name n xs ≡ false
      → equal_names c.1.filename n ≡ true
      → lookup n (xs ++ c ∷ ys) ≡ some c
  lookup_hit [] c ys h e = ground arith
  lookup_hit (x ∷ xs) c ys h e = ground (arith, lookup_hit xs c ys)

  pub has_name_hit :
      (xs : Cells) (c : Ptr × File) (ys : Cells)
      → equal_names c.1.filename n ≡ true
      → has_name n (xs ++ c ∷ ys) ≡ true
  has_name_hit [] c ys e = ground arith
  has_name_hit (x ∷ xs) c ys e = ground (arith, has_name_hit xs c ys)

  pub erase_hit :
      (xs : Cells) (c : Ptr × File) (ys : Cells)
      → has_name n xs ≡ false
      → equal_names c.1.filename n ≡ true
      → erase n (xs ++ c ∷ ys) ≡ xs ++ ys
  erase_hit [] c ys h e = ground arith
  erase_hit (x ∷ xs) c ys h e = ground (arith, erase_hit xs c ys)

  pub lookup_miss : (xs : Cells) → has_name n xs ≡ false → lookup n xs ≡ none
  lookup_miss [] h = refl
  lookup_miss (x ∷ xs) h = ground (arith, lookup_miss xs)

  pub erase_miss : (xs : Cells) → has_name n xs ≡ false → erase n xs ≡ xs
  erase_miss [] h = refl
  erase_miss (x ∷ xs) h = ground (arith, erase_miss xs)

pub total-append : (xs ys : Cells) → total (xs ++ ys) ≡ total xs + total ys
total-append [] ys = omega arith
total-append (x ∷ xs) ys = omega (arith, total-append xs ys)
