-- ===== src/Memory/Evict/Admit.antt =====
-- `is_action_legal` and `cache_algorithm` against the list of files.
use progetto_sol_unipi.Base.{
  ℕ, ◌+◌, ◌^◌, ◌<◌, ◌≤◌, ◌≡◌, ◌≢◌, refl, ap, ◌⊎◌, inl, inr, Bool, true, false, ◌||◌, none, [], ◌∷◌,
  ◌++◌, arith, ltb, if◌then◌else◌, Bool-cases, length,
}
use native.Mathlib.Decide.{dec_le}
use progetto_sol_unipi.Base.Command.{ok}
use progetto_sol_unipi.Base.Word.{u32, add32, add64, extend}
use progetto_sol_unipi.Memory.State.{Ptr, File, Server, ecanceled, e2big}
use progetto_sol_unipi.Memory.Chain.{Cells, owns, total, SameOutside}
use progetto_sol_unipi.Memory.Cache.{Holds}
use progetto_sol_unipi.Memory.Evict.{is_action_legal, cache_algorithm}

-- A server whose files are `xs`, with limits and contents in the range in which the `int` casts of
-- `cache_algorithm` lose nothing.
pub record Sound (s : Server) (xs : Cells) : Type 0 where
  pub holds : Holds s xs
  pub max_files : s.max_files < 2 ^ 31
  pub max_memory : s.max_memory < 2 ^ 31
  pub total_small : total xs < 2 ^ 31

pub Sound-errno : {s : Server} {xs : Cells} (e : ℕ) → Sound s xs → Sound (record s { errno = e }) xs
Sound-errno e i =
    let h = i.holds in
    record {
      holds = record {
        chain = h.chain;
        files = h.files;
        used = h.used;
        few = h.few;
        small = h.small;
      };
      max_files = i.max_files;
      max_memory = i.max_memory;
      total_small = i.total_small;
    }

-- The state after a positive answer: the two maxima are raised.
abbrev pub admitted : Server → (files memory : ℕ) → Server
admitted s files memory = record s {
  max_used_memory = if ltb s.max_used_memory memory then u32 memory else s.max_used_memory;
  max_recv_file = if ltb s.max_recv_file files then files else s.max_recv_file;
}

abbrev pub over_limits : Server → Cells → (files memory : ℕ) → Bool
over_limits s xs files memory =
    ltb s.max_memory (total xs + memory) || ltb s.max_files (length xs + files)

-- The first half of a list, and its last `k` files.
pub cut :
    (k : ℕ) (xs : Cells)
    → k ≤ length xs
    → (ys : Cells) × (zs : Cells) × (xs ≡ ys ++ zs) × (length zs ≡ k)
cut k [] h = ([], [], refl, omega arith)
cut k (x ∷ xs) h = elim (dec_le k (length xs)) [
  | yes p ↦ let (ys, zs, e, n) = cut k xs p in (x ∷ ys, zs, ap (◌∷◌ x) e, n)
  | no p ↦ ([], x ∷ xs, refl, omega arith)
]

module _ (s : Server) (files memory : ℕ) (few : files < 2 ^ 31) (small : memory < 2 ^ 31) where
  pub is_action_legal_lem :
      {xs : Cells}
      → Sound s xs
      → is_action_legal files (u32 memory) s ≡ (
          if over_limits s xs files memory
          then ok false s
          else ok true (admitted s (length xs + files) (total xs + memory)))
  unfolding is_action_legal
  is_action_legal_lem {xs} i =
      let h = i.holds in
      let m : add64 s.n_current_memory_used (extend (u32 memory)) ≡ total xs + memory =
        ground arith in
      let n : add32 s.n_current_file files ≡ length xs + files = omega arith in
      rw (m, n) (elim (Bool-cases (over_limits s xs files memory)) [ inl y ↦ rw y | inr o ↦ rw o ])

-- The outcome of a call of `cache_algorithm` that could make room: a part of the files, the most
-- recent ones, is kept; the others are freed; both limits hold of what is kept and what is to come;
-- and no file has gone that could have stayed.
pub record Room (files memory : ℕ) (s : Server) (xs : Cells) (t : Server) : Type 0 where
  pub kept : Cells
  pub gone : Cells
  pub parts : xs ≡ kept ++ gone
  pub holds : Holds t kept
  pub freed : (a : Ptr) → owns a gone ≡ true → t.heap a ≡ none
  pub outside : SameOutside xs s.heap t.heap
  pub max_files : t.max_files ≡ s.max_files
  pub max_memory : t.max_memory ≡ s.max_memory
  pub error : t.errno ≢ e2big
  pub files_fit : length kept + files ≤ s.max_files
  pub memory_fits : total kept + memory ≤ s.max_memory
  pub needed :
      (gone ≡ [])
      ⊎ ((c : Ptr × File) × (rest : Cells) × (gone ≡ c ∷ rest)
          × (s.max_files < length kept + 1 + files
              ⊎ s.max_memory < total kept + c.1.used_memory + memory))

module _ (s : Server) (files memory : ℕ) (few : files < 2 ^ 31) (small : memory < 2 ^ 31) where
  -- Where both limits leave room for what is asked, and all numbers are below 2 ^ 31, nothing is
  -- dropped: the two maxima are raised to what will be in use, and `errno` is `ECANCELED`.
  pub cache_algorithm-legal :
      {xs : Cells}
      → Sound s xs
      → total xs + memory ≤ s.max_memory
      → length xs + files ≤ s.max_files
      → cache_algorithm files memory s
        ≡ ok tt (record (admitted s (length xs + files) (total xs + memory)) { errno = ecanceled })
  unfolding cache_algorithm
  cache_algorithm-legal {xs} i m n =
      let under : over_limits s xs files memory ≡ false = ground arith in
      rw (
        is_action_legal_lem (record s { errno = 0 }) files memory few small (Sound-errno 0 i),
        under,
      )

  -- A request below 2 ^ 31 that is itself above a limit sets `E2BIG` and changes nothing else.
  pub cache_algorithm-too_big :
      {xs : Cells}
      → Sound s xs
      → (s.max_files < files) ⊎ (s.max_memory < memory)
      → cache_algorithm files memory s ≡ ok tt (record s { errno = e2big })
  unfolding cache_algorithm
  cache_algorithm-too_big {xs} i big =
      let over : over_limits s xs files memory ≡ true = ground arith in
      let refuse : (ltb s.max_files files || ltb s.max_memory memory) ≡ true = ground arith in
      rw (
        is_action_legal_lem (record s { errno = 0 }) files memory few small (Sound-errno 0 i),
        over,
        refuse,
      )
