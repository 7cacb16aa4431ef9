-- ===== src/Memory/Files/Add.antt =====
-- `create_file` and `add_file_to_memory` against the list of files.
use progetto_sol_unipi.Base.{
  ◌+◌, ◌<◌, ◌^◌, ◌≡◌, ◌≢◌, refl, sym, subst, inl, inr, true, false, [], ◌∷◌, arith, ltb, ◌==◌,
  Bool-cases, if◌then◌else◌, length,
}
use progetto_sol_unipi.Base.Command.{ok, Returns, returns, Returns-mono}
use progetto_sol_unipi.Base.Word.{add32}
use progetto_sol_unipi.Memory.State.{Ptr, null, Name, File, Heap, Server, write, eexist, max_name}
use progetto_sol_unipi.Memory.Chain.{
  Cells, owns, SameOutside, Points, Chain, nil, cons, link, with_heap, Chain-uncons, Chain-write,
  SameOutside-write, not_null, load_lem, set_next_lem, set_prev_lem, Points-write_self,
  Points-write_ne,
}
use progetto_sol_unipi.Memory.Cache.{has_name, Holds}
use progetto_sol_unipi.Memory.Find.Search.{in_mem_lem}
use progetto_sol_unipi.Memory.Find.Found.{Holds-errno}
use progetto_sol_unipi.Memory.Files.{Host, create_file, link_file, add_file_to_memory}

abbrev pub new_file : Name → File
new_file n = record { buffer = []; used_memory = 0; filename = n; is_open = false }

-- A name of `MAXNAME` characters or more is refused; otherwise the new file stands alone at the
-- address that `malloc` gave, closed, empty, and in no list.
pub create_file_lem :
    (host : Host) (n : Name) (s : Server)
    → host.malloc ≢ null
    → (host.open_memstream ≡ true) × (host.mutex_init ≡ true)
    → create_file host n s ≡ (
        if ltb (length n) max_name
        then ok host.malloc (with_heap s (write s.heap host.malloc (link (new_file n) null null)))
        else ok null s)
unfolding create_file
create_file_lem host n s address (stream, mutex) =
    let m : (host.malloc == null) ≡ false = ground arith in
    elim (Bool-cases (ltb (length n) max_name)) [ inl y ↦ rw (y, m, stream, mutex) | inr o ↦ rw o ]

-- `f`, at the address `p`, has become the first file.
pub record Added (s : Server) (xs : Cells) (p : Ptr) (f : File) (r : Ptr) (t : Server)
    : Type 0 where
  pub result : r ≡ p
  pub holds : Holds t ((p, f) ∷ xs)
  pub max_memory : t.max_memory ≡ s.max_memory
  pub max_files : t.max_files ≡ s.max_files
  pub outside : SameOutside ((p, f) ∷ xs) s.heap t.heap

module _ (s : Server) (p : Ptr) (f : File) (empty : f.used_memory ≡ 0)
    (at : Points s.heap p f null) where
  Added-linked :
      (xs : Cells) (h : Heap)
      → Holds s xs
      → length xs + 1 < 2 ^ 31
      → Chain h null p ((p, f) ∷ xs)
      → SameOutside ((p, f) ∷ xs) s.heap h
      → Added s xs p f p
          (record s { n_current_file = add32 s.n_current_file 1; heap = h; memory = p })
  Added-linked xs h i few ch same = record {
    result = refl;
    holds = record {
      chain = ch;
      files = omega arith;
      used = omega arith;
      few = omega arith;
      small = omega arith;
    };
    max_memory = refl;
    max_files = refl;
    outside = same;
  }

  -- The head insertion into a list that is not empty.
  link_before :
      (g : File) (xs : Cells)
      → Holds s ((s.memory, g) ∷ xs)
      → length ((s.memory, g) ∷ xs) + 1 < 2 ^ 31
      → owns p ((s.memory, g) ∷ xs) ≡ false
      → Returns (Added s ((s.memory, g) ∷ xs) p f) (link_file p s)
  unfolding link_file
  link_before g xs h few new =
      let (q, e, head, out, rest) = Chain-uncons h.chain in
      let some_yet : (s.n_current_file == 0) ≡ false = let n = h.files in ground arith in
      let b = s.memory in
      let ne : b ≢ p = ground arith in
      let s' = record s { memory = p } in
      let at1 = Points-write_self at f null null in
      let h1 = write s.heap p (link f null null) in
      let at2 = Points-write_self at1 f b at1.back in
      let h2 = write h1 p (link f b at1.back) in
      let head1 : Points h1 b g q = Points-write_ne head p _ ne in
      let head2 : Points h2 b g q = Points-write_ne head1 p _ ne in
      let h3 = write h2 b (link g q p) in
      let p_new : owns p xs ≡ false = ground arith in
      let old = (p, f) ∷ (b, g) ∷ xs in
      let tail =
        Chain-write b (link g q p)
          (Chain-write p (link f b at1.back) (Chain-write p (link f null null) rest p_new) p_new)
          out in
      let same = SameOutside-write old s.heap h2 b (link g q p) (ground arith) (
        SameOutside-write old s.heap h1 p (link f b at1.back) (ground arith)
          (SameOutside-write old s.heap s.heap p (link f null null) (ground arith) λ a i. refl)) in
      rw some_yet (
        rw
          (
            set_prev_lem s' at null,
            set_next_lem (with_heap s' h1) at1 b,
            set_prev_lem (with_heap s' h2) head2 p,
          )
          (returns (
            Added-linked ((b, g) ∷ xs) h3 h few
              (cons (Points-write_ne at2 b _ (λ x. ne (sym x))) new
                (cons (Points-write_self head2 g q p) out tail))
              same)))

  link_file-Added :
      (xs : Cells)
      → Holds s xs
      → length xs + 1 < 2 ^ 31
      → owns p xs ≡ false
      → Returns (Added s xs p f) (link_file p s)
  unfolding link_file
  link_file-Added [] h few new =
      let none_yet : (s.n_current_file == 0) ≡ true = let e = h.files in ground arith in
      rw none_yet (returns (Added-linked [] s.heap h few (cons at refl nil) λ a i. refl))
  link_file-Added ((b, g) ∷ xs) h few new =
      let (q, e, head, out, rest) = Chain-uncons h.chain in
      subst (λ t. Returns (Added s ((t, g) ∷ xs) p f) (link_file p s)) e
        (link_before g xs (subst (λ t. Holds s ((t, g) ∷ xs)) (sym e) h) few
          (subst (λ t. owns p ((t, g) ∷ xs) ≡ false) (sym e) new))

-- A new, empty file that is not in the list is put first, and answered, if no file has its name and
-- the count has room; if one has, the answer is null, `errno` is `EEXIST`, and nothing else
-- changes.
pub add_file_to_memory-Added :
    (s : Server) (p : Ptr) (f : File) {xs : Cells}
    → f.used_memory ≡ 0
    → Points s.heap p f null
    → owns p xs ≡ false
    → Holds s xs
    → length xs + 1 < 2 ^ 31
    → Returns
        (λ r t.
          if has_name f.filename xs
          then (r ≡ null) × (t ≡ record s { errno = eexist })
          else Added s xs p f r t)
        (add_file_to_memory p s)
unfolding add_file_to_memory
add_file_to_memory-Added s p f {xs} empty at new h few =
    let s0 = record s { errno = 0 } in
    elim (Bool-cases (has_name f.filename xs)) [
      | inl y ↦
          rw (not_null at, load_lem s0 at)
            (rw (in_mem_lem s0 f.filename (Holds-errno 0 h), y) (returns (refl, refl)))
      | inr o ↦
          rw (not_null at, load_lem s0 at)
            (rw (in_mem_lem s0 f.filename (Holds-errno 0 h), o)
              (Returns-mono (link_file-Added s0 p f empty at xs (Holds-errno 0 h) few new) λ r t a.
                record {
                  result = a.result;
                  holds = a.holds;
                  max_memory = a.max_memory;
                  max_files = a.max_files;
                  outside = a.outside;
                }))
    ]
