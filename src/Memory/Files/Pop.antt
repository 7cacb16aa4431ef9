-- ===== src/Memory/Files/Pop.antt =====
-- `pop_from_tail`, `pop_from_head` and `free_file` against the list of files.
use progetto_sol_unipi.Base.{
  ℕ, zero, suc, ◌+◌, ◌<◌, ◌≡◌, ◌≢◌, refl, sym, subst, true, false, [], ◌∷◌, ◌++◌, none, arith, ◌==◌,
  length, length-append,
}
use progetto_sol_unipi.Base.Command.{ok, Returns, returns, if_false, Returns-if_false}
use progetto_sol_unipi.Base.Word.{sub32, sub64}
use progetto_sol_unipi.Memory.State.{Ptr, null, File, Heap, Server, write}
use progetto_sol_unipi.Memory.Chain.{
  Cells, owns, total, SameOutside, Points, Chain, nil, link, with_heap, Chain-uncons, Chain-split,
  Chain-nil, Chain-not_null, Chain-write, Chain-relink, Apart-lone, SameOutside-write, owns-append,
  owns-middle, owns-front, last_address, last_address-snoc, snoc_view, not_null, load_lem,
  set_next_lem, set_prev_lem, Points-write_self, Points-write_ne,
}
use progetto_sol_unipi.Memory.Cache.{Holds, total-append}
use progetto_sol_unipi.Memory.Files.{
  last_loop, unlink_last, pop_from_tail, pop_from_head, free_file,
}

-- What taking a file off the list leaves as it is.
pub record Unchanged (s t : Server) : Type 0 where
  pub max_memory : t.max_memory ≡ s.max_memory
  pub max_files : t.max_files ≡ s.max_files
  pub alg_trigger : t.alg_trigger ≡ s.alg_trigger
  pub max_recv_file : t.max_recv_file ≡ s.max_recv_file
  pub max_used_memory : t.max_used_memory ≡ s.max_used_memory
  pub errno : t.errno ≡ s.errno

-- The file at `c` has been taken off: the list is `xs`, and the file is still allocated.
pub record Popped (s : Server) (old xs : Cells) (c : Ptr × File) (r : Ptr) (t : Server)
    : Type 0 where
  pub result : r ≡ c.0
  pub holds : Holds t xs
  pub at : Points t.heap c.0 c.1 null
  pub alone : owns c.0 xs ≡ false
  pub unchanged : Unchanged s t
  pub outside : SameOutside old s.heap t.heap

-- The counters after `discount`.
abbrev discounted : Server → Heap → Ptr → ℕ → Server
discounted s h p used = record s {
  n_current_file = sub32 s.n_current_file 1;
  n_current_memory_used = sub64 s.n_current_memory_used used;
  heap = h;
  memory = p;
}

Chain-snoc_not_null :
    {h : Heap} {p : Ptr} (xs : Cells) (c : Ptr × File)
    → Chain h null p (xs ++ c ∷ [])
    → (p == null) ≡ false
Chain-snoc_not_null [] c ch = Chain-not_null ch
Chain-snoc_not_null (x ∷ xs) c ch = Chain-not_null ch

module _ (s : Server) where
  Holds-discounted :
      (old xs : Cells) (c : Ptr × File) (h : Heap) (p : Ptr)
      → Holds s old
      → length old ≡ suc (length xs)
      → total old ≡ total xs + c.1.used_memory
      → Chain h null p xs
      → Holds (discounted s h p c.1.used_memory) xs
  Holds-discounted old xs c h p i e e' ch = record {
    chain = ch;
    files = omega arith;
    used = omega arith;
    few = omega arith;
    small = omega arith;
  }

  Popped-discounted :
      (old xs : Cells) (c : Ptr × File) (h : Heap) (p : Ptr)
      → Holds s old
      → length old ≡ suc (length xs)
      → total old ≡ total xs + c.1.used_memory
      → Chain h null p xs
      → Points h c.0 c.1 null
      → owns c.0 xs ≡ false
      → SameOutside old s.heap h
      → Popped s old xs c c.0 (discounted s h p c.1.used_memory)
  Popped-discounted old xs c h p i e e' ch at alone same = record {
    result = refl;
    holds = Holds-discounted old xs c h p i e e' ch;
    at = at;
    alone = alone;
    unchanged = record {
      max_memory = refl;
      max_files = refl;
      alg_trigger = refl;
      max_recv_file = refl;
      max_used_memory = refl;
      errno = refl;
    };
    outside = same;
  }

  last_loop_lem :
      (ys : Cells) (c : Ptr × File) (k : ℕ) (prev : Ptr) {cursor : Ptr}
      → Chain s.heap null cursor (ys ++ c ∷ [])
      → length ys < k
      → last_loop k prev cursor s ≡ ok (last_address prev ys, c.0) s
  unfolding last_loop
  last_loop_lem ys c zero prev ch fuel = absurd (omega arith)
  last_loop_lem [] c (suc k) prev ch fuel =
      let (q, e, at, out, rest) = Chain-uncons ch in
      rw (e, not_null at, load_lem s at, Chain-nil rest)
  last_loop_lem (y ∷ ys) c (suc k) prev ch fuel =
      let (q, e, at, out, rest) = Chain-uncons ch in
      rw (e, not_null at, load_lem s at)
        (if_false _ _ _ (Chain-snoc_not_null ys c rest)
          (last_loop_lem ys c k y.0 rest (omega arith)))

  -- The last of two files or more is unlinked from the one before it.
  unlink_last-Popped :
      (ys : Cells) (d c : Ptr × File)
      → Holds s ((ys ++ d ∷ []) ++ c ∷ [])
      → Returns (Popped s ((ys ++ d ∷ []) ++ c ∷ []) (ys ++ d ∷ []) c) (unlink_last d.0 c.0 s)
  unfolding unlink_last
  unlink_last-Popped ys d c h =
      let (mid, front, back, apart) = Chain-split (ys ++ d ∷ []) h.chain in
      let (q, e, at', out, rest) = Chain-uncons back in
      let at : Points s.heap c.0 c.1 null = subst (Points s.heap c.0 c.1) (Chain-nil rest) at' in
      let front' = subst (λ t. Chain s.heap t s.memory (ys ++ d ∷ [])) e front in
      let (last, relinked) = Chain-relink ys d null front' in
      let alone = Apart-lone (ys ++ d ∷ []) c [] apart in
      let o = owns-append c.0 ys (d ∷ []) in
      let ne : c.0 ≢ d.0 = ground (arith, o) in
      let h1 = write s.heap d.0 (link d.1 null last.back) in
      let at1 : Points h1 c.0 c.1 null = Points-write_ne at d.0 _ ne in
      let h2 = write h1 c.0 (link c.1 null null) in
      let at2 : Points h2 c.0 c.1 null = Points-write_self at1 c.1 null null in
      let h3 = write h2 c.0 (link c.1 null at2.back) in
      let old = (ys ++ d ∷ []) ++ c ∷ [] in
      let own_c : owns c.0 old ≡ true = owns-middle (ys ++ d ∷ []) c [] in
      let own_d : owns d.0 old ≡ true =
        owns-front d.0 (ys ++ d ∷ []) (c ∷ []) (owns-middle ys d []) in
      rw (load_lem s at, not_null last)
        (rw
          (
            set_next_lem s last null,
            set_prev_lem (with_heap s h1) at1 null,
            set_next_lem (with_heap s h2) at2 null,
          )
          (returns (
            Popped-discounted old (ys ++ d ∷ []) c h3 s.memory h
              (omega (arith, length-append (ys ++ d ∷ []) (c ∷ [])))
              (omega (arith, total-append (ys ++ d ∷ []) (c ∷ [])))
              (Chain-write c.0 _ (Chain-write c.0 _ relinked alone) alone)
              (Points-write_self at2 c.1 null at2.back) alone
              (SameOutside-write old _ _ c.0 _ own_c (
                SameOutside-write old _ _ c.0 _ own_c
                  (SameOutside-write old s.heap s.heap d.0 _ own_d λ b i. refl))))))

-- On a list that is not empty `pop_from_tail` ends, answers the last file, and takes it off the
-- list; the count of files and the memory in use are those of the files that are left, in the old
-- order, and the file itself is still in the heap, linked to nothing.
pub pop_from_tail-Popped :
    (s : Server) (xs : Cells) (c : Ptr × File)
    → Holds s (xs ++ c ∷ [])
    → Returns (Popped s (xs ++ c ∷ []) xs c) (pop_from_tail s)
unfolding pop_from_tail
pop_from_tail-Popped s [] c h =
    let (q, e, at, out, rest) = Chain-uncons h.chain in
    let at' : Points s.heap c.0 c.1 null = subst (Points s.heap c.0 c.1) (Chain-nil rest) at in
    let here : Points s.heap s.memory c.1 null =
      subst (λ t. Points s.heap t c.1 null) (sym e) at' in
    let p =
      Popped-discounted s (c ∷ []) [] c s.heap null h refl (omega arith) nil at' refl λ b i. refl in
    rw (not_null here, load_lem s here)
      (returns (record {
        result = e;
        holds = p.holds;
        at = p.at;
        alone = p.alone;
        unchanged = p.unchanged;
        outside = p.outside;
      }))
pop_from_tail-Popped s (x ∷ xs) c h =
    let (q, e, at, out, rest) = Chain-uncons h.chain in
    let here : Points s.heap s.memory x.1 q = subst (λ t. Points s.heap t x.1 q) (sym e) at in
    let (ys, d, parts) = snoc_view x xs in
    rw (not_null here, load_lem s here)
      (Returns-if_false _ _ _ (Chain-snoc_not_null xs c rest) (
        rw
          (last_loop_lem s (x ∷ xs) c (s.n_current_file + 1) s.memory h.chain
            (omega (arith, h.files, length-append (x ∷ xs) (c ∷ []))))
          (subst
            (λ t.
              Returns (Popped s (t ++ c ∷ []) t c) (unlink_last (last_address s.memory t) c.0 s))
            (sym parts)
            (subst
              (λ b.
                Returns (Popped s ((ys ++ d ∷ []) ++ c ∷ []) (ys ++ d ∷ []) c)
                  (unlink_last b c.0 s))
              (sym (last_address-snoc s.memory ys d))
              (unlink_last-Popped s ys d c (subst (λ t. Holds s (t ++ c ∷ [])) parts h))))))

module _ (s : Server) (f : File) where
  -- The links of the first file are cleared.
  cleared :
      (q : Ptr) (xs : Cells)
      → Holds s ((s.memory, f) ∷ xs)
      → Points s.heap s.memory f q
      → owns s.memory xs ≡ false
      → Chain s.heap null q xs
      → (b : Ptr)
      → Popped s
          ((s.memory, f) ∷ xs)
          xs
          (s.memory, f)
          s.memory
          (discounted s
            (write (write s.heap s.memory (link f null b)) s.memory (link f null null))
            q
            f.used_memory)
  cleared q xs h at out rest b =
      let at1 = Points-write_self at f null b in
      let own = owns-middle [] (s.memory, f) xs in
      Popped-discounted s ((s.memory, f) ∷ xs) xs (s.memory, f) _ q h refl (omega arith)
        (Chain-write s.memory _ (Chain-write s.memory _ rest out) out)
        (Points-write_self at1 f null null) out
        (SameOutside-write ((s.memory, f) ∷ xs) _ _ s.memory _ own
          (SameOutside-write ((s.memory, f) ∷ xs) s.heap s.heap s.memory _ own λ a i. refl))

  pop_first :
      (xs : Cells)
      → Holds s ((s.memory, f) ∷ xs)
      → Returns (Popped s ((s.memory, f) ∷ xs) xs (s.memory, f)) (pop_from_head s)
  unfolding pop_from_head
  pop_first [] h =
      let (q, e, at', out, rest) = Chain-uncons h.chain in
      let at : Points s.heap s.memory f null =
        subst (Points s.heap s.memory f) (Chain-nil rest) at' in
      let at1 : Points (write s.heap s.memory (link f null at.back)) s.memory f null =
        Points-write_self at f null at.back in
      let s' = discounted s s.heap null f.used_memory in
      rw (not_null at, load_lem s at)
        (rw (set_next_lem s' at null, set_prev_lem (with_heap s' _) at1 null)
          (returns (cleared null [] h at out nil at.back)))
  pop_first (x ∷ xs) h =
      let (q, e, at, out, rest) = Chain-uncons h.chain in
      let at1 : Points (write s.heap s.memory (link f null at.back)) s.memory f null =
        Points-write_self at f null at.back in
      let s' = record s { memory = q } in
      rw (not_null at, load_lem s at)
        (Returns-if_false _ _ _ (Chain-not_null rest) (
          rw (set_next_lem s' at null, set_prev_lem (with_heap s' _) at1 null)
            (returns (cleared q (x ∷ xs) h at out rest at.back))))

-- On a list that is not empty `pop_from_head` ends, answers the first file, and takes it off the
-- list; the count of files and the memory in use are those of the files that are left, in the old
-- order, and the file itself is still in the heap, linked to nothing.
pub pop_from_head-Popped :
    (s : Server) (c : Ptr × File) (xs : Cells)
    → Holds s (c ∷ xs)
    → Returns (Popped s (c ∷ xs) xs c) (pop_from_head s)
pop_from_head-Popped s (a, f) xs h =
    let (q, e, at, out, rest) = Chain-uncons h.chain in
    subst (λ t. Returns (Popped s ((t, f) ∷ xs) xs (t, f)) (pop_from_head s)) e
      (pop_first s f xs (subst (λ t. Holds s ((t, f) ∷ xs)) (sym e) h))

-- On the empty list both answer null and change nothing.
pub pop_empty :
    (s : Server) → Holds s [] → (pop_from_tail s ≡ ok null s) × (pop_from_head s ≡ ok null s)
unfolding pop_from_tail pop_from_head
pop_empty s h =
    let e : (s.memory == null) ≡ true = let n = Chain-nil h.chain in ground arith in (rw e, rw e)

-- `free_file` of a file that is allocated.
pub free_file_lem :
    (s : Server) {c : Ptr × File} {q : Ptr}
    → Points s.heap c.0 c.1 q
    → free_file c.0 s ≡ ok tt (with_heap s (write s.heap c.0 none))
unfolding free_file
free_file_lem s at = rw (not_null at, load_lem s at)
