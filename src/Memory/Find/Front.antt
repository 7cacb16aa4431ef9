-- ===== src/Memory/Find/Front.antt =====
-- `policy_routine` and the relinking of the list.
use progetto_sol_unipi.Base.{
  ℕ, zero, suc, ◌+◌, ◌<◌, ◌≡◌, ◌≢◌, refl, sym, subst, true, false, [], ◌∷◌, ◌++◌, arith, length,
  length-append,
}
use progetto_sol_unipi.Base.Command.{Run, ok, if_false}
use progetto_sol_unipi.Memory.State.{Ptr, null, Name, fifo, lru, File, Heap, Server, write}
use progetto_sol_unipi.Memory.Names.{equal_names, equal_names_refl}
use progetto_sol_unipi.Memory.Chain.{
  Cells, owns, Apart, SameOutside, Points, Chain, cons, link, with_heap, Chain-uncons, Chain-split,
  Chain-append, Chain-write, Chain-relink, Chain-nil, Apart-lone, owns-append, last_address,
  last_address-snoc, snoc_view, not_null, load_lem, set_next_lem, Points-write_self,
  Points-write_ne,
}
use progetto_sol_unipi.Memory.Cache.{has_name}
use progetto_sol_unipi.Memory.Find.{position_loop, move_to_head, policy_routine}

-- A run that changes the links and the head of the list only.
abbrev pub Relinks : Server → Cells → Ptr → Cells → Run Server (Unit {0}) → Type 0
Relinks s old p new r =
    (h : Heap) × (r ≡ ok tt (record s { heap = h; memory = p }))
    × Chain h null p new
    × SameOutside old s.heap h

module _ (ys : Cells) (c : Ptr × File) (a : Ptr) (f : File) (zs : Cells) where
  last-ne : Apart (ys ++ c ∷ []) ((a, f) ∷ zs) → (a ≢ c.0) × (owns c.0 zs ≡ false)
  last-ne apart =
      let k = apart c.0 in
      let o = owns-append c.0 ys (c ∷ []) in (ground (arith, k, o), ground (arith, k, o))

module _ (s : Server) where
  position_loop_lem :
      (n : Name) (ys : Cells) {a q : Ptr} {f : File}
      → Points s.heap a f q
      → equal_names f.filename n ≡ true
      → has_name n ys ≡ false
      → (k : ℕ) (prev : Ptr) {cursor : Ptr} → Chain s.heap a cursor ys
      → length ys < k
      → position_loop k prev cursor n s ≡ ok (last_address prev ys, a) s
  unfolding position_loop
  position_loop_lem n ys at same new zero prev c fuel = absurd (omega arith)
  position_loop_lem n [] at same new (suc k) prev c fuel =
      rw (Chain-nil c, not_null at, load_lem s at, same)
  position_loop_lem n ((b, g) ∷ ys) at same new (suc k) prev c fuel =
      let (r, e, here, out, rest) = Chain-uncons c in
      let miss : equal_names g.filename n ≡ false = ground arith in
      rw (e, not_null here, load_lem s here)
        (if_false _ _ _ miss (position_loop_lem n ys at same (ground arith) k b rest (omega arith)))

  module _ (ys : Cells) (c : Ptr × File) {a : Ptr} {f : File} (zs : Cells) where
    -- `prev` is linked to the file behind `a`, and `a` to the old head.
    move_to_head_lem :
        Chain s.heap null s.memory ((ys ++ c ∷ []) ++ (a, f) ∷ zs)
        → Relinks s
            ((ys ++ c ∷ []) ++ (a, f) ∷ zs)
            a
            ((a, f) ∷ (ys ++ c ∷ []) ++ zs)
            (move_to_head c.0 a s)
    unfolding move_to_head write
    move_to_head_lem ch =
        let (mid, front, back, apart) = Chain-split (ys ++ c ∷ []) ch in
        let (q, e, at, out, rest) = Chain-uncons back in
        let front' = subst (λ t. Chain s.heap t s.memory (ys ++ c ∷ [])) e front in
        let (last, relinked) = Chain-relink ys c q front' in
        let h1 = write s.heap c.0 (link c.1 q last.back) in
        let lone = Apart-lone (ys ++ c ∷ []) (a, f) zs apart in
        let apart_new : owns a ((ys ++ c ∷ []) ++ zs) ≡ false =
          let o = owns-append a (ys ++ c ∷ []) zs in ground (arith, o) in
        let apart' : Apart (ys ++ c ∷ []) zs = λ b i. let k = apart b i in ground (arith, k) in
        let (ne, outside) = last-ne ys c a f zs apart in
        let at1 : Points h1 a f q = Points-write_ne at c.0 _ ne in
        let h2 = write h1 a (link f s.memory at1.back) in
        (
          h2,
          rw (load_lem s at, set_next_lem s last q, set_next_lem (with_heap s h1) at1 s.memory),
          cons (Points-write_self at1 f s.memory at1.back) apart_new (
              Chain-write a _ (Chain-append relinked (Chain-write c.0 _ rest outside) apart')
                apart_new),
          λ b i.
              let o = owns-append b (ys ++ c ∷ []) ((a, f) ∷ zs) in
              let o' = owns-append b ys (c ∷ []) in ground (arith, o, o'),
        )

  first-file :
      {a : Ptr} {f : File} {zs : Cells}
      → Chain s.heap null s.memory ((a, f) ∷ zs)
      → Relinks s ((a, f) ∷ zs) a ((a, f) ∷ zs) (policy_routine lru a s)
  unfolding policy_routine
  first-file {a} {f} {zs} ch =
      let (q, e, at, out, rest) = Chain-uncons ch in
      let here : Points s.heap s.memory f q = subst (λ t. Points s.heap t f q) (sym e) at in
      (
        s.heap,
        subst (λ t. policy_routine lru t s ≡ ok tt (record s { heap = s.heap; memory = t })) e
            (rw (not_null here, load_lem s here, load_lem s here, equal_names_refl f.filename)),
        subst (λ t. Chain s.heap null t ((a, f) ∷ zs)) e ch,
        λ b i. refl,
      )

  later-file :
      (x : Ptr × File) (ys : Cells) (a : Ptr) (f : File) (zs : Cells)
      → Chain s.heap null s.memory ((x ∷ ys) ++ (a, f) ∷ zs)
      → s.n_current_file ≡ length ((x ∷ ys) ++ (a, f) ∷ zs)
      → has_name f.filename (x ∷ ys) ≡ false
      → policy_routine lru a s ≡ move_to_head (last_address null (x ∷ ys)) a s
  unfolding policy_routine
  later-file x ys a f zs ch files new =
      let (mid, front, back, apart) = Chain-split (x ∷ ys) ch in
      let (q, e, at, out, rest) = Chain-uncons back in
      let (r, e', here, out', rest') = Chain-uncons front in
      let here' : Points s.heap s.memory x.1 r = subst (λ t. Points s.heap t x.1 r) (sym e') here in
      let miss : equal_names x.1.filename f.filename ≡ false = ground arith in
      let front' = subst (λ t. Chain s.heap t s.memory (x ∷ ys)) e front in
      rw (not_null at, load_lem s here', load_lem s at, miss)
        (rw (
          position_loop_lem f.filename (x ∷ ys) at (equal_names_refl f.filename) new
            (s.n_current_file + 1) null front'
            (omega (arith, length-append (x ∷ ys) ((a, f) ∷ zs)))))

  -- Under LRU the file comes first, and the others keep their order.
  pub policy_routine-Relinks :
      (ys : Cells) (a : Ptr) (f : File) (zs : Cells)
      → Chain s.heap null s.memory (ys ++ (a, f) ∷ zs)
      → s.n_current_file ≡ length (ys ++ (a, f) ∷ zs)
      → has_name f.filename ys ≡ false
      → Relinks s (ys ++ (a, f) ∷ zs) a ((a, f) ∷ ys ++ zs) (policy_routine lru a s)
  policy_routine-Relinks [] a f zs ch files new = first-file ch
  policy_routine-Relinks (x ∷ ys) a f zs ch files new =
      let (front, c, e) = snoc_view x ys in
      rw (later-file x ys a f zs ch files new) (
        subst
          (λ t.
            Relinks s (t ++ (a, f) ∷ zs) a ((a, f) ∷ t ++ zs)
              (move_to_head (last_address null t) a s))
          (sym e)
          (subst
            (λ b.
              Relinks s ((front ++ c ∷ []) ++ (a, f) ∷ zs) a ((a, f) ∷ (front ++ c ∷ []) ++ zs)
                (move_to_head b a s))
            (sym (last_address-snoc null front c))
            (move_to_head_lem front c zs
              (subst (λ t. Chain s.heap null s.memory (t ++ (a, f) ∷ zs)) e ch))))

  pub fifo_keeps : (a : Ptr) → policy_routine fifo a s ≡ ok tt s
  unfolding policy_routine
  fifo_keeps a = refl
