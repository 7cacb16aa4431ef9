-- ===== src/Memory/Find/Found.antt =====
-- `find_file` against the list of files.
use progetto_sol_unipi.Base.{
  ℕ, zero, suc, ◌+◌, ◌<◌, ◌≡◌, refl, sym, subst, inl, inr, true, false, some, [], ◌∷◌, ◌++◌, arith,
  Bool-cases, if◌then◌else◌, length, length-append,
}
use progetto_sol_unipi.Base.Command.{Cmd, pure, ◌>>◌, Returns, returns, Returns-mono, if_false}
use progetto_sol_unipi.Memory.State.{Ptr, Name, Policy, fifo, lru, File, Server, enoent}
use progetto_sol_unipi.Memory.Names.{equal_names, equal_names_iff}
use progetto_sol_unipi.Memory.Chain.{
  Cells, total, SameOutside, Points, Chain, Chain-uncons, Chain-split, Chain-nil, not_null,
  load_lem,
}
use progetto_sol_unipi.Memory.Cache.{
  has_name, has_name_hit, Steady-same, lookup, address, after_use, Holds, Steady, Hit, hit,
  lookup_hit, erase_hit, lookup_miss, erase_miss, total-append,
}
use progetto_sol_unipi.Memory.Find.{policy_routine, find_loop, find_file}
use progetto_sol_unipi.Memory.Find.Search.{in_mem_lem}
use progetto_sol_unipi.Memory.Find.Front.{Relinks, policy_routine-Relinks, fifo_keeps}

-- The outcome of a search: the address of the first file with the name, or null with `ENOENT`; the
-- order of the files after the use; and nothing else changed.
pub record Found (s : Server) (n : Name) (policy : Policy) (xs : Cells) (r : Ptr) (t : Server)
    : Type 0 where
  pub found : r ≡ address (lookup n xs)
  pub holds : Holds t (after_use policy n xs)
  pub steady : Steady s t
  pub error : t.errno ≡ (if has_name n xs then 0 else enoent)
  pub outside : SameOutside xs s.heap t.heap

pub Holds-errno : {s : Server} {xs : Cells} (e : ℕ) → Holds s xs → Holds (record s { errno = e }) xs
Holds-errno e h = record {
  chain = h.chain;
  files = h.files;
  used = h.used;
  few = h.few;
  small = h.small;
}

module _ (s : Server) where
  find_loop_lem :
      (n : Name) (policy : Policy) (ys : Cells) {a q : Ptr} {f : File}
      → Points s.heap a f q
      → equal_names f.filename n ≡ true
      → has_name n ys ≡ false
      → (k : ℕ) {cursor : Ptr} → Chain s.heap a cursor ys
      → length ys < k
      → find_loop k cursor n policy s ≡ (policy_routine policy a >> pure a) s
  unfolding find_loop
  find_loop_lem n policy ys at same new zero c fuel = absurd (omega arith)
  find_loop_lem n policy [] at same new (suc k) c fuel =
      rw (Chain-nil c, not_null at, load_lem s at, same)
  find_loop_lem n policy ((b, g) ∷ ys) at same new (suc k) c fuel =
      let (r, e, here, out, rest) = Chain-uncons c in
      let miss : equal_names g.filename n ≡ false = ground arith in
      rw (e, not_null here, load_lem s here)
        (if_false _ _ _ miss
          (find_loop_lem n policy ys at same (ground arith) k rest (omega arith)))

  Found-of_Relinks :
      (n : Name) (policy : Policy) {a : Ptr} {f : File} {xs new : Cells} {p : Ptr}
      (routine : Cmd Server (Unit {0}))
      → Holds s xs
      → s.errno ≡ 0
      → Relinks s xs p new (routine s)
      → new ≡ after_use policy n xs
      → (length new ≡ length xs) × (total new ≡ total xs)
      → (lookup n xs ≡ some (a, f)) × (has_name n xs ≡ true)
      → Returns (Found s n policy xs) ((routine >> pure a) s)
  Found-of_Relinks n policy {a} {f} {xs} {new} {p} routine h e (g, run, ch, same) order sizes
        (at, named) =
      rw run (
        returns (record {
          found = rw at;
          holds = subst (Holds (record s { heap = g; memory = p })) order (record {
            chain = ch;
            files = omega arith;
            used = omega arith;
            few = omega arith;
            small = omega arith;
          });
          steady = Steady-same s g p s.errno;
          error = rw named e;
          outside = same;
        }))

  -- The use of a file that the search has found.
  use_file :
      (n : Name) (policy : Policy) (ys : Cells) (a : Ptr) (f : File) (zs : Cells)
      → Holds s (ys ++ (a, f) ∷ zs)
      → has_name n ys ≡ false
      → equal_names f.filename n ≡ true
      → s.errno ≡ 0
      → Returns (Found s n policy (ys ++ (a, f) ∷ zs)) ((policy_routine policy a >> pure a) s)
  use_file n fifo ys a f zs h new same e =
      Found-of_Relinks n fifo (policy_routine fifo a) h e
        (s.heap, fifo_keeps s a, h.chain, λ b i. refl) refl (refl, refl)
        (lookup_hit n ys (a, f) zs new same, has_name_hit n ys (a, f) zs same)
  use_file n lru ys a f zs h new same e =
      Found-of_Relinks n lru (policy_routine lru a) h e
        (policy_routine-Relinks s ys a f zs h.chain h.files
          (rw ((equal_names_iff f.filename n).0 same) new))
        (rw (lookup_hit n ys (a, f) zs new same, erase_hit n ys (a, f) zs new same))
        (
          omega (arith, length-append ys ((a, f) ∷ zs), length-append ys zs),
          omega (arith, total-append ys ((a, f) ∷ zs), total-append ys zs),
        )
        (lookup_hit n ys (a, f) zs new same, has_name_hit n ys (a, f) zs same)

  find_present :
      (n : Name) (policy : Policy) {xs : Cells}
      → Holds s xs
      → s.errno ≡ 0
      → Hit n xs
      → Returns (Found s n policy xs) (find_loop (s.n_current_file + 1) s.memory n policy s)
  find_present n policy {xs} h e r =
      let (a, f) = r.cell in
      let h' = subst (Holds s) r.parts h in
      let (mid, front, back, apart) = Chain-split r.before h'.chain in
      let (q, at_a, at, out, rest) = Chain-uncons back in
      let front' = subst (λ t. Chain s.heap t s.memory r.before) at_a front in
      rw (r.parts) (
        rw
          (find_loop_lem n policy r.before at r.same r.new (s.n_current_file + 1) front'
            (omega (arith, h'.files, length-append r.before (r.cell ∷ r.after))))
          (use_file n policy r.before r.cell.0 r.cell.1 r.after h' r.new r.same e))

-- A search does not depend on the value that `errno` had before.
Found-errno :
    {s t : Server} {n : Name} {policy : Policy} {xs : Cells} {r : Ptr} (e : ℕ)
    → Found (record s { errno = e }) n policy xs r t
    → Found s n policy xs r t
Found-errno e f = record {
  found = f.found;
  holds = f.holds;
  steady =
      let k = f.steady in
      record {
        n_current_memory_used = k.n_current_memory_used;
        max_memory = k.max_memory;
        n_current_file = k.n_current_file;
        max_files = k.max_files;
        alg_trigger = k.alg_trigger;
        max_recv_file = k.max_recv_file;
        max_used_memory = k.max_used_memory;
      };
  error = f.error;
  outside = f.outside;
}

pub after_use_miss :
    (n : Name) (policy : Policy) (xs : Cells) → has_name n xs ≡ false → after_use policy n xs ≡ xs
after_use_miss n fifo xs o = refl
after_use_miss n lru xs o = rw (lookup_miss n xs o, erase_miss n xs o)

-- On a list of files `find_file` ends, and answers with the first file of that name; under LRU it
-- puts the file first and keeps the order of the others, under FIFO it keeps the order; for a
-- missing name it answers null and sets `ENOENT`. The counters, the limits and the rest of the heap
-- stay.
pub find_file-Found :
    (s : Server) (n : Name) (policy : Policy) {xs : Cells}
    → Holds s xs
    → Returns (Found s n policy xs) (find_file (some n) policy s)
unfolding find_file
find_file-Found s n policy {xs} h =
    let s0 = record s { errno = 0 } in
    let h0 = Holds-errno 0 h in
    elim (Bool-cases (has_name n xs)) [
      | inl y ↦
          rw (in_mem_lem s0 n h0, y)
            (Returns-mono (find_present s0 n policy h0 refl (hit n xs y)) λ r t f. Found-errno 0 f)
      | inr o ↦
          rw (in_mem_lem s0 n h0, o)
            (returns (record {
              found = rw (lookup_miss n xs o);
              holds =
                  subst (Holds (record s { errno = enoent })) (sym (after_use_miss n policy xs o))
                    (Holds-errno enoent h);
              steady = Steady-same s s.heap s.memory enoent;
              error = rw o;
              outside = λ b i. refl;
            }))
    ]
