-- ===== src/Memory/Evict/Drop.antt =====
-- Files dropped from the tail of the list: taken off it and freed.
use progetto_sol_unipi.Base.{
  ℕ, zero, suc, ◌≡◌, refl, sym, subst, inl, inr, true, [], ◌∷◌, ◌++◌, append-nil, append_assoc, ap,
  ◌∙◌, none, arith, Bool-cases, length, length-append,
}
use progetto_sol_unipi.Base.Command.{Returns, returns, Returns-bind, Returns-mono}
use progetto_sol_unipi.Memory.State.{Ptr, File, Server, write}
use progetto_sol_unipi.Memory.Chain.{
  Cells, owns, SameOutside, with_heap, Chain-split, Chain-write, SameOutside-write, owns-append,
  owns-middle, snoc_view,
}
use progetto_sol_unipi.Memory.Cache.{Holds}
use progetto_sol_unipi.Memory.Files.Pop.{Popped, pop_from_tail-Popped, free_file_lem}
use progetto_sol_unipi.Memory.Evict.{file_loop}

-- The limits and `errno` are as before.
pub record Limits (s t : Server) : Type 0 where
  pub max_memory : t.max_memory ≡ s.max_memory
  pub max_files : t.max_files ≡ s.max_files
  pub errno : t.errno ≡ s.errno

-- `kept` is still there, in the old order; `gone`, the older part, has been freed.
pub record Evicted (s : Server) (kept gone : Cells) (t : Server) : Type 0 where
  pub holds : Holds t kept
  pub freed : (a : Ptr) → owns a gone ≡ true → t.heap a ≡ none
  pub outside : SameOutside (kept ++ gone) s.heap t.heap
  pub limits : Limits s t

pub Evicted-refl : {s : Server} (xs : Cells) → Holds s xs → Evicted s xs [] s
Evicted-refl {s} xs h = record {
  holds = h;
  freed = λ a i. absurd (ground arith);
  outside = λ a i. refl;
  limits = record { max_memory = refl; max_files = refl; errno = refl };
}

-- More of the tail goes.
pub Evicted-trans :
    {s u t : Server} (xs ys zs : Cells)
    → Holds s ((xs ++ ys) ++ zs)
    → Evicted s (xs ++ ys) zs u
    → Evicted u xs ys t
    → Evicted s xs (ys ++ zs) t
Evicted-trans {s} {u} {t} xs ys zs h first later =
    let (mid, front, back, apart) = Chain-split (xs ++ ys) h.chain in
    record {
      holds = later.holds;
      freed = λ a i. elim (Bool-cases (owns a ys)) [
        | inl y ↦ later.freed a y
        | inr n ↦
            let o = owns-append a ys zs in
            let z : owns a zs ≡ true = ground arith in
            let k = apart a in later.outside a (ground (arith, k)) ∙ first.freed a z
      ];
      outside = λ a i.
          let o = owns-append a xs (ys ++ zs) in
          let o' = owns-append a ys zs in
          let p = owns-append a (xs ++ ys) zs in
          let p' = owns-append a xs ys in
          later.outside a (ground arith) ∙ first.outside a (ground arith);
      limits =
          let a = first.limits in
          let b = later.limits in
          record {
            max_memory = b.max_memory ∙ a.max_memory;
            max_files = b.max_files ∙ a.max_files;
            errno = b.errno ∙ a.errno;
          };
    }

-- A file that has been popped and is then freed.
pub Evicted-of_Popped :
    {s t : Server} (xs : Cells) (c : Ptr × File) {r : Ptr}
    → Popped s (xs ++ c ∷ []) xs c r t
    → Evicted s xs (c ∷ []) (with_heap t (write t.heap c.0 none))
unfolding write
Evicted-of_Popped xs c p =
    let h = p.holds in
    let u = p.unchanged in
    record {
      holds = record {
        chain = Chain-write c.0 none h.chain p.alone;
        files = h.files;
        used = h.used;
        few = h.few;
        small = h.small;
      };
      freed = λ a i. ground arith;
      outside = SameOutside-write (xs ++ c ∷ []) _ _ c.0 none (owns-middle xs c []) p.outside;
      limits = record { max_memory = u.max_memory; max_files = u.max_files; errno = u.errno };
    }

-- The loop over files drops the last `k` of the list.
pub file_loop-Evicted :
    (k : ℕ) (s : Server) (xs ys : Cells)
    → length ys ≡ k
    → Holds s (xs ++ ys)
    → Returns (λ _ t. Evicted s xs ys t) (file_loop k s)
unfolding file_loop
file_loop-Evicted zero s xs [] e h = returns (Evicted-refl xs (subst (Holds s) (append-nil xs) h))
file_loop-Evicted zero s xs (y ∷ ys) e h = absurd (omega arith)
file_loop-Evicted (suc k) s xs [] e h = absurd (omega arith)
file_loop-Evicted (suc k) s xs (y ∷ ys) e h =
    let (zs, c, parts) = snoc_view y ys in
    let regroup : xs ++ y ∷ ys ≡ (xs ++ zs) ++ c ∷ [] =
      ap (◌++◌ xs) parts ∙ sym (append_assoc xs zs (c ∷ [])) in
    let h' = subst (Holds s) regroup h in
    Returns-bind (pop_from_tail-Popped s (xs ++ zs) c h') λ r t p. rw p.result (
      rw (free_file_lem t p.at) (
        Returns-mono
          (file_loop-Evicted k (with_heap t (write t.heap c.0 none)) xs zs
            (omega (arith, ap length parts, length-append zs (c ∷ [])))
            (Evicted-of_Popped (xs ++ zs) c p).holds)
          λ _ u later.
            subst (λ l. Evicted s xs l u) (sym parts)
              (Evicted-trans xs zs (c ∷ []) h' (Evicted-of_Popped (xs ++ zs) c p) later)))
