-- ===== src/Memory/Evict/Halves.antt =====
-- The two halves of the eviction in `cache_algorithm`: for files, then for memory.
use progetto_sol_unipi.Base.{
  ℕ, ◌+◌, ◌-◌, ◌^◌, ◌<◌, ◌≤◌, ◌≡◌, refl, sym, subst, ap, ◌⊎◌, inl, inr, Bool, true, false, not,
  ◌&&◌, [], ◌++◌, append-nil, arith, ltb, ltb→lt, ◌∙◌, Bool-cases, length, length-append,
}
use progetto_sol_unipi.Base.Command.{
  Returns, returns, Returns-mono, Returns-bind, Returns-if_true, Returns-if_false,
}
use progetto_sol_unipi.Base.Word.{
  u32, add32, add64, sub32, sub64, extend, is_positive32, is_positive64,
}
use progetto_sol_unipi.Memory.State.{Server}
use progetto_sol_unipi.Memory.Chain.{Cells, total}
use progetto_sol_unipi.Memory.Cache.{Holds}
use progetto_sol_unipi.Memory.Evict.{alg_counter, evict_files, evict_memory}
use progetto_sol_unipi.Memory.Evict.Drop.{Evicted, Evicted-refl, file_loop-Evicted}
use progetto_sol_unipi.Memory.Evict.Room.{Fits, memory_loop-Fits}
use progetto_sol_unipi.Memory.Evict.Admit.{Sound, cut}

-- The counter of evictions is not among what these predicates speak of.
Evicted-alg :
    {s t : Server} {kept gone : Cells} (n : ℕ)
    → Evicted (record s { alg_trigger = n }) kept gone t
    → Evicted s kept gone t
Evicted-alg n e =
    let l = e.limits in
    record {
      holds = e.holds;
      freed = e.freed;
      outside = e.outside;
      limits = record { max_memory = l.max_memory; max_files = l.max_files; errno = l.errno };
    }

Holds-alg : {s : Server} {xs : Cells} (n : ℕ) → Holds s xs → Holds (record s { alg_trigger = n }) xs
Holds-alg n h = record {
  chain = h.chain;
  files = h.files;
  used = h.used;
  few = h.few;
  small = h.small;
}

Fits-alg :
    {s t : Server} {memory limit : ℕ} {xs : Cells} (n : ℕ)
    → Fits memory limit (record s { alg_trigger = n }) xs t
    → Fits memory limit s xs t
Fits-alg n f = record {
  kept = f.kept;
  gone = f.gone;
  parts = f.parts;
  evicted = Evicted-alg n f.evicted;
  room = f.room;
  tight = f.tight;
}

-- The number of files is within the limit, and no file went in vain.
pub record FilesFit (files limit : ℕ) (s : Server) (xs : Cells) (t : Server) : Type 0 where
  pub kept : Cells
  pub gone : Cells
  pub parts : xs ≡ kept ++ gone
  pub evicted : Evicted s kept gone t
  pub room : length kept + files ≤ limit
  pub tight : (gone ≡ []) ⊎ (limit < length kept + 1 + files)

pub is_positive32_lem :
    (n files limit : ℕ)
    → n < 2 ^ 31
    → files < 2 ^ 31
    → limit < 2 ^ 31
    → n + files < limit + 2 ^ 31
    → is_positive32 (sub32 (add32 n files) limit) ≡ ltb limit (n + files)
is_positive32_lem n files limit a b c d = ground arith

pub need_lem :
    (used memory limit : ℕ)
    → used < 2 ^ 31
    → memory ≤ limit
    → limit < 2 ^ 31
    → is_positive64 (extend (u32 (sub64 (add64 used memory) (extend (u32 limit)))))
      ≡ ltb limit (used + memory)
need_lem used memory limit a b c = ground arith

module _ (s : Server) (xs : Cells) (i : Sound s xs) where
  pub evict_files-FilesFit :
      (files : ℕ)
      → files < s.max_files
      → Returns
          (λ _ t. FilesFit files s.max_files s xs t)
          (evict_files files (sub32 (add32 s.n_current_file files) s.max_files) s.max_files s)
  unfolding evict_files alg_counter
  evict_files-FilesFit files below =
      let k = sub32 (add32 s.n_current_file files) s.max_files in
      let h = i.holds in
      let sign : is_positive32 k ≡ ltb s.max_files (length xs + files) =
        ap (λ n. is_positive32 (sub32 (add32 n files) s.max_files)) h.files
        ∙ is_positive32_lem (length xs) files s.max_files h.few (omega arith) i.max_files
            (omega arith) in
      elim (Bool-cases (ltb s.max_files (length xs + files))) [
        | inl over ↦
            let lt = ltb→lt _ _ over in
            let many : k ≡ length xs + files - s.max_files = omega arith in
            let (ys, zs, parts, n) = cut k xs (omega arith) in
            let go : (is_positive32 k && ltb files s.max_files) ≡ true = ground arith in
            let h' = Holds-alg (add32 s.alg_trigger 1) (subst (Holds s) parts h) in
            Returns-if_true _ _ _ go (
              Returns-bind (file_loop-Evicted k _ ys zs n h') λ _ t e. returns (record {
                kept = ys;
                gone = zs;
                parts = parts;
                evicted = Evicted-alg (add32 s.alg_trigger 1) e;
                room = omega (arith, ap length parts, length-append ys zs);
                tight = inr (omega (arith, ap length parts, length-append ys zs));
              }))
        | inr under ↦
            let stop : (is_positive32 k && ltb files s.max_files) ≡ false = ground arith in
            Returns-if_false _ _ _ stop (
              returns (record {
                kept = xs;
                gone = [];
                parts = sym (append-nil xs);
                evicted = Evicted-refl xs h;
                room = ground arith;
                tight = inl refl;
              }))
      ]

  pub evict_memory-Fits :
      (triggered : Bool) (memory : ℕ)
      → memory < s.max_memory
      → Returns
          (λ _ t. Fits memory s.max_memory s xs t)
          (evict_memory triggered memory s.max_memory s)
  unfolding evict_memory alg_counter
  evict_memory-Fits triggered memory below =
      let h = i.holds in
      let limit = s.max_memory in
      let need = extend (u32 (sub64 (add64 s.n_current_memory_used memory) (extend (u32 limit)))) in
      let sign : is_positive64 need ≡ ltb limit (total xs + memory) =
        ap (λ u. is_positive64 (extend (u32 (sub64 (add64 u memory) (extend (u32 limit)))))) h.used
        ∙ need_lem (total xs) memory limit i.total_small (omega arith) i.max_memory in
      let loop = memory_loop-Fits memory limit (omega arith) (omega arith) (s.n_current_file + 1) in
      elim (Bool-cases (ltb limit (total xs + memory))) [
        | inl over ↦
            let go : not (is_positive64 need && ltb memory limit) ≡ false = ground arith in
            Returns-if_false _ _ _ go (elim (Bool-cases triggered) [
              | inl y ↦ rw y (loop s xs _ need (omega arith) h h.used (omega arith) sign)
              | inr n ↦
                  let count = add32 s.alg_trigger 1 in
                  rw n (
                    Returns-mono
                      (loop (record s { alg_trigger = count }) xs _ need (omega arith)
                        (Holds-alg count h) h.used (omega arith) sign)
                      λ _ t f. Fits-alg count f)
            ])
        | inr under ↦
            let stop : not (is_positive64 need && ltb memory limit) ≡ true = ground arith in
            Returns-if_true _ _ _ stop (
              returns (record {
                kept = xs;
                gone = [];
                parts = sym (append-nil xs);
                evicted = Evicted-refl xs h;
                room = ground arith;
                tight = inl refl;
              }))
      ]
