-- ===== src/Memory/Evict/Outcome.antt =====
-- `cache_algorithm` against the list of files: the whole of the eviction.
use progetto_sol_unipi.Base.{
  ℕ, ◌+◌, ◌<◌, ◌≡◌, refl, sym, subst, ap, ◌∙◌, ◌⊎◌, inl, inr, true, false, ◌||◌, [], ◌∷◌, ◌++◌,
  append-nil, append_assoc, arith, ltb, Bool-cases, length, length-append,
}
use progetto_sol_unipi.Base.Command.{◌>>=◌, Returns, Returns-mono, Returns-bind, Returns-of_eq}
use progetto_sol_unipi.Base.Word.{add32, sub32}
use progetto_sol_unipi.Memory.State.{Ptr, File, Server}
use progetto_sol_unipi.Memory.Chain.{Cells, total, SameOutside}
use progetto_sol_unipi.Memory.Cache.{Holds, total-append}
use progetto_sol_unipi.Memory.Evict.{evict_files, evict_memory, cache_algorithm}
use progetto_sol_unipi.Memory.Evict.Drop.{Evicted, Evicted-trans}
use progetto_sol_unipi.Memory.Evict.Room.{Fits}
use progetto_sol_unipi.Memory.Evict.Admit.{
  Sound, Sound-errno, Room, over_limits, is_action_legal_lem, cache_algorithm-legal,
}
use progetto_sol_unipi.Memory.Evict.Halves.{FilesFit, evict_files-FilesFit, evict_memory-Fits}

module _ (s : Server) (files memory : ℕ) where
  -- Why a file has gone: too many files, or too much memory.
  abbrev Reason : Cells → Cells → Type 0
  Reason kept gone =
      (gone ≡ [])
      ⊎ ((c : Ptr × File) × (rest : Cells) × (gone ≡ c ∷ rest)
          × (s.max_files < length kept + 1 + files
              ⊎ s.max_memory < total kept + c.1.used_memory + memory))

  Reason-files :
      (kept gone : Cells) → (gone ≡ []) ⊎ (s.max_files < length kept + 1 + files) → Reason kept gone
  Reason-files kept [] r = inl refl
  Reason-files kept (c ∷ gone) (inl e) = absurd (ground arith)
  Reason-files kept (c ∷ gone) (inr n) = inr (c, gone, refl, inl n)

  module _ {u t : Server} {xs : Cells} (h : Holds s xs) (f : FilesFit files s.max_files s xs u)
      (m : Fits memory s.max_memory u f.kept t) where
    reason :
        (f.gone ≡ []) ⊎ (s.max_files < length f.kept + 1 + files)
        → (m.gone ≡ [])
          ⊎ ((c : Ptr × File) × (rest : Cells) × (m.gone ≡ c ∷ rest)
              × (s.max_memory < total m.kept + c.1.used_memory + memory))
        → Reason m.kept (m.gone ++ f.gone)
    reason r (inl e) =
        subst (λ l. Reason m.kept (l ++ f.gone)) (sym e)
          (Reason-files m.kept f.gone (
            let same : f.kept ≡ m.kept = m.parts ∙ ap (◌++◌ m.kept) e ∙ append-nil m.kept in
            subst (λ l. (f.gone ≡ []) ⊎ (s.max_files < length l + 1 + files)) same r))
    reason r (inr (c, rest, e, n)) = inr (c, rest ++ f.gone, ap (λ l. l ++ f.gone) e, inr n)

    Room-of_halves : s.errno ≡ 0 → Room files memory s xs t
    Room-of_halves e =
        let whole = f.parts ∙ ap (λ l. l ++ f.gone) m.parts in
        let all =
          Evicted-trans m.kept m.gone f.gone (subst (Holds s) whole h)
            (subst (λ l. Evicted s l f.gone u) m.parts f.evicted) m.evicted in
        let l = all.limits in
        let whole' = whole ∙ append_assoc m.kept m.gone f.gone in
        record {
          kept = m.kept;
          gone = m.gone ++ f.gone;
          parts = whole';
          holds = all.holds;
          freed = all.freed;
          outside = subst (λ l. SameOutside l s.heap t.heap) (sym whole') all.outside;
          max_files = l.max_files;
          max_memory = l.max_memory;
          error = let z = l.errno ∙ e in omega arith;
          files_fit = omega (arith, f.room, ap length m.parts, length-append m.kept m.gone);
          memory_fits = m.room;
          needed = reason f.tight m.tight;
        }

Room-errno :
    {s t : Server} {files memory : ℕ} {xs : Cells} (e : ℕ)
    → Room files memory (record s { errno = e }) xs t
    → Room files memory s xs t
Room-errno e r = record {
  kept = r.kept;
  gone = r.gone;
  parts = r.parts;
  holds = r.holds;
  freed = r.freed;
  outside = r.outside;
  max_files = r.max_files;
  max_memory = r.max_memory;
  error = r.error;
  files_fit = r.files_fit;
  memory_fits = r.memory_fits;
  needed = r.needed;
}

module _ (s : Server) (files memory : ℕ) {xs : Cells} (i : Sound s xs) (few : files < s.max_files)
    (small : memory < s.max_memory) where
  make-Room :
      s.errno ≡ 0
      → Returns
          (λ _ t. Room files memory s xs t)
          ((evict_files files (sub32 (add32 s.n_current_file files) s.max_files) s.max_files
              >>= λ triggered. evict_memory triggered memory s.max_memory)
            s)
  make-Room e = Returns-bind (evict_files-FilesFit s xs i files few) λ b t f.
      let ev = f.evicted in
      let l = ev.limits in
      let size = ap total f.parts in
      let sum = total-append f.kept f.gone in
      let there : Sound t f.kept = record {
        holds = ev.holds;
        max_files = omega arith;
        max_memory = omega arith;
        total_small = omega arith;
      } in
      Returns-mono
        (subst (λ m. Returns (λ _ u. Fits memory m t f.kept u) (evict_memory b memory m t))
          l.max_memory (evict_memory-Fits t f.kept there b memory (omega arith)))
        λ _ u m. Room-of_halves s files memory i.holds f m e

  Room-at_once :
      over_limits s xs files memory ≡ false
      → Returns (λ _ t. Room files memory s xs t) (cache_algorithm files memory s)
  Room-at_once under =
      let h = i.holds in
      Returns-of_eq
        (cache_algorithm-legal s files memory (omega arith) (omega arith) i (ground arith)
          (ground arith))
        (record {
          kept = xs;
          gone = [];
          parts = sym (append-nil xs);
          holds = record {
            chain = h.chain;
            files = h.files;
            used = h.used;
            few = h.few;
            small = h.small;
          };
          freed = λ a o. absurd (ground arith);
          outside = λ a o. refl;
          max_files = refl;
          max_memory = refl;
          error = omega arith;
          files_fit = ground arith;
          memory_fits = ground arith;
          needed = inl refl;
        })

module _ (s : Server) (files memory : ℕ) {xs : Cells} (i : Sound s xs) (few : files < s.max_files)
    (small : memory < s.max_memory) where
  Room-by_eviction :
      over_limits s xs files memory ≡ true
      → Returns (λ _ t. Room files memory s xs t) (cache_algorithm files memory s)
  unfolding cache_algorithm
  Room-by_eviction over =
      let i0 = Sound-errno 0 i in
      let accept : (ltb s.max_files files || ltb s.max_memory memory) ≡ false = ground arith in
      rw
        (
          is_action_legal_lem (record s { errno = 0 }) files memory (omega arith) (omega arith) i0,
          over,
          accept,
        )
        (Returns-mono (make-Room (record s { errno = 0 }) files memory i0 few small refl)
          λ _ t r. Room-errno 0 r)

-- Where each limit is above what is asked for, and the limits and the contents are below 2 ^ 31,
-- the call ends without `E2BIG`; it has kept the more recent files in their order and freed the
-- others; both limits hold of the files that are kept together with what is asked for; and if a
-- file has gone, keeping the most recent of those that have gone would have broken a limit.
pub cache_algorithm-Room :
    (s : Server) (files memory : ℕ) {xs : Cells}
    → Sound s xs
    → files < s.max_files
    → memory < s.max_memory
    → Returns (λ _ t. Room files memory s xs t) (cache_algorithm files memory s)
cache_algorithm-Room s files memory {xs} i few small =
    elim (Bool-cases (over_limits s xs files memory)) [
      | inl over ↦ Room-by_eviction s files memory i few small over
      | inr under ↦ Room-at_once s files memory i few small under
    ]
