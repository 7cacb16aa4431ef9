-- ===== src/Server/Worker/Keeping.antt =====
-- A turn of `worker_thread` for a request that keeps to the protocol: each operation.
use progetto_sol_unipi.Base.{
  ℕ, ◌+◌, ◌<◌, ◌≤◌, ◌≡◌, refl, sym, subst, ap, ◌∙◌, inl, inr, Bool-cases, true, false, ◌&&◌, List,
  some, [], ◌++◌, append-nil, arith, ◌==◌, length, length-append,
}
use progetto_sol_unipi.Base.Command.{ok, Cmd, Returns, returns, Returns-mono, Returns-of_eq}
use progetto_sol_unipi.Memory.State.{Name, Policy}
use progetto_sol_unipi.Memory.Find.{in_mem}
use progetto_sol_unipi.Memory.Find.Search.{in_mem_lem}
use progetto_sol_unipi.Memory.Find.Found.{find_file-Found}
use progetto_sol_unipi.Memory.Chain.{Cells, total}
use progetto_sol_unipi.Memory.Cache.{
  has_name, lookup, after_use, Holds, Hit, hit, lookup_hit, lookup_miss, total-append,
}
use progetto_sol_unipi.Memory.Evict.Admit.{Sound}
use progetto_sol_unipi.Server.Wire.{Packet, Response, World}
use progetto_sol_unipi.Server.Worker.{
  Turn, serve_create, serve_close, serve_write, serve_append, open_file, close_file, o_create,
  write_file, append_file,
}
use progetto_sol_unipi.Server.Worker.Served.{Served, Returns-lift, has_name-after_use}
use progetto_sol_unipi.Server.Worker.Create.{serve_create-exists, serve_create-Created}
use progetto_sol_unipi.Server.Worker.Close.{serve_close-Served}
use progetto_sol_unipi.Server.Worker.Finish.{append_first}
use progetto_sol_unipi.Server.Worker.Writing.{serve_write-Wrote}
use progetto_sol_unipi.Server.Worker.Broken.{serve_write-BrokenOff}
use progetto_sol_unipi.Server.Worker.Refusal.{serve_write-append-Refused}
use progetto_sol_unipi.Server.Worker.Missing.{serve_write-append-Missed}
use progetto_sol_unipi.Server.Worker.Fitting.{serve_append-Fitted}
use progetto_sol_unipi.Server.Worker.Stored.{
  Stored, Tidy, Tidy-part, Tidy-flushed, Stored-after_use, total-after_use, has_name-append,
}
use progetto_sol_unipi.Server.Worker.Marked.{
  Stored-close_first, Stored-append_first, Stored-created,
}
use progetto_sol_unipi.Server.Worker.Spec.{Follows}
use progetto_sol_unipi.Server.Worker.Follow.{
  exists-Follows, created-Follows, closed-Follows, no_close-Follows, missed-Follows,
  refused-Follows, cut_off-Follows, added-Follows,
}
use progetto_sol_unipi.Server.Worker.Request.{
  Request, Sends, whole, cut_off, too_much, Adds, fitting, excessive, Fair, taken, Keeps,
  Chain-free,
}

-- The list in the heap stands for files that are tidy and within the limits, and of which the names
-- stand for what the request makes of them.
pub record Filed (files memory : ℕ) (q : Request) (before : Cells) (t : World) : Type 0 where
  pub cells : Cells
  pub holds : Holds t.server cells
  pub stored : Stored files memory cells
  pub follows : Follows memory q before cells

pub Filed-Served :
    {files memory : ℕ} {q : Request} {before : Cells} {w : World} {xs : Cells} {ps : List Packet}
    {rs : List Response} {left : List Packet} {r : Turn} {t : World}
    → Stored files memory xs
    → Follows memory q before xs
    → Served w xs ps rs left r t
    → Filed files memory q before t
Filed-Served s f k = record { cells = _; holds = k.holds; stored = s; follows = f }

module _ (policy : Policy) (q : Request) (files memory : ℕ) (w : World)
    (k : Keeps files memory w.server) (i : Sound w.server k.cells) (some_files : 1 < files)
    (some_memory : 0 < memory) (fair : Fair memory q w.server) where
  abbrev Files : Cmd World Turn → Type 0
  Files m = Returns (λ _ t. Filed files memory q k.cells t) (m (taken q w))

  pub create-Filed :
      (q.job.op == open_file && q.job.flags == o_create) ≡ true
      → Files (serve_create q.host policy q.job)
  create-Filed y =
      let n = q.job.filename in
      let xs = k.cells in
      let (short, works) = fair.create y in
      elim (Bool-cases (has_name n xs)) [
        | inl there ↦
            Returns-of_eq (serve_create-exists q.host policy q.job (taken q w) i there) (record {
              cells = xs;
              holds = k.holds;
              stored = k.stored;
              follows = exists-Follows policy memory q xs y there;
            })
        | inr new ↦
            Returns-mono
              (serve_create-Created q.host policy q.job (taken q w) i new short works.not_null
                (works.open_memstream, works.mutex_init)
                (Chain-free q.host.malloc works.fresh k.holds.chain) (rw k.max_files some_files)
                (rw k.max_memory some_memory))
              λ _ t c.
                let a = has_name-append n c.kept c.gone in
                let new' : has_name n (c.kept ++ c.gone) ≡ false =
                  subst (λ l. has_name n l ≡ false) c.parts new in
                Filed-Served
                  (Stored-created q.host.malloc n c.kept c.gone (subst Tidy c.parts k.stored.tidy)
                    (ground arith) (omega (arith, c.files_fit, k.max_files))
                    (omega (arith, c.memory_fits, k.max_memory)))
                  (created-Follows policy memory q xs q.host.malloc c.kept c.gone c.parts y new)
                  c.served
      ]

  pub close-Filed : (q.job.op == close_file) ≡ true → Files (serve_close q.host policy q.job)
  unfolding serve_close
  close-Filed op =
      let n = q.job.filename in
      let xs = k.cells in
      elim (Bool-cases (has_name n xs)) [
        | inl y ↦
            Returns-mono (serve_close-Served q.host policy q.job (taken q w) k.holds refl y)
              λ _ t c.
                Filed-Served
                  (Stored-after_use n policy _ (
                    Stored-close_first n (after_use policy n xs)
                      (has_name-after_use n policy xs ∙ y) (Stored-after_use n policy xs k.stored)))
                  (closed-Follows policy memory q xs op) c
        | inr o ↦ Returns-lift _ (taken q w) (find_file-Found w.server n policy k.holds) λ r t f.
            rw (f.found, lookup_miss n xs o)
              (returns (record {
                cells = after_use policy n xs;
                holds = f.holds;
                stored = Stored-after_use n policy xs k.stored;
                follows = no_close-Follows policy memory q xs op o;
              }))
      ]

  -- The part of the files that an eviction keeps, with more data in the first file of a name.
  write-Stored :
      (n : Name) (m : List ℕ) (kept gone : Cells)
      → after_use policy n k.cells ≡ kept ++ gone
      → total kept + length m ≤ w.server.max_memory
      → Stored files memory (append_first n m kept)
  write-Stored n m kept gone parts fits =
      let all = Stored-after_use n policy k.cells k.stored in
      Stored-append_first n m kept (Tidy-part kept gone (subst Tidy parts all.tidy))
        (omega (arith, all.few, ap length parts, length-append kept gone))
        (omega (arith, fits, k.max_memory))

  kept-Stored :
      (n : Name) (kept gone : Cells)
      → after_use policy n k.cells ≡ kept ++ gone
      → Stored files memory kept
  kept-Stored n kept gone parts =
      let all = Stored-after_use n policy k.cells k.stored in
      record {
        tidy = Tidy-part kept gone (subst Tidy parts all.tidy);
        few = omega (arith, all.few, ap length parts, length-append kept gone);
        small = omega (arith, all.small, ap total parts, total-append kept gone);
      }

  module _ (y : has_name q.job.filename k.cells ≡ true) where
    abbrev hits : Hit q.job.filename k.cells
    hits = hit q.job.filename k.cells y

    listed : lookup q.job.filename k.cells ≡ some hits.cell
    listed =
        ap (lookup q.job.filename) hits.parts
        ∙ lookup_hit q.job.filename hits.before hits.cell hits.after hits.new hits.same

    flushed : hits.cell.1.used_memory ≡ length hits.cell.1.buffer
    flushed = Tidy-flushed hits.before hits.cell hits.after (subst Tidy hits.parts k.stored.tidy)

    there : in_mem (some q.job.filename) w.server ≡ ok 1 w.server
    there = in_mem_lem w.server q.job.filename k.holds ∙ rw y refl

    write-Filed :
        {ps : List Packet}
        → (q.job.op == write_file) ≡ true
        → Sends memory ps
        → q.packets ≡ ps
        → Files (serve_write q.host policy q.job)
    write-Filed op (whole m rest below) e =
        Returns-mono
          (serve_write-Wrote q.host policy q.job (taken q w) hits.cell.0 hits.cell.1 m rest i refl e
            listed flushed (rw k.max_files (omega (arith, some_files))) (rw k.max_memory below))
          λ _ t c.
            Filed-Served (write-Stored q.job.filename m c.kept c.gone c.parts c.memory_fits)
              (added-Follows policy memory q k.cells (ground arith) m rest c.kept c.gone (inl op) e
                (ground arith) c.parts)
              c.served
    write-Filed op (cut_off l rest below) e =
        Returns-mono
          (serve_write-BrokenOff q.host policy q.job (taken q w) hits.cell.0 hits.cell.1 l rest i
            refl e listed (rw k.max_files (omega (arith, some_files))) (rw k.max_memory below))
          λ _ t c.
            Filed-Served (kept-Stored q.job.filename c.kept c.gone c.parts)
              (cut_off-Follows policy memory q k.cells (ground arith) l rest c.kept c.gone op e
                below c.parts)
              c.served
    write-Filed op (too_much l rest above few) e =
        Returns-mono
          (serve_write-append-Refused q.host policy q.job (taken q w) hits.cell.0 hits.cell.1 l rest
            i refl e listed (rw k.max_memory above) few).0
          λ _ t c.
            Filed-Served (Stored-after_use q.job.filename policy k.cells k.stored)
              (refused-Follows policy memory q k.cells (ground arith) l rest e above) c

    append-Filed :
        {ps : List Packet}
        → (q.job.op == append_file) ≡ true
        → Adds memory w.server.n_current_memory_used ps
        → q.packets ≡ ps
        → Files (serve_append q.host policy q.job)
    append-Filed op (fitting m rest fits) e =
        let h = k.holds in
        let sum : total k.cells + length m ≤ memory = omega (arith, fits, h.used) in
        Returns-mono
          (serve_append-Fitted q.host policy q.job (taken q w) hits.cell.0 hits.cell.1 m rest i refl
            e listed flushed (rw k.max_files k.stored.few) (rw k.max_memory sum))
          λ _ t c.
            let same = total-after_use q.job.filename policy k.cells in
            Filed-Served
              (Stored-append_first q.job.filename m (after_use policy q.job.filename k.cells)
                (Stored-after_use q.job.filename policy k.cells k.stored).tidy
                (Stored-after_use q.job.filename policy k.cells k.stored).few
                (omega (arith, same, sum)))
              (added-Follows policy memory q k.cells (ground arith) m rest
                (after_use policy q.job.filename k.cells) [] (inr refl) e (ground arith)
                (sym (append-nil (after_use policy q.job.filename k.cells))))
              c
    append-Filed op (excessive l rest above few) e =
        Returns-mono
          (serve_write-append-Refused q.host policy q.job (taken q w) hits.cell.0 hits.cell.1 l rest
            i refl e listed (rw k.max_memory above) few).1
          λ _ t c.
            Filed-Served (Stored-after_use q.job.filename policy k.cells k.stored)
              (refused-Follows policy memory q k.cells (ground arith) l rest e above) c

  pub serve_write-Filed : (q.job.op == write_file) ≡ true → Files (serve_write q.host policy q.job)
  serve_write-Filed op = elim (Bool-cases (has_name q.job.filename k.cells)) [
    | inl y ↦ write-Filed y op (fair.write op (there y)) refl
    | inr o ↦
        Returns-mono (serve_write-append-Missed q.host policy q.job (taken q w) k.holds o refl).0
          λ _ t c.
            Filed-Served (Stored-after_use q.job.filename policy k.cells k.stored)
              (missed-Follows policy memory q k.cells (ground arith) o) c
  ]

  pub serve_append-Filed :
      (q.job.op == append_file) ≡ true → Files (serve_append q.host policy q.job)
  serve_append-Filed op = elim (Bool-cases (has_name q.job.filename k.cells)) [
    | inl y ↦ append-Filed y op (fair.append op (there y)) refl
    | inr o ↦
        Returns-mono (serve_write-append-Missed q.host policy q.job (taken q w) k.holds o refl).1
          λ _ t c.
            Filed-Served (Stored-after_use q.job.filename policy k.cells k.stored)
              (missed-Follows policy memory q k.cells (ground arith) o) c
  ]
