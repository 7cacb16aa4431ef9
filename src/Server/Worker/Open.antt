-- ===== src/Server/Worker/Open.antt =====
-- `OPEN_FILE` without `O_CREATE`.
use progetto_sol_unipi.Base.{
  ◌≡◌, refl, sym, subst, ap, ◌∙◌, inl, inr, Bool-cases, Bool, true, false, [], ◌∷◌, ◌++◌,
  append-nil, some, arith, ◌==◌, if◌then◌else◌,
}
use progetto_sol_unipi.Base.Command.{Returns, returns}
use progetto_sol_unipi.Memory.State.{Ptr, Name, Policy, File, enoent}
use progetto_sol_unipi.Memory.Names.{equal_names}
use progetto_sol_unipi.Memory.Chain.{Cells}
use progetto_sol_unipi.Memory.Cache.{has_name, lookup, after_use, Holds, hit, lookup_hit}
use progetto_sol_unipi.Memory.Find.Search.{in_mem_lem}
use progetto_sol_unipi.Memory.Find.Found.{find_file-Found}
use progetto_sol_unipi.Memory.Files.{Host}
use progetto_sol_unipi.Memory.Files.Contents.{set_file_open-Flagged}
use progetto_sol_unipi.Server.Wire.{Response, World}
use progetto_sol_unipi.Server.Worker.{Job, serve_open, o_create, status_ok, not_ok}
use progetto_sol_unipi.Server.Worker.Served.{
  Served, Returns-lift, lookup-after_use, has_name-after_use,
}

abbrev pub opened : Ptr × File → Ptr × File
opened (p, f) = (p, record f { is_open = true })

-- The first file of that name is open.
abbrev pub open_first : Name → Cells → Cells
open_first n [] = []
open_first n (c ∷ xs) = if equal_names c.1.filename n then opened c ∷ xs else c ∷ open_first n xs

pub open_first_hit :
    (n : Name) (xs : Cells) (c : Ptr × File) (ys : Cells)
    → has_name n xs ≡ false
    → equal_names c.1.filename n ≡ true
    → open_first n (xs ++ c ∷ ys) ≡ xs ++ opened c ∷ ys
open_first_hit n [] c ys h e = ground arith
open_first_hit n (x ∷ xs) c ys h e = ground (arith, open_first_hit n xs c ys)

-- What an open comes to, by whether the file is there.
abbrev pub after_open : Policy → Name → Bool → Cells → Cells
after_open policy n false xs = xs
after_open policy n true xs = open_first n (after_use policy n xs)

abbrev pub open_response : Bool → Response
open_response false = record { err = enoent; status_request = not_ok }
open_response true = record { err = 0; status_request = status_ok }

module _ (host : Host) (policy : Policy) (job : Job) (w : World) where
  -- A worker that opens a file answers with one response and sends nothing else. If the file is
  -- there, its first one of that name is open afterwards, at the place that a use gives it;
  -- otherwise the cache stays and the response is `ENOENT`. The flags do not ask for a creation,
  -- and the invariant of the cache is kept.
  pub serve_open-Served :
      {xs : Cells}
      → Holds w.server xs
      → (job.flags == o_create) ≡ false
      → Returns
          (Served w
            (after_open policy job.filename (has_name job.filename xs) xs)
            []
            (open_response (has_name job.filename xs) ∷ [])
            w.incoming)
          (serve_open host policy job w)
  unfolding serve_open
  serve_open-Served {xs} h flags =
      let n = job.filename in
      rw flags (
        rw (in_mem_lem w.server n h) (elim (Bool-cases (has_name n xs)) [
          | inl y ↦ rw y (
              Returns-lift _ w (find_file-Found w.server n policy h) λ r t f.
                let ys = after_use policy n xs in
                let hits = hit n ys (has_name-after_use n policy xs ∙ y) in
                let c = hits.cell in
                let found : lookup n xs ≡ some c =
                  sym (lookup-after_use n policy xs)
                  ∙ ap (lookup n) hits.parts
                  ∙ lookup_hit n hits.before c hits.after hits.new hits.same in
                let shown : open_first n ys ≡ hits.before ++ opened c ∷ hits.after =
                  ap (open_first n) hits.parts
                  ∙ open_first_hit n hits.before c hits.after hits.new hits.same in
                rw (f.found, found)
                  (Returns-lift _ (record w { server = t })
                    (set_file_open-Flagged t hits.before c.0 c.1 hits.after
                      (subst (Holds t) hits.parts f.holds))
                    λ _ u (h1, same). returns (record {
                      turn = refl;
                      holds = subst (Holds u) (sym shown) h1;
                      connected = refl;
                      incoming = refl;
                      sent = sym (append-nil w.sent);
                      responses = refl;
                    })))
          | inr o ↦ rw o (
              returns (record {
                turn = refl;
                holds = h;
                connected = refl;
                incoming = refl;
                sent = sym (append-nil w.sent);
                responses = refl;
              }))
        ]))
