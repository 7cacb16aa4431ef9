-- ===== src/Server/Worker/Removal.antt =====
-- `REMOVE_FILE`.
use progetto_sol_unipi.Base.{
  ◌≡◌, refl, sym, subst, ap, ◌∙◌, inl, inr, [], ◌∷◌, ◌++◌, some, arith, if◌then◌else◌, Bool-cases,
  append-nil,
}
use progetto_sol_unipi.Base.Command.{Returns, returns}
use progetto_sol_unipi.Memory.State.{Name, Policy, fifo, lru, enoent}
use progetto_sol_unipi.Memory.Names.{equal_names_iff}
use progetto_sol_unipi.Memory.Chain.{Cells, not_null}
use progetto_sol_unipi.Memory.Cache.{
  has_name, lookup, erase, after_use, Holds, hit, lookup_hit, lookup_miss, erase_miss,
}
use progetto_sol_unipi.Memory.Find.Found.{find_file-Found, after_use_miss}
use progetto_sol_unipi.Memory.Files.{Host}
use progetto_sol_unipi.Memory.Files.Remove.{Chain-lookup, remove_generic_file-Removed}
use progetto_sol_unipi.Server.Wire.{World}
use progetto_sol_unipi.Server.Worker.{Job, serve_remove, status_ok, not_ok}
use progetto_sol_unipi.Server.Worker.Served.{Served, Returns-lift, lookup-after_use}

-- A use of the file before its removal leaves no trace.
erase-after_use :
    (n : Name) (policy : Policy) (xs : Cells) → erase n (after_use policy n xs) ≡ erase n xs
erase-after_use n fifo xs = refl
erase-after_use n lru xs = elim (Bool-cases (has_name n xs)) [
  | inl y ↦
      let r = hit n xs y in
      let e = r.same in
      let found : lookup n xs ≡ some r.cell =
        ap (lookup n) r.parts ∙ lookup_hit n r.before r.cell r.after r.new e in
      rw found (ground arith)
  | inr o ↦ rw (lookup_miss n xs o) (rw (erase_miss n xs o) (erase_miss n xs o))
]

module _ (host : Host) (policy : Policy) (job : Job) (w : World) where
  -- A worker answers a `REMOVE_FILE` with one response and no packet: a success if a file has the
  -- name, and `ENOENT` if none has. Afterwards the first file of that name is gone from the cache,
  -- and the others are there in their old order, whatever the policy.
  pub serve_remove-Served :
      {xs : Cells}
      → Holds w.server xs
      → Returns
          (Served w
            (erase job.filename xs)
            []
            ((if has_name job.filename xs
                then record { err = 0; status_request = status_ok }
                else record { err = enoent; status_request = not_ok })
              ∷ [])
            w.incoming)
          (serve_remove host policy job w)
  unfolding serve_remove
  serve_remove-Served {xs} h =
      let n = job.filename in
      Returns-lift _ w (find_file-Found w.server n policy h) λ r t f.
        elim (Bool-cases (has_name n xs)) [
          | inl y ↦
              let hits = hit n xs y in
              let c = hits.cell in
              let found : lookup n xs ≡ some c =
                ap (lookup n) hits.parts
                ∙ lookup_hit n hits.before c hits.after hits.new hits.same in
              let listed = lookup-after_use n policy xs ∙ found in
              let named : c.1.filename ≡ n = (equal_names_iff c.1.filename n).0 hits.same in
              let (q, at) = Chain-lookup n (after_use policy n xs) c f.holds.chain listed in
              let first =
                subst (λ a. lookup a (after_use policy n xs) ≡ some c) (sym named) listed in
              rw (f.found, found, y)
                (rw (not_null at) (
                  Returns-lift _ (record w { server = t })
                    (remove_generic_file-Removed t c.0 c.1 f.holds first)
                    λ o u (done, left, freed, files, memory). rw done (
                      returns (record {
                        turn = refl;
                        holds =
                            subst (Holds u)
                              (ap (λ a. erase a (after_use policy n xs)) named
                                ∙ erase-after_use n policy xs)
                              left;
                        connected = refl;
                        incoming = refl;
                        sent = sym (append-nil w.sent);
                        responses = refl;
                      }))))
          | inr o ↦
              let kept = after_use_miss n policy xs o ∙ sym (erase_miss n xs o) in
              let error : t.errno ≡ enoent = rw o at f.error in
              rw (f.found, lookup_miss n xs o, o)
                (returns (record {
                  turn = refl;
                  holds = subst (Holds t) kept f.holds;
                  connected = refl;
                  incoming = refl;
                  sent = sym (append-nil w.sent);
                  responses =
                      ap (λ e. w.responses ++ record { err = e; status_request = not_ok } ∷ [])
                        error;
                }))
        ]
