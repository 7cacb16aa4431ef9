-- ===== src/Server/Worker/Read.antt =====
-- `READ_FILE`.
use progetto_sol_unipi.Base.{
  ◌≡◌, refl, ap, ◌∙◌, inl, inr, true, some, [], ◌∷◌, append_assoc, Bool-cases,
}
use progetto_sol_unipi.Base.Command.{Returns, returns}
use progetto_sol_unipi.Memory.State.{Policy}
use progetto_sol_unipi.Memory.Chain.{Cells, not_null, load_lem}
use progetto_sol_unipi.Memory.Cache.{
  has_name, lookup, after_use, Holds, hit, lookup_hit, lookup_miss,
}
use progetto_sol_unipi.Memory.Find.Found.{find_file-Found}
use progetto_sol_unipi.Memory.Files.{Host}
use progetto_sol_unipi.Memory.Files.Remove.{Chain-lookup}
use progetto_sol_unipi.Server.Wire.{World}
use progetto_sol_unipi.Server.Worker.{Job, serve_read}
use progetto_sol_unipi.Server.Worker.Served.{
  Served, on, Returns-on, Returns-lift, lookup-after_use, read_packets, read_response,
}

module _ (host : Host) (policy : Policy) (job : Job) (w : World) where
  read_on :
      {xs : Cells}
      → Holds w.server xs
      → Returns
          (Served
            (on w)
            (after_use policy job.filename xs)
            (read_packets (lookup job.filename xs))
            (read_response (lookup job.filename xs) ∷ [])
            w.incoming)
          (serve_read host policy job (on w))
  unfolding serve_read
  read_on {xs} h =
      let n = job.filename in
      Returns-lift _ (on w) (find_file-Found w.server n policy h) λ r t f.
        elim (Bool-cases (has_name n xs)) [
          | inl y ↦
              let hits = hit n xs y in
              let c = hits.cell in
              let found : lookup n xs ≡ some c =
                ap (lookup n) hits.parts
                ∙ lookup_hit n hits.before c hits.after hits.new hits.same in
              let (q, at) =
                Chain-lookup n (after_use policy n xs) c f.holds.chain
                  (lookup-after_use n policy xs ∙ found) in
              rw (f.found, found)
                (rw (not_null at) (
                  rw (load_lem t at) (elim (Bool-cases c.1.is_open) [
                    | inl o ↦ rw o (
                        returns (record {
                          turn = refl;
                          holds = f.holds;
                          connected = refl;
                          incoming = refl;
                          sent = simp append_assoc;
                          responses = refl;
                        }))
                    | inr o ↦ rw o (
                        returns (record {
                          turn = refl;
                          holds = f.holds;
                          connected = refl;
                          incoming = refl;
                          sent = simp append_assoc;
                          responses = refl;
                        }))
                  ])))
          | inr o ↦
              rw (f.found, lookup_miss n xs o)
                (returns (record {
                  turn = refl;
                  holds = f.holds;
                  connected = refl;
                  incoming = refl;
                  sent = refl;
                  responses = refl;
                }))
        ]

  -- A worker answers a `READ_FILE` of a connected client with `NO_CONTINUE` and `ENOENT` if no file
  -- has the name; with `CONTINUE`, `CONTINUE`, the size and the contents if the file is open; and
  -- with `CONTINUE`, `NO_CONTINUE` and `EACCES` if it is closed. There is one response, nothing is
  -- received, and the files are the same, reordered as the policy says.
  pub serve_read-Served :
      {xs : Cells}
      → Holds w.server xs
      → w.connected ≡ true
      → Returns
          (Served w
            (after_use policy job.filename xs)
            (read_packets (lookup job.filename xs))
            (read_response (lookup job.filename xs) ∷ [])
            w.incoming)
          (serve_read host policy job w)
  serve_read-Served h up = Returns-on (serve_read host policy job) w up (read_on h)
