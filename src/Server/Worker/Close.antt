-- ===== src/Server/Worker/Close.antt =====
-- `CLOSE_FILE`.
use progetto_sol_unipi.Base.{
  ◌≡◌, refl, sym, subst, ap, ◌∙◌, true, false, [], ◌∷◌, ◌++◌, append_assoc, some, arith,
  if◌then◌else◌,
}
use progetto_sol_unipi.Base.Command.{Returns, Returns-mono}
use progetto_sol_unipi.Memory.State.{Ptr, Name, Policy, File}
use progetto_sol_unipi.Memory.Names.{equal_names}
use progetto_sol_unipi.Memory.Chain.{Cells, not_null}
use progetto_sol_unipi.Memory.Cache.{has_name, lookup, after_use, Holds, hit, lookup_hit}
use progetto_sol_unipi.Memory.Find.Found.{find_file-Found}
use progetto_sol_unipi.Memory.Files.{Host}
use progetto_sol_unipi.Memory.Files.Contents.{set_file_close-Flagged}
use progetto_sol_unipi.Memory.Files.Remove.{Chain-lookup}
use progetto_sol_unipi.Server.Wire.{number, Response, World}
use progetto_sol_unipi.Server.Worker.{
  Job, serve_close, continue, no_continue, status_ok, not_ok, eacces,
}
use progetto_sol_unipi.Server.Worker.Served.{
  Served, on, Returns-on, Returns-lift, lookup-after_use, has_name-after_use, read_packets,
  read_response,
}
use progetto_sol_unipi.Server.Worker.Read.{serve_read-Served}

abbrev pub closed : Ptr × File → Ptr × File
closed (p, f) = (p, record f { is_open = false })

-- The first file of that name is closed.
abbrev pub close_first : Name → Cells → Cells
close_first n [] = []
close_first n (c ∷ xs) = if equal_names c.1.filename n then closed c ∷ xs else c ∷ close_first n xs

pub close_first_hit :
    (n : Name) (xs : Cells) (c : Ptr × File) (ys : Cells)
    → has_name n xs ≡ false
    → equal_names c.1.filename n ≡ true
    → close_first n (xs ++ c ∷ ys) ≡ xs ++ closed c ∷ ys
close_first_hit n [] c ys h e = ground arith
close_first_hit n (x ∷ xs) c ys h e = ground (arith, close_first_hit n xs c ys)

module _ (host : Host) (policy : Policy) (job : Job) (w : World) where
  -- The order of the files after the two searches of a close.
  abbrev pub after_close : Cells → Cells
  after_close xs =
      after_use policy job.filename (close_first job.filename (after_use policy job.filename xs))

  close_on :
      {xs : Cells}
      → Holds w.server xs
      → has_name job.filename xs ≡ true
      → Returns
          (Served
            (on w)
            (after_close xs)
            (number continue ∷ number no_continue ∷ [])
            (record { err = 0; status_request = status_ok }
              ∷ record { err = eacces; status_request = not_ok }
              ∷ [])
            w.incoming)
          (serve_close host policy job (on w))
  unfolding serve_close
  close_on {xs} h y =
      let n = job.filename in
      let ys = after_use policy n xs in
      Returns-lift _ (on w) (find_file-Found w.server n policy h) λ r t f.
        let hits = hit n ys (has_name-after_use n policy xs ∙ y) in
        let c = hits.cell in
        let found : lookup n xs ≡ some c =
          sym (lookup-after_use n policy xs)
          ∙ ap (lookup n) hits.parts
          ∙ lookup_hit n hits.before c hits.after hits.new hits.same in
        let (q, at) = Chain-lookup n ys c f.holds.chain (lookup-after_use n policy xs ∙ found) in
        rw (f.found, found)
          (rw (not_null at) (
            Returns-lift _ (record w { server = t; connected = true })
              (set_file_close-Flagged t hits.before c.0 c.1 hits.after
                (subst (Holds t) hits.parts f.holds))
              λ _ u (h1, same).
                let shut =
                  ap (close_first n) hits.parts
                  ∙ close_first_hit n hits.before c hits.after hits.new hits.same in
                let zs = close_first n ys in
                let looked : lookup n zs ≡ some (closed c) =
                  ap (lookup n) shut
                  ∙ lookup_hit n hits.before (closed c) hits.after hits.new hits.same in
                let first : Response = record { err = 0; status_request = status_ok } in
                let v : World = record w {
                  server = u;
                  connected = true;
                  responses = w.responses ++ first ∷ [];
                } in
                Returns-mono
                  (serve_read-Served host policy job v (subst (Holds u) (sym shut) h1) refl)
                  λ o x k. record {
                    turn = k.turn;
                    holds = k.holds;
                    connected = k.connected;
                    incoming = k.incoming;
                    sent = k.sent ∙ ap (λ d. w.sent ++ read_packets d) looked;
                    responses =
                        k.responses
                        ∙ ap (λ d. v.responses ++ read_response d ∷ []) looked
                        ∙ append_assoc w.responses (first ∷ []) _;
                  }))

  -- A worker that closes a file which is there, for a connected client, pushes two responses where
  -- the client waits for one: after the success it goes on as if the request were `READ_FILE`,
  -- sends `CONTINUE` and `NO_CONTINUE`, which the client does not expect, and pushes `EACCES`,
  -- since the file has just been closed. The first file of the name is closed, and the files are
  -- reordered by two searches.
  pub serve_close-Served :
      {xs : Cells}
      → Holds w.server xs
      → w.connected ≡ true
      → has_name job.filename xs ≡ true
      → Returns
          (Served w
            (after_close xs)
            (number continue ∷ number no_continue ∷ [])
            (record { err = 0; status_request = status_ok }
              ∷ record { err = eacces; status_request = not_ok }
              ∷ [])
            w.incoming)
          (serve_close host policy job w)
  serve_close-Served h up y = Returns-on (serve_close host policy job) w up (close_on h y)
