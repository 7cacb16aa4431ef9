-- ===== src/Server/Worker/Fitting.antt =====
-- `APPEND_FILE` with data for which there is room.
use progetto_sol_unipi.Base.{
  ℕ, ◌+◌, ◌≤◌, ◌≡◌, refl, sym, subst, ap, ◌∙◌, true, List, [], ◌∷◌, ◌++◌, some, arith, length,
  length-append,
}
use progetto_sol_unipi.Base.Command.{Returns, returns}
use progetto_sol_unipi.Memory.State.{Ptr, Policy, File, ecanceled}
use progetto_sol_unipi.Memory.Chain.{Cells, total, not_null}
use progetto_sol_unipi.Memory.Cache.{lookup, address, after_use, Holds, hit, lookup_hit}
use progetto_sol_unipi.Memory.Find.Found.{find_file-Found}
use progetto_sol_unipi.Memory.Files.{Host}
use progetto_sol_unipi.Memory.Files.Contents.{appended, write_to_file-Written}
use progetto_sol_unipi.Memory.Files.Remove.{Chain-lookup, has_name_of_lookup}
use progetto_sol_unipi.Memory.Evict.Admit.{Sound, admitted, cache_algorithm-legal}
use progetto_sol_unipi.Server.Wire.{Packet, number, message, World}
use progetto_sol_unipi.Server.Worker.{Job, Turn, serve_append, continue, status_ok}
use progetto_sol_unipi.Server.Worker.Served.{Served, on, Returns-on, Returns-lift, lookup-after_use}
use progetto_sol_unipi.Server.Worker.Finish.{
  append_first, append_first_hit, take_whole, Sound-after_search, flushed_same,
}

module _ (host : Host) (policy : Policy) (job : Job) (w : World) (p : Ptr) (f : File) (m : List ℕ)
    (rest : List Packet) {xs : Cells} (i : Sound w.server xs) where
  abbrev Fitted : World → Turn → World → Type 0
  Fitted u r v =
      Served u (append_first job.filename m (after_use policy job.filename xs))
        (number continue ∷ []) (record { err = 0; status_request = status_ok } ∷ []) rest r v

  append_on :
      w.incoming ≡ number (length m) ∷ message m ∷ rest
      → lookup job.filename xs ≡ some (p, f)
      → f.used_memory ≡ length f.buffer
      → length xs ≤ w.server.max_files
      → total xs + length m ≤ w.server.max_memory
      → Returns (Fitted (on w)) (serve_append host policy job (on w))
  unfolding serve_append
  append_on e found flushed few fits =
      let n = job.filename in
      let k = length m in
      let all = after_use policy n xs in
      Returns-lift _ (on w) (find_file-Found w.server n policy i.holds) λ r t g.
        let there = has_name_of_lookup n all (p, f) (lookup-after_use n policy xs ∙ found) in
        let hits = hit n all there in
        let c = hits.cell in
        let listed : lookup n all ≡ some c =
          ap (lookup n) hits.parts ∙ lookup_hit n hits.before c hits.after hits.new hits.same in
        let found' : lookup n xs ≡ some c = sym (lookup-after_use n policy xs) ∙ listed in
        let (q, at) = Chain-lookup n all c g.holds.chain listed in
        let j = Sound-after_search i g in
        let h = j.holds in
        let size : total all ≡ total xs =
          omega (arith, g.holds.used, g.steady.n_current_memory_used, i.holds.used) in
        let count : length all ≡ length xs =
          omega (arith, g.holds.files, g.steady.n_current_file, i.holds.files) in
        let here : r ≡ c.0 = g.found ∙ ap address found' in
        let admit = admitted t (length all + 0) (total all + k) in
        let u = record admit { errno = ecanceled } in
        let open_at : Holds u all = record {
          chain = h.chain;
          files = h.files;
          used = h.used;
          few = h.few;
          small = h.small;
        } in
        let put =
          ap (λ d. hits.before ++ (c.0, appended c.1 d) ∷ hits.after) (take_whole m (0 ∷ []))
          ∙ sym (append_first_hit n m hits.before c hits.after hits.new hits.same)
          ∙ sym (ap (append_first n m) hits.parts) in
        rw (g.found, found')
          (rw (not_null at) (
            rw e (
              rw
                (cache_algorithm-legal t 0 k (omega arith) (omega (arith, i.max_memory)) j
                  (omega (arith, g.steady.max_memory)) (omega (arith, g.steady.max_files)))
                (rw here (
                  Returns-lift _
                    (record w {
                      server = u;
                      connected = true;
                      incoming = rest;
                      sent = w.sent ++ number continue ∷ [];
                    })
                    (write_to_file-Written u hits.before c.0 c.1 hits.after
                      (subst (Holds u) hits.parts open_at) (m ++ 0 ∷ []) k
                      (omega (arith, length-append m (0 ∷ []))) (omega (arith, i.max_memory))
                      (flushed_same (sym found ∙ found') flushed)
                      (omega (arith, ap total hits.parts, i.max_memory)))
                    λ o x (done, left, outside). returns (record {
                      turn = refl;
                      holds = subst (Holds x) put left;
                      connected = refl;
                      incoming = refl;
                      sent = refl;
                      responses = refl;
                    }))))))

  -- With the limits and the contents below 2 ^ 31, an append of a connected client to a file that
  -- is there and whose size is that of its contents, with a size that fits within the memory limit
  -- beside what is stored and a message of that size, where there are no more files than the limit,
  -- drops no file: the data stand at the end of the first file of that name, the files are
  -- reordered as the policy says, the client gets one `CONTINUE`, and the one response is a
  -- success.
  pub serve_append-Fitted :
      w.connected ≡ true
      → w.incoming ≡ number (length m) ∷ message m ∷ rest
      → lookup job.filename xs ≡ some (p, f)
      → f.used_memory ≡ length f.buffer
      → length xs ≤ w.server.max_files
      → total xs + length m ≤ w.server.max_memory
      → Returns (Fitted w) (serve_append host policy job w)
  serve_append-Fitted up e found flushed few fits =
      Returns-on (serve_append host policy job) w up (append_on e found flushed few fits)
