-- ===== src/Server/Worker/Refusal.antt =====
-- `WRITE_FILE` and `APPEND_FILE` with more data than the cache may hold.
use progetto_sol_unipi.Base.{
  ℕ, ◌<◌, ◌^◌, ◌≡◌, refl, ◌∙◌, inr, true, arith, List, [], ◌∷◌, ◌++◌, some, append_assoc,
}
use progetto_sol_unipi.Base.Command.{Returns, returns, Returns-of_eq}
use progetto_sol_unipi.Memory.State.{Ptr, Policy, File, Server, e2big}
use progetto_sol_unipi.Memory.Chain.{Cells, not_null}
use progetto_sol_unipi.Memory.Cache.{lookup, after_use}
use progetto_sol_unipi.Memory.Evict.{cache_algorithm}
use progetto_sol_unipi.Memory.Evict.Admit.{Sound, cache_algorithm-too_big}
use progetto_sol_unipi.Memory.Find.Found.{Holds-errno, find_file-Found}
use progetto_sol_unipi.Memory.Files.{Host}
use progetto_sol_unipi.Memory.Files.Remove.{Chain-lookup}
use progetto_sol_unipi.Server.Wire.{Packet, number, World}
use progetto_sol_unipi.Server.Worker.{
  Job, Turn, serve_write, serve_append, continue, no_continue, not_ok,
}
use progetto_sol_unipi.Server.Worker.Served.{Served, on, Returns-on, Returns-lift, lookup-after_use}
use progetto_sol_unipi.Server.Worker.Finish.{Sound-after_search}

module _ (host : Host) (policy : Policy) (job : Job) (w : World) (p : Ptr) (f : File) (k : ℕ)
    (rest : List Packet) {xs : Cells} (i : Sound w.server xs) where
  abbrev Refused : World → Turn → World → Type 0
  Refused u r v =
      Served u (after_use policy job.filename xs) (number continue ∷ number no_continue ∷ [])
        (record { err = e2big; status_request = not_ok } ∷ []) rest r v

  too_big :
      (t : Server) {ys : Cells}
      → Sound t ys
      → t.max_memory < k
      → k < 2 ^ 31
      → Returns (λ _ u. u ≡ record t { errno = e2big }) (cache_algorithm 0 k t)
  too_big t j above few =
      Returns-of_eq (cache_algorithm-too_big t 0 k (omega arith) few j (inr above)) refl

  write_on :
      w.incoming ≡ number k ∷ rest
      → lookup job.filename xs ≡ some (p, f)
      → w.server.max_memory < k
      → k < 2 ^ 31
      → Returns (Refused (on w)) (serve_write host policy job (on w))
  unfolding serve_write
  write_on e found above few =
      let n = job.filename in
      Returns-lift _ (on w) (find_file-Found w.server n policy i.holds) λ r t g.
        let listed = lookup-after_use n policy xs ∙ found in
        let (q, at) = Chain-lookup n (after_use policy n xs) (p, f) g.holds.chain listed in
        rw (g.found, found)
          (rw (not_null at) (
            rw e (
              Returns-lift _
                (record w {
                  server = t;
                  connected = true;
                  incoming = rest;
                  sent = w.sent ++ number continue ∷ [];
                })
                (too_big t (Sound-after_search i g) (rw (g.steady.max_memory) above) few)
                λ _ u same. rw same (
                  returns (record {
                    turn = refl;
                    holds = Holds-errno e2big g.holds;
                    connected = refl;
                    incoming = refl;
                    sent = append_assoc w.sent _ _;
                    responses = refl;
                  })))))

  append_on :
      w.incoming ≡ number k ∷ rest
      → lookup job.filename xs ≡ some (p, f)
      → w.server.max_memory < k
      → k < 2 ^ 31
      → Returns (Refused (on w)) (serve_append host policy job (on w))
  unfolding serve_append
  append_on e found above few =
      let n = job.filename in
      Returns-lift _ (on w) (find_file-Found w.server n policy i.holds) λ r t g.
        let listed = lookup-after_use n policy xs ∙ found in
        let (q, at) = Chain-lookup n (after_use policy n xs) (p, f) g.holds.chain listed in
        rw (g.found, found)
          (rw (not_null at) (
            rw e (
              Returns-lift _
                (record w {
                  server = t;
                  connected = true;
                  incoming = rest;
                  sent = w.sent ++ number continue ∷ [];
                })
                (too_big t (Sound-after_search i g) (rw (g.steady.max_memory) above) few)
                λ _ u same. rw same (
                  returns (record {
                    turn = refl;
                    holds = Holds-errno e2big g.holds;
                    connected = refl;
                    incoming = refl;
                    sent = append_assoc w.sent _ _;
                    responses = refl;
                  })))))

  -- With the limits and the contents below 2 ^ 31, data above the memory limit, fewer than 2 ^ 31
  -- bytes and for a file that is there, are refused in the same way by `WRITE_FILE` and by
  -- `APPEND_FILE` of a connected client that announces their size: the client gets `CONTINUE` and
  -- then `NO_CONTINUE`, the one response is `E2BIG`, no message is received, and the files are
  -- those that were there, reordered as the policy says.
  pub serve_write-append-Refused :
      w.connected ≡ true
      → w.incoming ≡ number k ∷ rest
      → lookup job.filename xs ≡ some (p, f)
      → w.server.max_memory < k
      → k < 2 ^ 31
      → Returns (Refused w) (serve_write host policy job w)
        × Returns (Refused w) (serve_append host policy job w)
  serve_write-append-Refused up e found above few = (
    Returns-on (serve_write host policy job) w up (write_on e found above few),
    Returns-on (serve_append host policy job) w up (append_on e found above few),
  )
