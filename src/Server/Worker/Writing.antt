-- ===== src/Server/Worker/Writing.antt =====
-- `WRITE_FILE`.
use progetto_sol_unipi.Base.{
  ℕ, ◌+◌, ◌<◌, ◌≤◌, ◌≡◌, sym, subst, ◌∙◌, true, false, List, [], ◌∷◌, ◌++◌, some, arith, ◌==◌,
  length,
}
use progetto_sol_unipi.Base.Command.{Returns, Returns-mono, Returns-if_false}
use progetto_sol_unipi.Memory.State.{Ptr, Name, Policy, File, e2big}
use progetto_sol_unipi.Memory.Chain.{Cells, total, not_null}
use progetto_sol_unipi.Memory.Cache.{has_name, lookup, after_use}
use progetto_sol_unipi.Memory.Find.Found.{find_file-Found}
use progetto_sol_unipi.Memory.Files.{Host}
use progetto_sol_unipi.Memory.Files.Remove.{Chain-lookup}
use progetto_sol_unipi.Memory.Evict.Admit.{Sound}
use progetto_sol_unipi.Memory.Evict.Outcome.{cache_algorithm-Room}
use progetto_sol_unipi.Server.Wire.{Packet, number, message, World}
use progetto_sol_unipi.Server.Worker.{Job, Turn, serve_write, continue}
use progetto_sol_unipi.Server.Worker.Served.{Served, on, Returns-lift, lookup-after_use}
use progetto_sol_unipi.Server.Worker.Finish.{
  append_first, write_packets, write_response, Sound-after_search, finish_on, kept_flushed,
}

-- The outcome of a write of `more` to the first file of that name: the older files may have gone,
-- and the data stand in the file if it is among those that are kept.
pub record Wrote (w : World) (n : Name) (more : List ℕ) (xs : Cells) (rest : List Packet) (r : Turn)
    (v : World) : Type 0 where
  pub kept : Cells
  pub gone : Cells
  pub parts : xs ≡ kept ++ gone
  pub memory_fits : total kept + length more ≤ w.server.max_memory
  pub served :
      Served w
        (append_first n more kept)
        (write_packets (has_name n kept))
        (write_response (has_name n kept) ∷ [])
        rest
        r
        v

module _ (host : Host) (policy : Policy) (job : Job) (w : World) (p : Ptr) (f : File) (m : List ℕ)
    (rest : List Packet) {xs : Cells} (i : Sound w.server xs) where
  write_on :
      w.incoming ≡ number (length m) ∷ message m ∷ rest
      → lookup job.filename xs ≡ some (p, f)
      → f.used_memory ≡ length f.buffer
      → 0 < w.server.max_files
      → length m < w.server.max_memory
      → Returns
          (Wrote (on w) job.filename m (after_use policy job.filename xs) rest)
          (serve_write host policy job (on w))
  unfolding serve_write
  write_on e found flushed some_files below =
      let n = job.filename in
      let k = length m in
      let all = after_use policy n xs in
      Returns-lift _ (on w) (find_file-Found w.server n policy i.holds) λ r t g.
        let listed = lookup-after_use n policy xs ∙ found in
        let (q, at) = Chain-lookup n all (p, f) g.holds.chain listed in
        rw (g.found, found)
          (rw (not_null at) (
            rw e (
              Returns-lift _
                (record w {
                  server = t;
                  connected = true;
                  incoming = message m ∷ rest;
                  sent = w.sent ++ number continue ∷ [];
                })
                (cache_algorithm-Room t 0 k (Sound-after_search i g)
                  (rw (g.steady.max_files) some_files) (rw (g.steady.max_memory) below))
                λ _ u room.
                  let proceed : (u.errno == e2big) ≡ false = (let z = room.error in ground arith) in
                  let fits : total room.kept + k ≤ w.server.max_memory =
                    omega (arith, room.memory_fits, g.steady.max_memory) in
                  Returns-if_false _ _ _ proceed (
                    Returns-mono
                      (finish_on host policy job w m rest u room.kept room.holds
                        (kept_flushed n all room.kept room.gone (p, f) room.parts listed flushed)
                        (omega (arith, i.max_memory)) (omega (arith, i.max_memory)))
                      λ o v done. record {
                        kept = room.kept;
                        gone = room.gone;
                        parts = room.parts;
                        memory_fits = fits;
                        served = record {
                          turn = done.turn;
                          holds = done.holds;
                          connected = done.connected;
                          incoming = done.incoming;
                          sent = done.sent;
                          responses = done.responses;
                        };
                      }))))

  -- With the limits and the contents below 2 ^ 31, a connected client writes to a file that is
  -- there and whose size is that of its contents, with a size below the memory limit and a message
  -- of that size. The worker makes room first: the more recent files stay, and with the new data
  -- they are within the memory limit. If the file is among them, the data stand at its end, the
  -- client gets `CONTINUE` three times, and the one response is a success. If the eviction has
  -- reached the file itself, nothing is written, the third number is `NOT_OK`, and the one response
  -- is `ENOENT`.
  pub serve_write-Wrote :
      w.connected ≡ true
      → w.incoming ≡ number (length m) ∷ message m ∷ rest
      → lookup job.filename xs ≡ some (p, f)
      → f.used_memory ≡ length f.buffer
      → 0 < w.server.max_files
      → length m < w.server.max_memory
      → Returns
          (Wrote w job.filename m (after_use policy job.filename xs) rest)
          (serve_write host policy job w)
  serve_write-Wrote up e found flushed some_files below =
      let live : on w ≡ w = λ i. record w { connected = sym up i } in
      subst
        (λ u.
          Returns (Wrote u job.filename m (after_use policy job.filename xs) rest)
            (serve_write host policy job u))
        live (write_on e found flushed some_files below)
