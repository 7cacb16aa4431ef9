-- ===== src/Server/Worker/Broken.antt =====
-- `WRITE_FILE` whose message does not arrive whole.
use progetto_sol_unipi.Base.{
  ℕ, ◌+◌, ◌<◌, ◌≤◌, ◌≡◌, refl, sym, subst, ◌∙◌, false, true, List, [], ◌∷◌, ◌++◌, some, arith, ◌==◌,
  append_assoc,
}
use progetto_sol_unipi.Base.Command.{Returns, returns, Returns-if_false}
use progetto_sol_unipi.Memory.State.{Ptr, Policy, File, e2big}
use progetto_sol_unipi.Memory.Chain.{Cells, total, not_null}
use progetto_sol_unipi.Memory.Cache.{lookup, after_use}
use progetto_sol_unipi.Memory.Find.Found.{find_file-Found}
use progetto_sol_unipi.Memory.Files.{Host}
use progetto_sol_unipi.Memory.Files.Remove.{Chain-lookup}
use progetto_sol_unipi.Memory.Evict.Admit.{Sound}
use progetto_sol_unipi.Memory.Evict.Outcome.{cache_algorithm-Room}
use progetto_sol_unipi.Server.Wire.{Packet, number, broken, World}
use progetto_sol_unipi.Server.Worker.{Job, Turn, serve_write, continue, efault, not_ok}
use progetto_sol_unipi.Server.Worker.Served.{Served, on, Returns-lift, lookup-after_use}
use progetto_sol_unipi.Server.Worker.Finish.{Sound-after_search}

-- The outcome of a write of `k` bytes that breaks off: older files may have gone, to make room for
-- what has not come.
pub record BrokenOff (w : World) (k : ℕ) (xs : Cells) (rest : List Packet) (r : Turn) (v : World)
    : Type 0 where
  pub kept : Cells
  pub gone : Cells
  pub parts : xs ≡ kept ++ gone
  pub memory_fits : total kept + k ≤ w.server.max_memory
  pub served :
      Served w kept
        (number continue ∷ number continue ∷ [])
        (record { err = efault; status_request = not_ok } ∷ [])
        rest
        r
        v

module _ (host : Host) (policy : Policy) (job : Job) (w : World) (p : Ptr) (f : File) (k : ℕ)
    (rest : List Packet) {xs : Cells} (i : Sound w.server xs) where
  write_on :
      w.incoming ≡ number k ∷ broken ∷ rest
      → lookup job.filename xs ≡ some (p, f)
      → 0 < w.server.max_files
      → k < w.server.max_memory
      → Returns
          (BrokenOff (on w) k (after_use policy job.filename xs) rest)
          (serve_write host policy job (on w))
  unfolding serve_write
  write_on e found some_files below =
      let n = job.filename in
      let all = after_use policy n xs in
      Returns-lift _ (on w) (find_file-Found w.server n policy i.holds) λ r t g.
        let listed = lookup-after_use n policy xs ∙ found in
        let (q, at) = Chain-lookup n all (p, f) g.holds.chain listed in
        rw (g.found, found)
          (rw (not_null at) (
            rw e (
              Returns-lift _
                (record w {
                  server = t;
                  connected = true;
                  incoming = broken ∷ rest;
                  sent = w.sent ++ number continue ∷ [];
                })
                (cache_algorithm-Room t 0 k (Sound-after_search i g)
                  (rw (g.steady.max_files) some_files) (rw (g.steady.max_memory) below))
                λ _ u room.
                  let proceed : (u.errno == e2big) ≡ false = (let z = room.error in ground arith) in
                  Returns-if_false _ _ _ proceed (
                    returns (record {
                      kept = room.kept;
                      gone = room.gone;
                      parts = room.parts;
                      memory_fits = omega (arith, room.memory_fits, g.steady.max_memory);
                      served = record {
                        turn = refl;
                        holds = room.holds;
                        connected = refl;
                        incoming = refl;
                        sent = append_assoc w.sent _ _;
                        responses = refl;
                      };
                    })))))

  -- With the limits and the contents below 2 ^ 31, a write of a connected client to a file that is
  -- there, whose size is below the memory limit and whose message does not arrive whole, answers
  -- with one `EFAULT` after `CONTINUE` twice. Nothing is written, but the room for the size has
  -- been made: the more recent files stay, and with that size they are within the memory limit.
  pub serve_write-BrokenOff :
      w.connected ≡ true
      → w.incoming ≡ number k ∷ broken ∷ rest
      → lookup job.filename xs ≡ some (p, f)
      → 0 < w.server.max_files
      → k < w.server.max_memory
      → Returns
          (BrokenOff w k (after_use policy job.filename xs) rest)
          (serve_write host policy job w)
  serve_write-BrokenOff up e found some_files below =
      let live : on w ≡ w = λ i. record w { connected = sym up i } in
      subst
        (λ u.
          Returns (BrokenOff u k (after_use policy job.filename xs) rest)
            (serve_write host policy job u))
        live (write_on e found some_files below)
