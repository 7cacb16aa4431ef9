-- ===== src/Server/Worker/Missing.antt =====
-- `WRITE_FILE` and `APPEND_FILE` to a file that is not there.
use progetto_sol_unipi.Base.{◌≡◌, refl, true, false, [], ◌∷◌}
use progetto_sol_unipi.Base.Command.{Returns, returns}
use progetto_sol_unipi.Memory.State.{Policy}
use progetto_sol_unipi.Memory.Cache.{has_name, Holds, after_use, lookup_miss}
use progetto_sol_unipi.Memory.Find.Found.{find_file-Found}
use progetto_sol_unipi.Memory.Files.{Host}
use progetto_sol_unipi.Memory.Chain.{Cells}
use progetto_sol_unipi.Server.Wire.{number, World}
use progetto_sol_unipi.Server.Worker.{Job, Turn, serve_write, serve_append, not_ok, enonet}
use progetto_sol_unipi.Server.Worker.Served.{Served, on, Returns-on, Returns-lift}

module _ (host : Host) (policy : Policy) (job : Job) (w : World) {xs : Cells}
    (h : Holds w.server xs) (new : has_name job.filename xs ≡ false) where
  abbrev Missed : World → Turn → World → Type 0
  Missed u r v =
      Served u (after_use policy job.filename xs) (number not_ok ∷ [])
        (record { err = enonet; status_request = not_ok } ∷ []) w.incoming r v

  write_on : Returns (Missed (on w)) (serve_write host policy job (on w))
  unfolding serve_write
  write_on = Returns-lift _ (on w) (find_file-Found w.server job.filename policy h) λ r t f.
      rw (f.found, lookup_miss job.filename xs new)
        (returns (record {
          turn = refl;
          holds = f.holds;
          connected = refl;
          incoming = refl;
          sent = refl;
          responses = refl;
        }))

  append_on : Returns (Missed (on w)) (serve_append host policy job (on w))
  unfolding serve_append
  append_on = Returns-lift _ (on w) (find_file-Found w.server job.filename policy h) λ r t f.
      rw (f.found, lookup_miss job.filename xs new)
        (returns (record {
          turn = refl;
          holds = f.holds;
          connected = refl;
          incoming = refl;
          sent = refl;
          responses = refl;
        }))

  -- For a connected client, a write and an append to a file that is not there send `NOT_OK`,
  -- receive nothing, answer with `ENONET`, and leave the cache as it was.
  pub serve_write-append-Missed :
      w.connected ≡ true
      → Returns (Missed w) (serve_write host policy job w)
        × Returns (Missed w) (serve_append host policy job w)
  serve_write-append-Missed up = (
    Returns-on (serve_write host policy job) w up write_on,
    Returns-on (serve_append host policy job) w up append_on,
  )
