-- ===== src/Server/Worker/Create.antt =====
-- `OPEN_FILE` with `O_CREATE`.
use progetto_sol_unipi.Base.{
  ◌+◌, ◌<◌, ◌≤◌, ◌^◌, ◌≡◌, ◌≢◌, refl, sym, subst, true, false, ◌||◌, [], ◌∷◌, ◌++◌, append-nil,
  arith, ◌==◌, ltb, length,
}
use progetto_sol_unipi.Base.Command.{ok, Returns, returns, Returns-if_false}
use progetto_sol_unipi.Memory.State.{Ptr, null, Name, Policy, File, Server, write, eexist, max_name}
use progetto_sol_unipi.Memory.Chain.{
  Cells, owns, owns-append, total, link, with_heap, Points, Chain-write, write_self, not_null,
}
use progetto_sol_unipi.Memory.Cache.{has_name, Holds}
use progetto_sol_unipi.Memory.Find.Search.{in_mem_lem}
use progetto_sol_unipi.Memory.Files.{Host}
use progetto_sol_unipi.Memory.Files.Add.{new_file, create_file_lem, Added, add_file_to_memory-Added}
use progetto_sol_unipi.Memory.Files.Contents.{set_file_open-Flagged}
use progetto_sol_unipi.Memory.Evict.Admit.{Sound}
use progetto_sol_unipi.Memory.Evict.Outcome.{cache_algorithm-Room}
use progetto_sol_unipi.Server.Wire.{World}
use progetto_sol_unipi.Server.Worker.{Job, Turn, again, serve_create, status_ok, not_ok}
use progetto_sol_unipi.Server.Worker.Served.{Served, Returns-lift}

has_name-append :
    (n : Name) (xs ys : Cells) → has_name n (xs ++ ys) ≡ (has_name n xs || has_name n ys)
has_name-append n [] ys = refl
has_name-append n (x ∷ xs) ys = ground (arith, has_name-append n xs ys)

-- The state between `create_file` and `add_file_to_memory`.
module _ (p : Ptr) (n : Name) (t : Server) where
  abbrev created : Server
  created = with_heap t (write t.heap p (link (new_file n) null null))

  created-Points : p ≢ null → Points created.heap p (new_file n) null
  created-Points ne = record {
    ne_null = ne;
    back = null;
    holds = write_self t.heap p (link (new_file n) null null);
  }

  created-Holds : {xs : Cells} → Holds t xs → owns p xs ≡ false → Holds created xs
  created-Holds h out = record {
    chain = Chain-write p _ h.chain out;
    files = h.files;
    used = h.used;
    few = h.few;
    small = h.small;
  }

abbrev pub opened_file : Name → File
opened_file n = record { buffer = []; used_memory = 0; filename = n; is_open = true }

-- The outcome of a creation: the new file comes first, empty and open, and the files behind it,
-- with it, are within both limits.
pub record Created (w : World) (xs : Cells) (p : Ptr) (n : Name) (r : Turn) (v : World)
    : Type 0 where
  pub kept : Cells
  pub gone : Cells
  pub parts : xs ≡ kept ++ gone
  pub served :
      Served w
        ((p, opened_file n) ∷ kept)
        []
        (record { err = 0; status_request = status_ok } ∷ [])
        w.incoming
        r
        v
  pub files_fit : length kept + 1 ≤ w.server.max_files
  pub memory_fits : total kept ≤ w.server.max_memory

module _ (host : Host) (policy : Policy) (job : Job) (w : World) {xs : Cells}
    (i : Sound w.server xs) where
  -- A creation of a file that is there already answers `EEXIST` and changes nothing.
  pub serve_create-exists :
      has_name job.filename xs ≡ true
      → serve_create host policy job w
        ≡ ok again (record w {
          responses = w.responses ++ (record { err = eexist; status_request = not_ok }) ∷ [];
        })
  unfolding serve_create
  serve_create-exists y = rw (in_mem_lem w.server job.filename i.holds, y) refl

  -- With the limits and the contents below 2 ^ 31, a creation under a new name of fewer than
  -- `MAXNAME` characters, where the calls of the system succeed, `malloc` gives an address at which
  -- no listed file stands, and the limits are above one file and zero bytes, makes room, puts the
  -- new file first, empty and open, before the more recent of the old files, within both limits,
  -- and answers with one success and no packet.
  pub serve_create-Created :
      has_name job.filename xs ≡ false
      → length job.filename < max_name
      → host.malloc ≢ null
      → (host.open_memstream ≡ true) × (host.mutex_init ≡ true)
      → owns host.malloc xs ≡ false
      → 1 < w.server.max_files
      → 0 < w.server.max_memory
      → Returns (Created w xs host.malloc job.filename) (serve_create host policy job w)
  unfolding serve_create
  serve_create-Created new short ne ready fresh many some_memory =
      let n = job.filename in
      let p = host.malloc in
      let fits : ltb (length n) max_name ≡ true = ground arith in
      rw (in_mem_lem w.server n i.holds, new)
        (Returns-lift _ w (cache_algorithm-Room w.server 1 0 i many some_memory) λ _ t room.
          let own = owns-append p room.kept room.gone in
          let named = has_name-append n room.kept room.gone in
          let fresh' : owns p (room.kept ++ room.gone) ≡ false =
            subst (λ l. owns p l ≡ false) room.parts fresh in
          let new' : has_name n (room.kept ++ room.gone) ≡ false =
            subst (λ l. has_name n l ≡ false) room.parts new in
          let out : owns p room.kept ≡ false = ground arith in
          let unnamed : has_name n room.kept ≡ false = ground arith in
          let at = created-Points p n t ne in
          let made = created p n t in
          let few : length room.kept + 1 < 2 ^ 31 = omega (arith, room.files_fit, i.max_files) in
          let here : (p == null) ≡ false = not_null at in
          rw (create_file_lem host n t ne ready, fits)
            (Returns-if_false _ _ _ here (
              Returns-lift _ (record w { server = made })
                (add_file_to_memory-Added made p (new_file n) refl at out
                  (created-Holds p n t room.holds out) few)
                λ r u a.
                  let added : Added made room.kept p (new_file n) r u = rw unnamed at a in
                  Returns-lift _ (record w { server = u })
                    (set_file_open-Flagged u [] p (new_file n) room.kept added.holds)
                    λ _ v (listed, same). returns (record {
                      kept = room.kept;
                      gone = room.gone;
                      parts = room.parts;
                      served = record {
                        turn = refl;
                        holds = listed;
                        connected = refl;
                        incoming = refl;
                        sent = sym (append-nil w.sent);
                        responses = refl;
                      };
                      files_fit = room.files_fit;
                      memory_fits = omega (arith, room.memory_fits);
                    }))))
