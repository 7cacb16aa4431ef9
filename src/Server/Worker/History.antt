-- ===== src/Server/Worker/History.antt =====
-- Any history of turns of `worker_thread`.
use progetto_sol_unipi.Base.{
  ℕ, ◌<◌, ◌^◌, ◌≡◌, refl, inl, inr, Bool-cases, Bool, true, false, [], arith, ◌==◌, if◌then◌else◌,
}
use progetto_sol_unipi.Base.Command.{ok, Cmd, Returns, returns, Returns-mono, Returns-result}
use progetto_sol_unipi.Base.Steps.{Reach, here, next}
use progetto_sol_unipi.Memory.State.{Policy, Server}
use progetto_sol_unipi.Memory.Evict.{init_memory}
use progetto_sol_unipi.Memory.Chain.{nil}
use progetto_sol_unipi.Server.Wire.{World}
use progetto_sol_unipi.Server.Worker.{
  Turn, serve, serve_open, open_file, close_file, read_file, write_file, append_file, readn_file,
  remove_file, close_connection, o_create,
}
use progetto_sol_unipi.Server.Worker.Read.{serve_read-Served}
use progetto_sol_unipi.Server.Worker.Open.{serve_open-Served}
use progetto_sol_unipi.Server.Worker.Removal.{serve_remove-Served}
use progetto_sol_unipi.Server.Worker.Several.{serve_readn-Served}
use progetto_sol_unipi.Server.Worker.Limits.{serve-Limited}
use progetto_sol_unipi.Server.Worker.Stored.{Stored-after_use, Stored-erase}
use progetto_sol_unipi.Server.Worker.Marked.{Stored-after_open}
use progetto_sol_unipi.Server.Worker.Spec.{Follows}
use progetto_sol_unipi.Server.Worker.Follow.{
  opened-Follows, used-Follows, nothing-Follows, removed-Follows,
}
use progetto_sol_unipi.Server.Worker.Request.{
  Request, Fair, taken, Keeps, Keeps-Sound, Returns-Meets,
}
use progetto_sol_unipi.Server.Worker.Keeping.{
  Filed, Filed-Served, create-Filed, close-Filed, serve_write-Filed, serve_append-Filed,
}

pub init_memory-Keeps :
    (files memory : ℕ) (s : Server)
    → Returns (λ _ t. Keeps files memory t) (init_memory files memory s)
unfolding init_memory
init_memory-Keeps files memory s = returns (record {
  cells = [];
  holds = record { chain = nil; files = refl; used = refl; few = omega arith; small = omega arith };
  stored = record { tidy = tt; few = omega arith; small = omega arith };
  max_files = refl;
  max_memory = refl;
})

module _ (policy : Policy) (files memory : ℕ) (many : 1 < files) (few : files < 2 ^ 31)
    (some_memory : 0 < memory) (small : memory < 2 ^ 31) where
  module _ (q : Request) (w : World) (k : Keeps files memory w.server)
      (fair : Fair memory q w.server) where
    abbrev FiledBy : Cmd World Turn → Type 0
    FiledBy m = Returns (λ _ t. Filed files memory q k.cells t) (m (taken q w))

    FiledBy-choice :
        (b : Bool) (m n : Cmd World Turn)
        → (b ≡ true → FiledBy m)
        → (b ≡ false → FiledBy n)
        → FiledBy (if b then m else n)
    FiledBy-choice true m n yes_case no_case = yes_case refl
    FiledBy-choice false m n yes_case no_case = no_case refl

    open-Filed : (q.job.op == open_file) ≡ true → FiledBy (serve_open q.host policy q.job)
    unfolding serve_open
    open-Filed op = elim (Bool-cases (q.job.flags == o_create)) [
      | inl y ↦ rw y (
          create-Filed policy q files memory w k (Keeps-Sound few small k) many some_memory fair
            (ground arith))
      | inr o ↦ Returns-mono (serve_open-Served q.host policy q.job (taken q w) k.holds o) λ _ t c.
          Filed-Served (Stored-after_open q.job.filename policy k.cells k.stored)
            (opened-Follows policy memory q k.cells op o) c
    ]

    serve-Filed : FiledBy (serve q.host policy q.job)
    unfolding serve
    serve-Filed =
        let h = k.holds in
        let i = Keeps-Sound few small k in
        FiledBy-choice (q.job.op == open_file) _ _ open-Filed λ n1.
          FiledBy-choice (q.job.op == close_file) _ _
            (λ y. close-Filed policy q files memory w k i many some_memory fair y)
            λ n2.
              FiledBy-choice (q.job.op == read_file) _ _
                (λ y.
                  Returns-mono (serve_read-Served q.host policy q.job (taken q w) h refl) λ _ t c.
                    Filed-Served (Stored-after_use q.job.filename policy k.cells k.stored)
                      (used-Follows policy memory q k.cells n1 n2 (ground arith) (ground arith)) c)
                λ n3.
                  FiledBy-choice (q.job.op == write_file) _ _
                    (serve_write-Filed policy q files memory w k i many some_memory fair)
                    λ n4.
                      FiledBy-choice (q.job.op == append_file) _ _
                        (serve_append-Filed policy q files memory w k i many some_memory fair)
                        λ n5.
                          FiledBy-choice (q.job.op == readn_file) _ _
                            (λ y.
                              Returns-mono
                                (serve_readn-Served q.host policy (taken q w) q.job k.cells h refl)
                                λ _ t c.
                                  Filed-Served k.stored
                                    (nothing-Follows policy memory q k.cells n1 n2 (ground arith)
                                      (ground arith))
                                    c)
                            λ n6.
                              FiledBy-choice (q.job.op == remove_file) _ _
                                (λ y.
                                  Returns-mono
                                    (serve_remove-Served q.host policy q.job (taken q w) h)
                                    λ _ t c.
                                      Filed-Served (Stored-erase q.job.filename k.cells k.stored)
                                        (removed-Follows policy memory q k.cells y k.stored.tidy) c)
                                λ n7.
                                  FiledBy-choice (q.job.op == close_connection) _ _
                                    (λ y. returns (record {
                                      cells = k.cells;
                                      holds = h;
                                      stored = k.stored;
                                      follows =
                                          nothing-Follows policy memory q k.cells n1 n2
                                            (ground arith) (ground arith);
                                    }))
                                    λ n8. returns (record {
                                      cells = k.cells;
                                      holds = h;
                                      stored = k.stored;
                                      follows =
                                          nothing-Follows policy memory q k.cells n1 n2
                                            (ground arith) (ground arith);
                                    })

  -- The outcome of a turn: the cache is well-formed, and the names stand for what the request makes
  -- of them.
  pub record Refined (q : Request) (w : World) (k : Keeps files memory w.server) (t : World)
      : Type 0 where
    pub keeps : Keeps files memory t.server
    pub follows : Follows memory q k.cells keeps.cells

  -- One turn of a worker does to the cache what its request should do to a map from names to open
  -- or closed contents, whatever is asked: a creation of a new name puts an open, empty file, the
  -- other requests open, close or remove the file of that name or add data at its end, and data
  -- that are refused or broken off add nothing; no other name changes. But with the creation of a
  -- new file other names, and with a write whose size is not above the limit any name, may come to
  -- stand for nothing; the file that is created is there. The cache stays well-formed: the list in the heap
  -- stands for files whose sizes are those of their contents, no two of them with the same name,
  -- within both limits, which stay as they are. The turn ends without a fault and without leaving
  -- the process. The client is connected, the limits are below 2 ^ 31, above one file and zero
  -- bytes, and the request is fair: while a file is created its name is short enough, the calls of
  -- the system succeed and `malloc` gives a free address; the data of a write to a file that is
  -- there come as announced, or broken off, and their size is not exactly the memory limit; and
  -- those of an append to a file that is there come as announced and fit beside what is stored, or
  -- their size is above the limit. Sizes above the limit are below 2 ^ 31.
  pub serve-Refined :
      (q : Request) (w : World) (k : Keeps files memory w.server)
      → Fair memory q w.server
      → Returns (λ _ t. Refined q w k t) (serve q.host policy q.job (taken q w))
  serve-Refined q w k fair =
      Returns-mono
        (Returns-Meets (serve-Filed q w k fair)
          (serve-Limited q.host policy q.job files memory (taken q w) k.max_files
            k.max_memory).limited)
        λ _ t (f, (m, n)). record {
          keeps = record {
            cells = f.cells;
            holds = f.holds;
            stored = f.stored;
            max_files = m;
            max_memory = n;
          };
          follows = f.follows;
        }

  -- A turn for a fair request, which has come to an end.
  pub data Turned (w : World) : World → Type 0 where
    turned :
        (q : Request) {r : Turn} {v : World}
        → Fair memory q w.server
        → serve q.host policy q.job (taken q w) ≡ ok r v
        → Turned w v

  -- After any number of turns for fair requests, each with its own client and its own answers of
  -- the system, on a cache that `initMemory` has set up with limits below 2 ^ 31, above one file
  -- and zero bytes, the cache is well-formed and within both limits, which are those of the start.
  pub Reach-Keeps :
      (w : World) (s : Server)
      → init_memory files memory s ≡ ok tt w.server
      → {v : World} → Reach Turned w v
      → Keeps files memory v.server
  Reach-Keeps w s e here = Returns-result (init_memory-Keeps files memory s) e
  Reach-Keeps w s e (next {t} r (turned q fair done)) =
      (Returns-result (serve-Refined q t (Reach-Keeps w s e r) fair) done).keeps
