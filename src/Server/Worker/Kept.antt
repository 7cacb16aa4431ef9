-- ===== src/Server/Worker/Kept.antt =====
-- The loop of `worker_thread` over jobs that do not write.
use progetto_sol_unipi.Base.{
  ◌≡◌, refl, ◌∙◌, inl, inr, Bool-cases, Bool, true, false, ◌&&◌, ◌||◌, List, [], ◌∷◌, arith, ◌==◌,
  if◌then◌else◌,
}
use progetto_sol_unipi.Base.Command.{Cmd, Returns, returns, Returns-bind, Returns-mono}
use progetto_sol_unipi.Memory.State.{Policy}
use progetto_sol_unipi.Memory.Chain.{Cells}
use progetto_sol_unipi.Memory.Cache.{has_name, Holds, lookup_miss}
use progetto_sol_unipi.Memory.Find.Found.{find_file-Found}
use progetto_sol_unipi.Memory.Files.{Host}
use progetto_sol_unipi.Server.Wire.{Packet, Response, World}
use progetto_sol_unipi.Server.Worker.{
  Job, Turn, again, stop, serve, serve_close, after_turn, worker_loop, o_create, open_file,
  close_file, read_file, write_file, append_file, readn_file, remove_file, close_connection,
}
use progetto_sol_unipi.Server.Worker.Served.{Served, Returns-lift}
use progetto_sol_unipi.Server.Worker.Read.{serve_read-Served}
use progetto_sol_unipi.Server.Worker.Close.{serve_close-Served}
use progetto_sol_unipi.Server.Worker.Open.{serve_open-Served}
use progetto_sol_unipi.Server.Worker.Removal.{serve_remove-Served}
use progetto_sol_unipi.Server.Worker.Several.{serve_readn-Served}

-- The jobs that create or write a file.
abbrev pub is_writing : Job → Bool
is_writing job =
    job.op == write_file || job.op == append_file || (job.op == open_file && job.flags == o_create)

abbrev pub none_writes : List Job → Bool
none_writes [] = true
none_writes (job ∷ jobs) = let rest = none_writes jobs in if is_writing job then false else rest

-- The cache is well-formed, and the client connected.
pub record Kept (t : World) : Type 0 where
  pub cells : Cells
  pub holds : Holds t.server cells
  pub connected : t.connected ≡ true

Served-Kept :
    {w : World} {xs : Cells} {ps : List Packet} {rs : List Response} {left : List Packet} {r : Turn}
    (t : World)
    → w.connected ≡ true
    → Served w xs ps rs left r t
    → Kept t
Served-Kept t up k = record { cells = _; holds = k.holds; connected = k.connected ∙ up }

module _ (host : Host) (policy : Policy) (job : Job) (w : World) where
  abbrev KeptBy : Cmd World Turn → Type 0
  KeptBy m = Returns (λ _ t. Kept t) (m w)

  KeptBy-choice :
      (b : Bool) (m n : Cmd World Turn)
      → (b ≡ true → KeptBy m)
      → (b ≡ false → KeptBy n)
      → KeptBy (if b then m else n)
  KeptBy-choice true m n yes_case no_case = yes_case refl
  KeptBy-choice false m n yes_case no_case = no_case refl

  serve_close-Kept :
      {xs : Cells} → Holds w.server xs → w.connected ≡ true → KeptBy (serve_close host policy job)
  unfolding serve_close
  serve_close-Kept {xs} h up = elim (Bool-cases (has_name job.filename xs)) [
    | inl y ↦ Returns-mono (serve_close-Served host policy job w h up y) λ _ t k. Served-Kept t up k
    | inr n ↦ Returns-lift _ w (find_file-Found w.server job.filename policy h) λ r t f.
        rw (f.found, lookup_miss job.filename xs n)
          (returns (record { cells = _; holds = f.holds; connected = up }))
  ]

  pub serve-Kept :
      {xs : Cells}
      → Holds w.server xs
      → w.connected ≡ true
      → is_writing job ≡ false
      → KeptBy (serve host policy job)
  unfolding serve
  serve-Kept {xs} h up no_write =
      KeptBy-choice (job.op == open_file) _ _
        (λ y.
          Returns-mono (serve_open-Served host policy job w h (ground arith))
            λ _ t k. Served-Kept t up k)
        λ n1.
          KeptBy-choice (job.op == close_file) _ _ (λ y. serve_close-Kept h up)
            λ n2.
              KeptBy-choice (job.op == read_file) _ _
                (λ y.
                  Returns-mono (serve_read-Served host policy job w h up)
                    λ _ t k. Served-Kept t up k)
                λ n3.
                  KeptBy-choice (job.op == write_file) _ _ (λ y. absurd (ground arith))
                    λ n4.
                      KeptBy-choice (job.op == append_file) _ _ (λ y. absurd (ground arith))
                        λ n5.
                          KeptBy-choice (job.op == readn_file) _ _
                            (λ y.
                              Returns-mono (serve_readn-Served host policy w job xs h up)
                                λ _ t k. Served-Kept t up k)
                            λ n6.
                              KeptBy-choice (job.op == remove_file) _ _
                                (λ y.
                                  Returns-mono (serve_remove-Served host policy job w h)
                                    λ _ t k. Served-Kept t up k)
                                λ n7.
                                  KeptBy-choice (job.op == close_connection) _ _
                                    (λ y.
                                      returns (record { cells = xs; holds = h; connected = up }))
                                    λ n8. returns (record { cells = xs; holds = h; connected = up })

after_turn-Kept :
    (host : Host) (policy : Policy) (turn : Turn) (more : Cmd World Turn) (t : World)
    → Kept t
    → Returns (λ _ u. Kept u) (more t)
    → Returns (λ _ u. Kept u) (after_turn host policy turn more t)
unfolding after_turn
after_turn-Kept host policy again more t k rest = rest
after_turn-Kept host policy stop more t k rest = returns k

-- A worker whose cache is well-formed and whose client is connected serves any sequence of jobs
-- that neither create nor write a file, undisturbed by other threads, without a fault and without
-- leaving the process, and the cache is well-formed and the client connected afterwards: opening,
-- closing, reading and removing files that may be there or not, reading several files, closing the
-- connection, and operations that there are not.
pub worker_loop-Kept :
    (host : Host) (policy : Policy) (jobs : List Job) (w : World)
    → Kept w
    → none_writes jobs ≡ true
    → Returns (λ _ t. Kept t) (worker_loop host policy jobs w)
unfolding worker_loop
worker_loop-Kept host policy [] w k safe = returns k
worker_loop-Kept host policy (job ∷ jobs) w k safe =
    Returns-bind (serve-Kept host policy job w k.holds k.connected (ground arith)) λ turn t k'.
      after_turn-Kept host policy turn (worker_loop host policy jobs) t k'
        (worker_loop-Kept host policy jobs t k' (ground arith))
