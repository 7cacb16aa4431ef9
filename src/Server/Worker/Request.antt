-- ===== src/Server/Worker/Request.antt =====
-- A turn of `worker_thread` for a request that keeps to the protocol, and the invariant of the
-- cache that every such turn keeps.
use progetto_sol_unipi.Base.{
  ℕ, ◌+◌, ◌<◌, ◌≤◌, ◌^◌, ◌≡◌, ◌≢◌, refl, true, false, ◌&&◌, List, none, some, ◌∷◌, arith, ◌==◌,
  length,
}
use progetto_sol_unipi.Base.Command.{ok, Run, Meets, Returns, returns}
use progetto_sol_unipi.Memory.State.{Ptr, null, Server, Heap, max_name}
use progetto_sol_unipi.Memory.Find.{in_mem}
use progetto_sol_unipi.Memory.Files.{Host}
use progetto_sol_unipi.Memory.Chain.{Cells, Chain, owns, nil, cons}
use progetto_sol_unipi.Memory.Cache.{Holds}
use progetto_sol_unipi.Memory.Evict.Admit.{Sound}
use progetto_sol_unipi.Server.Wire.{Packet, number, message, broken, World}
use progetto_sol_unipi.Server.Worker.{Job, open_file, o_create, write_file, append_file}
use progetto_sol_unipi.Server.Worker.Stored.{Stored}

-- A job that a worker has taken, what the system answers while it is served, and what the client
-- sends after the request.
pub record Request : Type 0 where
  pub host : Host
  pub job : Job
  pub packets : List Packet

-- What a client sends for a `WRITE_FILE`: the data, with their size first; a size, and a part of
-- the data only; or a size above the limit, which is refused.
pub data Sends (memory : ℕ) : List Packet → Type 0 where
  whole :
      (m : List ℕ) (rest : List Packet)
      → length m < memory
      → Sends memory (number (length m) ∷ message m ∷ rest)
  cut_off : (k : ℕ) (rest : List Packet) → k < memory → Sends memory (number k ∷ broken ∷ rest)
  too_much : (k : ℕ) (rest : List Packet) → memory < k → k < 2 ^ 31 → Sends memory (number k ∷ rest)

-- What a client sends for an `APPEND_FILE`: data for which there is room beside the `used` bytes,
-- or a size above the limit.
pub data Adds (memory used : ℕ) : List Packet → Type 0 where
  fitting :
      (m : List ℕ) (rest : List Packet)
      → used + length m ≤ memory
      → Adds memory used (number (length m) ∷ message m ∷ rest)
  excessive :
      (k : ℕ) (rest : List Packet) → memory < k → k < 2 ^ 31 → Adds memory used (number k ∷ rest)

-- The system gives a fresh address, and succeeds.
pub record Working (host : Host) (heap : Heap) : Type 0 where
  pub not_null : host.malloc ≢ null
  pub fresh : heap host.malloc ≡ none
  pub open_memstream : host.open_memstream ≡ true
  pub mutex_init : host.mutex_init ≡ true

-- What is asked of a request: the name of a new file is short enough and the system works while it
-- is created, and the data of a write or of an append to a file that is there come as announced.
pub record Fair (memory : ℕ) (q : Request) (s : Server) : Type 0 where
  pub create :
      (q.job.op == open_file && q.job.flags == o_create) ≡ true
      → (length q.job.filename < max_name) × Working q.host s.heap
  pub write :
      (q.job.op == write_file) ≡ true
      → in_mem (some q.job.filename) s ≡ ok 1 s
      → Sends memory q.packets
  pub append :
      (q.job.op == append_file) ≡ true
      → in_mem (some q.job.filename) s ≡ ok 1 s
      → Adds memory s.n_current_memory_used q.packets

-- The worker has the socket of the client, which is connected.
abbrev pub taken : Request → World → World
taken q w = record w { connected = true; incoming = q.packets }

-- The list in the heap stands for files that are tidy and within both limits, which are `files` and
-- `memory`.
pub record Keeps (files memory : ℕ) (s : Server) : Type 0 where
  pub cells : Cells
  pub holds : Holds s cells
  pub stored : Stored files memory cells
  pub max_files : s.max_files ≡ files
  pub max_memory : s.max_memory ≡ memory

pub Keeps-Sound :
    {files memory : ℕ} {s : Server}
    → files < 2 ^ 31
    → memory < 2 ^ 31
    → (k : Keeps files memory s) → Sound s k.cells
Keeps-Sound few small k = record {
  holds = k.holds;
  max_files = rw k.max_files few;
  max_memory = rw k.max_memory small;
  total_small = omega (arith, k.stored.small, small);
}

-- No listed file stands at a free address.
pub Chain-free :
    {h : Heap} {stop p : Ptr} {xs : Cells} (a : Ptr)
    → h a ≡ none
    → Chain h stop p xs
    → owns a xs ≡ false
Chain-free a e nil = refl
Chain-free a e (cons at out rest) =
    let there = at.holds in let ih = Chain-free a e rest in ground arith

-- What holds of every result of a run that returns holds of its result.
pub Returns-Meets :
    {S A : Type 0} {P Q : A → S → Type 0} {r : Run S A}
    → Returns P r
    → Meets Q r
    → Returns (λ a s. P a s × Q a s) r
Returns-Meets (returns p) q = returns (p, q)
