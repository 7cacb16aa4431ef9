-- ===== src/Memory/Limits.antt =====
-- What memory.c does to the two limits of the cache.
use progetto_sol_unipi.Base.{
  ℕ, zero, suc, ◌≡◌, ◌⊎◌, refl, Bool, true, false, Option, none, some, inl, inr, Bool-cases, inl,
  inr, Bool-cases, List, if◌then◌else◌, ◌==◌, ◌==◌,
}
use progetto_sol_unipi.Base.Command.{Run, Cmd, ok, fault, exit, out_of_fuel, and_then, Meets}
use progetto_sol_unipi.Memory.State.{
  Ptr, null, Name, Policy, fifo, lru, File, Server, load, set_file, set_next, set_prev,
}
use progetto_sol_unipi.Memory.Find.{
  next, in_mem_loop, in_mem, position_loop, move_to_head, policy_routine, find_loop, find_file,
  set_file_open, set_file_close,
}
use progetto_sol_unipi.Memory.Files.{
  Host, create_file, link_file, add_file_to_memory, free_file, last_loop, unlink_last,
  pop_from_tail, pop_from_head, remove_generic_file, write_loop, write_to_file,
}
use progetto_sol_unipi.Memory.Evict.{
  alg_counter, is_action_legal, file_loop, memory_loop, evict_files, evict_memory, cache_algorithm,
}

-- Wherever the run ends with a result, the limits are these.
pub record Limited {A : Type 0} (files memory : ℕ) (r : Run Server A) : Type 0 where
  pub limited : Meets (λ _ t. (t.max_files ≡ files) × (t.max_memory ≡ memory)) r

module _ {files memory : ℕ} {A : Type 0} where
  pub Limited-ok :
      (a : A) (s : Server)
      → s.max_files ≡ files
      → s.max_memory ≡ memory
      → Limited files memory (ok a s)
  Limited-ok a s m n = record { limited = (m, n) }

  Limited-fault : Limited {A = A} files memory fault
  Limited-fault = record { limited = tt }

  Limited-exit : Limited {A = A} files memory exit
  Limited-exit = record { limited = tt }

  Limited-out_of_fuel : Limited {A = A} files memory out_of_fuel
  Limited-out_of_fuel = record { limited = tt }

  Limited-if :
      (b : Bool) (m n : Cmd Server A) (s : Server)
      → Limited files memory (m s)
      → Limited files memory (n s)
      → Limited files memory ((if b then m else n) s)
  Limited-if true m n s hm hn = hm
  Limited-if false m n s hm hn = hn

  Limited-then :
      {B : Type 0} (r : Run Server A) (k : A → Cmd Server B)
      → Limited files memory r
      → ((a : A) (t : Server)
          → t.max_files ≡ files
          → t.max_memory ≡ memory
          → Limited files memory (k a t))
      → Limited files memory (and_then r k)
  Limited-then (ok a t) k q rest = let (m, n) = q.limited in rest a t m n
  Limited-then fault k q rest = record { limited = tt }
  Limited-then exit k q rest = record { limited = tt }
  Limited-then out_of_fuel k q rest = record { limited = tt }

ruleset limits =
    (Limited-ok, Limited-fault, Limited-exit, Limited-out_of_fuel, Limited-if, Limited-then)

option_cases : {A : Type 0} (c : Option A) → (c ≡ none) ⊎ ((a : A) × (c ≡ some a))
option_cases none = inl refl
option_cases (some a) = inr (a, refl)

-- A command leaves the limits as they are.
abbrev pub KeepsLimits : {A : Type 0} → Cmd Server A → Type 0
KeepsLimits m =
    (files memory : ℕ) (s : Server)
    → s.max_files ≡ files
    → s.max_memory ≡ memory
    → Limited files memory (m s)

pub load-Limited : (p : Ptr) → KeepsLimits (load p)
unfolding load
load-Limited p files memory s m n = elim (Bool-cases (p == null)) [
  | inl y ↦ rw y Limited-fault
  | inr o ↦ elim (option_cases (s.heap p)) [
    | inl e ↦ rw (o, e) Limited-fault
    | inr (f, e) ↦ rw (o, e) (Limited-ok f s m n)
  ]
]

set_file-Limited : (p : Ptr) (g : File → File) → KeepsLimits (set_file p g)
unfolding set_file
set_file-Limited p g files memory s m n = search (limits, load-Limited) depth 20

set_next-Limited : (p q : Ptr) → KeepsLimits (set_next p q)
unfolding set_next
set_next-Limited p q files memory s m n = search (limits, load-Limited) depth 20

set_prev-Limited : (p q : Ptr) → KeepsLimits (set_prev p q)
unfolding set_prev
set_prev-Limited p q files memory s m n = search (limits, load-Limited) depth 20

ruleset cells = (limits, load-Limited, set_file-Limited, set_next-Limited, set_prev-Limited)

pub next-Limited : (p : Ptr) → KeepsLimits (next p)
unfolding next
next-Limited p files memory s m n = search (cells) depth 40

in_mem_loop-Limited : (rounds : ℕ) (p : Ptr) (name : Name) → KeepsLimits (in_mem_loop rounds p name)
unfolding in_mem_loop
in_mem_loop-Limited zero p name files memory s m n = search cells depth 10
in_mem_loop-Limited (suc rounds) p name files memory s m n =
    search (cells, in_mem_loop-Limited rounds, next-Limited) depth 40

pub in_mem-Limited : (name : Option Name) → KeepsLimits (in_mem name)
unfolding in_mem
in_mem-Limited none files memory s m n = search cells depth 10
in_mem-Limited (some name) files memory s m n = search (cells, in_mem_loop-Limited) depth 20

position_loop-Limited :
    (rounds : ℕ) (prev p : Ptr) (name : Name) → KeepsLimits (position_loop rounds prev p name)
unfolding position_loop
position_loop-Limited zero prev p name files memory s m n = search cells depth 10
position_loop-Limited (suc rounds) prev p name files memory s m n =
    search (cells, position_loop-Limited rounds) depth 40

move_to_head-Limited : (prev p : Ptr) → KeepsLimits (move_to_head prev p)
unfolding move_to_head
move_to_head-Limited prev p files memory s m n = search (cells) depth 40

policy_routine-Limited : (policy : Policy) (p : Ptr) → KeepsLimits (policy_routine policy p)
unfolding policy_routine
policy_routine-Limited fifo p files memory s m n = search cells depth 10
policy_routine-Limited lru p files memory s m n =
    search (cells, position_loop-Limited, move_to_head-Limited) depth 40

find_loop-Limited :
    (rounds : ℕ) (p : Ptr) (name : Name) (policy : Policy)
    → KeepsLimits (find_loop rounds p name policy)
unfolding find_loop
find_loop-Limited zero p name policy files memory s m n = search cells depth 10
find_loop-Limited (suc rounds) p name policy files memory s m n =
    search (cells, find_loop-Limited rounds, policy_routine-Limited) depth 40

pub find_file-Limited : (name : Option Name) (policy : Policy) → KeepsLimits (find_file name policy)
unfolding find_file
find_file-Limited none policy files memory s m n = search cells depth 10
find_file-Limited (some name) policy files memory s m n =
    search (cells, in_mem-Limited, find_loop-Limited) depth 40

pub set_file_open-Limited : (p : Ptr) → KeepsLimits (set_file_open p)
unfolding set_file_open
set_file_open-Limited p files memory s m n = search (cells) depth 40

pub set_file_close-Limited : (p : Ptr) → KeepsLimits (set_file_close p)
unfolding set_file_close
set_file_close-Limited p files memory s m n = search (cells) depth 40

pub create_file-Limited : (host : Host) (name : Name) → KeepsLimits (create_file host name)
unfolding create_file
create_file-Limited host name files memory s m n = search (cells) depth 40

link_file-Limited : (p : Ptr) → KeepsLimits (link_file p)
unfolding link_file
link_file-Limited p files memory s m n = search (cells) depth 40

pub add_file_to_memory-Limited : (p : Ptr) → KeepsLimits (add_file_to_memory p)
unfolding add_file_to_memory
add_file_to_memory-Limited p files memory s m n =
    search (cells, in_mem-Limited, link_file-Limited) depth 40

free_file-Limited : (p : Ptr) → KeepsLimits (free_file p)
unfolding free_file
free_file-Limited p files memory s m n = search (cells) depth 40

last_loop-Limited : (rounds : ℕ) (prev p : Ptr) → KeepsLimits (last_loop rounds prev p)
unfolding last_loop
last_loop-Limited zero prev p files memory s m n = search cells depth 10
last_loop-Limited (suc rounds) prev p files memory s m n =
    search (cells, last_loop-Limited rounds) depth 40

unlink_last-Limited : (prev p : Ptr) → KeepsLimits (unlink_last prev p)
unfolding unlink_last
unlink_last-Limited prev p files memory s m n = search (cells) depth 40

pop_from_tail-Limited : KeepsLimits pop_from_tail
unfolding pop_from_tail
pop_from_tail-Limited files memory s m n =
    search (cells, last_loop-Limited, unlink_last-Limited) depth 40

pop_from_head-Limited : KeepsLimits pop_from_head
unfolding pop_from_head
pop_from_head-Limited files memory s m n = search (cells) depth 40

pub remove_generic_file-Limited : (p : Ptr) → KeepsLimits (remove_generic_file p)
unfolding remove_generic_file
remove_generic_file-Limited p files memory s m n =
    search (cells, in_mem-Limited, find_file-Limited, pop_from_head-Limited, free_file-Limited)
      depth 40

write_loop-Limited :
    (rounds : ℕ) (p : Ptr) (buffer : List ℕ) (size wrote : ℕ)
    → KeepsLimits (write_loop rounds p buffer size wrote)
unfolding write_loop
write_loop-Limited zero p buffer size wrote files memory s m n = search cells depth 10
write_loop-Limited (suc rounds) p buffer size wrote files memory s m n =
    search (cells, write_loop-Limited rounds) depth 40

pub write_to_file-Limited :
    (p : Ptr) (buffer : List ℕ) (size : ℕ) → KeepsLimits (write_to_file p buffer size)
unfolding write_to_file
write_to_file-Limited p buffer size files memory s m n = search (cells, write_loop-Limited) depth 40

is_action_legal-Limited : (k l : ℕ) → KeepsLimits (is_action_legal k l)
unfolding is_action_legal
is_action_legal-Limited k l files memory s m n = search (cells) depth 40

file_loop-Limited : (rounds : ℕ) → KeepsLimits (file_loop rounds)
unfolding file_loop
file_loop-Limited zero files memory s m n = search cells depth 10
file_loop-Limited (suc rounds) files memory s m n =
    search (cells, file_loop-Limited rounds, pop_from_tail-Limited, free_file-Limited) depth 40

memory_loop-Limited :
    (rounds : ℕ) (current to_remove more limit : ℕ)
    → KeepsLimits (memory_loop rounds current to_remove more limit)
unfolding memory_loop
memory_loop-Limited zero current to_remove more limit files memory s m n = search cells depth 10
memory_loop-Limited (suc rounds) current to_remove more limit files memory s m n =
    search (cells, memory_loop-Limited rounds, pop_from_tail-Limited, free_file-Limited) depth 40

alg_counter-Limited : KeepsLimits alg_counter
unfolding alg_counter
alg_counter-Limited files memory s m n = search cells depth 10

evict_files-Limited : (k l limit : ℕ) → KeepsLimits (evict_files k l limit)
unfolding evict_files
evict_files-Limited k l limit files memory s m n =
    search (cells, file_loop-Limited, alg_counter-Limited) depth 40

evict_memory-Limited : (b : Bool) (more limit : ℕ) → KeepsLimits (evict_memory b more limit)
unfolding evict_memory
evict_memory-Limited b more limit files memory s m n =
    search (cells, memory_loop-Limited, alg_counter-Limited) depth 40

pub cache_algorithm-Limited : (k more : ℕ) → KeepsLimits (cache_algorithm k more)
unfolding cache_algorithm
cache_algorithm-Limited k more files memory s m n =
    search (cells, is_action_legal-Limited, evict_files-Limited, evict_memory-Limited) depth 40

-- What a turn of a worker calls.
pub ruleset calls = (
  in_mem-Limited, find_file-Limited, set_file_open-Limited, set_file_close-Limited,
  create_file-Limited, add_file_to_memory-Limited, remove_generic_file-Limited,
  write_to_file-Limited, cache_algorithm-Limited, load-Limited, next-Limited, Limited-ok,
)
