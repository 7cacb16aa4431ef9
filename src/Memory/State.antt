-- ===== src/Memory/State.antt =====
-- The state of memory.c (headers/memory.h): the global `serverMetadata`, the files in the heap, and
-- `errno`. Locks are left out: one thread runs at a time, and each function runs to its end.
use progetto_sol_unipi.Base.{ℕ, Bool, List, Option, none, some, ◌==◌, if◌then◌else◌}
use progetto_sol_unipi.Base.Command.{Cmd, ok, fault, modify, ◌>>=◌}

-- An address; 0 is `NULL`.
abbrev pub Ptr : Type 0
Ptr = ℕ

abbrev pub null : Ptr
null = 0

-- A C string is the list of its characters, without the closing NUL.
abbrev pub Name : Type 0
Name = List ℕ

pub data Policy : Type 0 where
  fifo lru : Policy

-- What a `FileMemory` holds besides its links. `buffer` is what has been written to the stream
-- `file`; `open_memstream` sets `used_memory` to its size at each `fflush`.
pub record File : Type 0 where
  pub buffer : List ℕ
  pub used_memory : ℕ
  pub filename : Name
  pub is_open : Bool

pub record FileMemory : Type 0 where
  pub file : File
  pub open file use *
  pub next : Ptr
  pub prev : Ptr

abbrev pub Heap : Type 0
Heap = Ptr → Option FileMemory

pub record Server : Type 0 where
  pub n_current_memory_used : ℕ
  pub max_memory : ℕ
  pub n_current_file : ℕ
  pub max_files : ℕ
  pub memory : Ptr
  pub alg_trigger : ℕ
  pub max_recv_file : ℕ
  pub max_used_memory : ℕ
  pub heap : Heap
  pub errno : ℕ

unfoldable pub write : Heap → Ptr → Option FileMemory → Heap
write h p c a = if a == p then c else h a

-- `*p`: a fault at `NULL` and at an address that holds no file.
unfoldable pub load : Ptr → Cmd Server FileMemory
load p s = if p == null then fault else elim (s.heap p) [ none ↦ fault | some f ↦ ok f s ]

abbrev pub store : Ptr → Option FileMemory → Cmd Server (Unit {0})
store p c = modify λ s. record s { heap = write s.heap p c }

-- `p->file`, `p->next` and `p->prev` written through `p`.
unfoldable pub set_file : Ptr → (File → File) → Cmd Server (Unit {0})
set_file p g = do f ← load p; store p (some (record f { file = g f.file }))

unfoldable pub set_next : Ptr → Ptr → Cmd Server (Unit {0})
set_next p q = do f ← load p; store p (some (record f { next = q }))

unfoldable pub set_prev : Ptr → Ptr → Cmd Server (Unit {0})
set_prev p q = do f ← load p; store p (some (record f { prev = q }))

abbrev pub set_memory : Ptr → Cmd Server (Unit {0})
set_memory p = modify λ s. record s { memory = p }

abbrev pub set_errno : ℕ → Cmd Server (Unit {0})
set_errno e = modify λ s. record s { errno = e }

-- The error numbers of Linux.
abbrev pub enoent : ℕ
enoent = 2

abbrev pub eexist : ℕ
eexist = 17

abbrev pub ecanceled : ℕ
ecanceled = 125

abbrev pub e2big : ℕ
e2big = 7

-- `MAXNAME` of headers/utils.h.
abbrev pub max_name : ℕ
max_name = 256
