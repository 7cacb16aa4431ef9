-- ===== src/Server/Worker.antt =====
-- `worker_thread` of server.c: one turn of its loop, for each operation.
pub mod Served
pub mod Read
pub mod Close
pub mod Open
pub mod Append
pub mod Create
pub mod Removal
pub mod Finish
pub mod Writing
pub mod Refusal
pub mod Several
pub mod Kept
pub mod Limits
pub mod Stored
pub mod View
pub mod Spec
pub mod Follow
pub mod Marked
pub mod Missing
pub mod Request
pub mod Keeping
pub mod History
pub mod Fitting
pub mod Broken
use progetto_sol_unipi.Base.{
  ℕ, zero, suc, Bool, true, false, not, List, Option, none, some, [], ◌∷◌, ◌++◌, ◌==◌, ltb,
  if◌then◌else◌, take,
}
use progetto_sol_unipi.Base.Command.{Cmd, ok, fault, exit, pure, gets, modify, ◌>>=◌, ◌>>◌}
use progetto_sol_unipi.Memory.State.{
  Ptr, null, Name, Policy, fifo, Server, load, ecanceled, eexist, enoent, e2big,
}
use progetto_sol_unipi.Memory.Find.{
  get_actual_files, get_head, next, in_mem, find_file, set_file_open, set_file_close,
}
use progetto_sol_unipi.Memory.Files.{
  Host, create_file, add_file_to_memory, remove_generic_file, write_to_file,
}
use progetto_sol_unipi.Memory.Evict.{cache_algorithm}
use progetto_sol_unipi.Server.Wire.{
  World, Response, lift, must, send_number, send_message, recv_number, recv_message,
}

-- headers/prot.h and headers/server.h.
abbrev pub o_create : ℕ
o_create = 0x01

abbrev pub open_file : ℕ
open_file = 0x05

abbrev pub close_file : ℕ
close_file = 0x06

abbrev pub read_file : ℕ
read_file = 0x07

abbrev pub write_file : ℕ
write_file = 0x08

abbrev pub readn_file : ℕ
readn_file = 0x09

abbrev pub append_file : ℕ
append_file = 0x0A

abbrev pub remove_file : ℕ
remove_file = 0x0B

abbrev pub close_connection : ℕ
close_connection = 0x0C

abbrev pub end_worker : ℕ
end_worker = 0x987

abbrev pub status_ok : ℕ
status_ok = 0x01

abbrev pub not_ok : ℕ
not_ok = 0x00

abbrev pub continue : ℕ
continue = 0x321

abbrev pub no_continue : ℕ
no_continue = 0x432

abbrev pub eacces : ℕ
eacces = 13

abbrev pub efault : ℕ
efault = 14

abbrev pub enodata : ℕ
enodata = 61

abbrev pub enonet : ℕ
enonet = 64

pub record Job : Type 0 where
  pub op : ℕ
  pub flags : ℕ
  pub filename : Name

-- Whether the worker goes back to the queue or ends.
pub data Turn : Type 0 where
  again stop : Turn

-- `set_response_for_client_and_push`.
abbrev pub push_response : ℕ → ℕ → Cmd World (Unit {0})
push_response error status = modify λ w. record w {
  responses = w.responses ++ (record { err = error; status_request = status }) ∷ [];
}

-- The response that ends the turn.
abbrev pub respond : ℕ → ℕ → Cmd World Turn
respond error status = push_response error status >> pure again

abbrev pub get_errno : Cmd World ℕ
get_errno = gets (λ w. w.server.errno)

module _ (host : Host) (policy : Policy) where
  unfoldable pub serve_create : Job → Cmd World Turn
  serve_create job = do
    found ← lift (in_mem (some job.filename))
    if found == 1 then respond eexist not_ok else do
      lift (cache_algorithm 1 0)
      file ← lift (create_file host job.filename)
      if file == null
          then (λ _. exit)
          else do lift (add_file_to_memory file); lift (set_file_open file); respond 0 status_ok

  unfoldable pub serve_open : Job → Cmd World Turn
  serve_open job = if job.flags == o_create then serve_create job else do
    found ← lift (in_mem (some job.filename))
    if found == 0 then respond enoent not_ok else do
      file ← lift (find_file (some job.filename) policy)
      lift (set_file_open file)
      respond 0 status_ok

  unfoldable pub serve_read : Job → Cmd World Turn
  serve_read job = do
    file ← lift (find_file (some job.filename) policy)
    if file == null then (must (send_number no_continue) >> respond enoent not_ok) else do
      must (send_number continue)
      f ← lift (load file)
      if f.is_open
          then (must (send_number continue)
              >> must (send_number f.used_memory)
              >> must (send_message (take f.used_memory f.buffer))
              >> respond 0 status_ok)
          else (must (send_number no_continue) >> respond eacces not_ok)

  -- The case has no `continue`: after the response it falls through to the next one.
  unfoldable pub serve_close : Job → Cmd World Turn
  serve_close job = do
    file ← lift (find_file (some job.filename) policy)
    if file == null
        then respond enoent not_ok
        else do lift (set_file_close file); push_response 0 status_ok; serve_read job

  -- What is left of a write once the message has arrived.
  unfoldable pub finish_write : Job → ℕ → List ℕ → Cmd World Turn
  finish_write job byte_to_write msg = do
    file ← lift (find_file (some job.filename) fifo)
    if file == null then (must (send_number not_ok) >> respond enoent not_ok) else do
      send_number continue
      lift (write_to_file file msg byte_to_write)
      respond 0 status_ok

  unfoldable pub serve_write : Job → Cmd World Turn
  serve_write job = do
    file ← lift (find_file (some job.filename) policy)
    if file == null then (must (send_number not_ok) >> respond enonet not_ok) else do
      must (send_number continue)
      byte_to_write ← recv_number
      lift (cache_algorithm 0 byte_to_write)
      errno ← get_errno
      if errno == e2big then (must (send_number no_continue) >> respond e2big not_ok) else do
        must (send_number continue)
        msg ← recv_message
        elim msg [ none ↦ respond efault not_ok | some m ↦ finish_write job byte_to_write m ]

  -- `file` is not looked up again after the eviction.
  unfoldable pub serve_append : Job → Cmd World Turn
  serve_append job = do
    file ← lift (find_file (some job.filename) policy)
    if file == null then (must (send_number not_ok) >> respond enonet not_ok) else do
      must (send_number continue)
      byte_to_write ← recv_number
      lift (cache_algorithm 0 byte_to_write)
      errno ← get_errno
      if errno == e2big then (must (send_number no_continue) >> respond e2big not_ok) else do
        msg ← recv_message
        elim msg [
          | none ↦ respond efault not_ok
          | some m ↦ (lift (write_to_file file m byte_to_write) >> respond 0 status_ok)
        ]

  unfoldable pub send_files : ℕ → Ptr → Cmd World (Unit {0})
  send_files zero file = pure tt
  send_files (suc n) file = do
    f ← lift (load file)
    must (send_message (take f.used_memory f.buffer))
    must (send_number f.used_memory)
    file ← lift (next file)
    send_files n file

  -- `flags` is an `int`, compared with an `unsigned int`.
  unfoldable pub serve_readn : Job → Cmd World Turn
  serve_readn job = do
    actual_files ← lift get_actual_files
    if actual_files == 0 then (must (send_number no_continue) >> respond enodata not_ok) else do
      let all = ltb actual_files job.flags
      let n = if all then actual_files else if job.flags == 0 then actual_files else job.flags
      must (send_number n)
      file ← lift get_head
      if file == null
          then (must (send_number no_continue) >> respond enodata not_ok)
          else do must (send_number continue); send_files n file; respond 0 status_ok

  unfoldable pub serve_remove : Job → Cmd World Turn
  serve_remove job = do
    file ← lift (find_file (some job.filename) policy)
    if file == null then (get_errno >>= λ errno. respond errno not_ok) else do
      err ← lift (remove_generic_file file)
      if not (err == 1) then (λ _. exit) else respond 0 status_ok

  -- The `switch`. An operation that it does not name ends the worker, as `END_WORKER` does.
  unfoldable pub serve : Job → Cmd World Turn
  serve job =
      if job.op == open_file
      then serve_open job
      else if job.op == close_file
      then serve_close job
      else if job.op == read_file
      then serve_read job
      else if job.op == write_file
      then serve_write job
      else if job.op == append_file
      then serve_append job
      else if job.op == readn_file
      then serve_readn job
      else if job.op == remove_file
      then serve_remove job
      else if job.op == close_connection
      then respond 0 status_ok
      else pure stop

  -- What the worker does after a turn.
  unfoldable pub after_turn : Turn → Cmd World Turn → Cmd World Turn
  after_turn again more = more
  after_turn stop more = pure stop

  -- The loop of `worker_thread` over the jobs that it pops, while the server is on.
  unfoldable pub worker_loop : List Job → Cmd World Turn
  worker_loop [] = pure again
  worker_loop (job ∷ jobs) = do turn ← serve job; after_turn turn (worker_loop jobs)
