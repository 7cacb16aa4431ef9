-- ===== src/Lib.antt =====
-- A server that caches files in memory, and its client.
--
-- The parts of the program. The server (src/server.c) has threads that read requests from the sockets
-- of the clients and push them as jobs to a queue (src/queue.c); workers pop the jobs, serve them with
-- the functions of the cache (src/memory.c), talk to the client with numbers and messages
-- (src/prot.c, over readn and writen of src/utils.c), and push a response to the queue of that client.
-- The client (src/clientutils.c) sends a request, exchanges what the operation needs, and receives the
-- response.
--
-- Base: native numbers, lists, C integers with their wrap-around (Base/Word), and commands with a state
--   and four outcomes: a result, a fault (undefined behaviour), an exit of the process, and a loop that
--   has used up its rounds (Base/Command). `Returns P r` says that the run `r` ends with a result of
--   which `P` holds.
-- Memory: src/memory.c. Memory/State has serverMetadata, the heap of the files and errno; Memory/Names
--   is equalNames; Memory/Find has inMem, find_file and policy_routine; Memory/Files has create_file,
--   add_file_to_memory, the two pops, remove_generic_file, free_file and write_to_file; Memory/Evict has
--   is_action_legal, cache_algorithm and clean_cache. Memory/Chain and Memory/Cache say what list of
--   files a heap stands for, and `Holds` is the invariant that ties it to the counters.
-- Queue: src/queue.c. Queue/Readers has the threads that push, pop, sleep on the condition variable and
--   wake up, as steps.
-- Server: Server/Wire has what a worker sees of its client, and the functions of src/prot.c; Server/Worker
--   has one turn of worker_thread of src/server.c, a function for each operation, and its loop.
--   Server/Worker/Request says what is asked of a request, and what holds of the cache between the turns
--   (`Keeps`); Server/Worker/View and Server/Worker/Spec see the cache as a map from names to contents, and
--   say what each request does to it; Server/Worker/History is about any sequence of such turns.
--   Server/Session has client_thread, and the steps of the two threads that serve a client;
--   Server/Session/Service says for which requests the turn of the worker comes to its end.
-- Pool: the counter of the workers of src/server_utils.c, and the shutdown of src/server.c with the workers
--   that sleep at the queue of jobs, as steps. `flood_list` pushes its jobs in one step.
-- Listener: main of src/server.c, with the handlers of the signals: Listener/Boot is its start, Listener its
--   loop over the events that pselect and accept come to, Listener/Arguments the threads that read the
--   arguments it has passed them.
-- Log: src/log.c, with the lock under which it is written.
-- Client: the requests of src/clientutils.c; Client/Conversation, Client/Exchange and Client/Reading put them together with
--   the worker that serves them, and Client/Connection has openConnection and the times it needs.
-- Folder: visitDir of src/clientutils.c. Program: the loop over the actions of src/client.c, and
-- the lines of its apiCall (Program/Report). Memory/Print: what src/memory.c prints.
-- Arguments: the command line of the client, parseArgs and the list of actions of src/clientutils.c.
-- Transfer: readn and writen of src/utils.c, over read and write of the system, which are parameters.
-- Protocol: src/prot.c over bytes; Server/Wire and Client take its functions on whole messages.
-- Text: what the program uses of fgets and fscanf. Config: get_config of src/parser.c, and
--   the copy of it in src/client.c (Config/Client).
-- Tests: the theorems at concrete inputs.
--
-- Bounds. A walk along the list is given one round more than there are files, a loop over bytes one more
-- than there are bytes; under the invariant that is enough, and the theorems about `Returns` show it.
-- The names of an option are split in as many rounds as the text has characters, and one more; `Ends` says
-- that a run does not use up its rounds.
-- The loop of openConnection is given as many rounds as attempts are made until the clock has reached the
-- deadline. The array of main for the threads of its workers is taken to fit on the stack.
-- The invariant asks for fewer than 2 ^ 31 files and 2 ^ 63 bytes; where src/memory.c casts amounts to
-- int, the limits and the contents are below 2 ^ 31.
--
-- Not modelled. Interleavings within a function: each function runs to its end, and the locks, but for that
-- of the log, are left out; the steps of the threads of one client, of the threads at a queue, of the main
-- thread and the threads that it creates, and of the workers at the shutdown, interleave. Of CLOSE_FILE,
-- which pushes one job twice, the turn of the worker is modelled and the thread of the client is not.
-- printConfigFile of src/parser.c, which only prints; the calls of apiCall by the actions of src/client.c,
-- whose lines are modelled by themselves. The set of blocked signals, sockets, malloc, open_memstream, pthread_mutex_init,
-- pthread_create, accept, pselect, connect and the clock are parameters where they are used; so are the memory
-- behind a copied name, the answers of getopt, and what the system says of files and folders.
mod Base
pub mod Memory
pub mod Server
pub mod Queue
pub mod Client
pub mod Transfer
pub mod Protocol
pub mod Text
pub mod Config
pub mod Pool
pub mod Arguments
pub mod Folder
pub mod Program
pub mod Listener
pub mod Log
pub mod Tests
