-- ===== src/Server/Worker/Several.antt =====
-- `READN_FILE`.
use progetto_sol_unipi.Base.{
  ℕ, zero, suc, ◌≤◌, ◌≡◌, refl, sym, ap, ◌∙◌, true, false, List, [], ◌∷◌, ◌++◌, append_assoc,
  append-nil, arith, ltb, ◌==◌, if◌then◌else◌, length, take,
}
use progetto_sol_unipi.Base.Command.{ok, Returns, returns, Returns-if_true, Returns-if_false}
use progetto_sol_unipi.Memory.State.{Ptr, null, Policy, File, Server}
use progetto_sol_unipi.Memory.Chain.{
  Cells, Points, Chain, Chain-uncons, Chain-not_null, not_null, load_lem,
}
use progetto_sol_unipi.Memory.Cache.{Holds}
use progetto_sol_unipi.Memory.Find.{next}
use progetto_sol_unipi.Memory.Files.{Host}
use progetto_sol_unipi.Server.Wire.{Packet, number, message, Response, World}
use progetto_sol_unipi.Server.Worker.{
  Job, serve_readn, send_files, continue, no_continue, status_ok, not_ok, enodata,
}
use progetto_sol_unipi.Server.Worker.Served.{Served, on, Returns-on}

-- How many files a client gets that asks for `n`: all of them if it asks for none.
abbrev pub granted : (all n : ℕ) → ℕ
granted all n = if ltb all n then all else if n == 0 then all else n

abbrev pub file_packets : ℕ → Cells → List Packet
file_packets zero xs = []
file_packets (suc n) [] = []
file_packets (suc n) ((_, f) ∷ xs) =
    message (take f.used_memory f.buffer) ∷ number f.used_memory ∷ file_packets n xs

abbrev pub readn_packets : ℕ → Cells → List Packet
readn_packets n [] = number no_continue ∷ []
readn_packets n (x ∷ xs) =
    let k = granted (length (x ∷ xs)) n in number k ∷ number continue ∷ file_packets k (x ∷ xs)

abbrev pub readn_response : Cells → Response
readn_response [] = record { err = enodata; status_request = not_ok }
readn_response (x ∷ xs) = record { err = 0; status_request = status_ok }

next_lem : {p q : Ptr} {f : File} (s : Server) → Points s.heap p f q → next p s ≡ ok q s
unfolding next
next_lem s at = rw (not_null at) (rw (load_lem s at))

abbrev sending : World → List Packet → World
sending w ps = record w { connected = true; sent = ps }

module _ (host : Host) (policy : Policy) (w : World) where
  send_files_lem :
      (n : ℕ) (xs : Cells) {p : Ptr} (ps : List Packet)
      → Chain w.server.heap null p xs
      → n ≤ length xs
      → send_files host policy n p (sending w ps) ≡ ok tt (sending w (ps ++ file_packets n xs))
  unfolding send_files
  send_files_lem zero xs ps c few = ap (λ l. ok tt (sending w l)) (sym (append-nil ps))
  send_files_lem (suc n) [] ps c few = absurd (omega arith)
  send_files_lem (suc n) ((a, f) ∷ xs) ps c few =
      let (q, e, at, out, rest) = Chain-uncons c in
      let ps' = (ps ++ message (take f.used_memory f.buffer) ∷ []) ++ number f.used_memory ∷ [] in
      rw e (
        rw (load_lem w.server at) (
          rw (next_lem w.server at) (
            send_files_lem n xs ps' rest (omega arith)
            ∙ ap (λ l. ok tt (sending w l))
                (append_assoc (ps ++ message (take f.used_memory f.buffer) ∷ []) _ _
                  ∙ append_assoc ps _ _))))

  granted-le : (all n : ℕ) → granted all n ≤ all
  granted-le all n = ground arith

  readn_on :
      (job : Job) (xs : Cells)
      → Holds w.server xs
      → Returns
          (Served (on w) xs (readn_packets job.flags xs) (readn_response xs ∷ []) w.incoming)
          (serve_readn host policy job (on w))
  unfolding serve_readn
  readn_on job [] h =
      let none_there : (w.server.n_current_file == 0) ≡ true = (let e = h.files in ground arith) in
      Returns-if_true _ _ _ none_there (
        returns (record {
          turn = refl;
          holds = h;
          connected = refl;
          incoming = refl;
          sent = refl;
          responses = refl;
        }))
  readn_on job (x ∷ xs) h =
      let some_there : (w.server.n_current_file == 0) ≡ false = (let e = h.files in ground arith) in
      let head : (w.server.memory == null) ≡ false = Chain-not_null h.chain in
      let all = w.server.n_current_file in
      let k = granted all job.flags in
      let first = w.sent ++ number k ∷ [] in
      let count : k ≡ granted (length (x ∷ xs)) job.flags = ap (λ a. granted a job.flags) h.files in
      Returns-if_false _ _ _ some_there (
        Returns-if_false _ _ _ head (
          rw
            (send_files_lem k (x ∷ xs) (first ++ number continue ∷ []) h.chain
              (omega (arith, granted-le all job.flags, h.files)))
            (returns (record {
              turn = refl;
              holds = h;
              connected = refl;
              incoming = refl;
              sent =
                  append_assoc first (number continue ∷ []) _
                  ∙ append_assoc w.sent (number k ∷ []) _
                  ∙ ap (λ a. w.sent ++ number a ∷ number continue ∷ file_packets a (x ∷ xs)) count;
              responses = refl;
            }))))

  -- A worker answers a `READN_FILE` of a connected client with the number of files that it grants
  -- (the number asked for, or all files if that is 0 or more than there are), `CONTINUE`, and so
  -- many files from the front of the list, each with its contents and its size; the response is a
  -- success. With no file in the cache it sends `NO_CONTINUE` alone, where the client reads a
  -- number of files, and answers `ENODATA`. The cache does not change.
  pub serve_readn-Served :
      (job : Job) (xs : Cells)
      → Holds w.server xs
      → w.connected ≡ true
      → Returns
          (Served w xs (readn_packets job.flags xs) (readn_response xs ∷ []) w.incoming)
          (serve_readn host policy job w)
  serve_readn-Served job xs h up = Returns-on (serve_readn host policy job) w up (readn_on job xs h)
