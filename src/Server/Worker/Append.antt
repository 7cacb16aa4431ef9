-- ===== src/Server/Worker/Append.antt =====
-- `APPEND_FILE` where the eviction reaches the file itself.
use progetto_sol_unipi.Base.{
  Bool-cases, inl, inr, ℕ, ◌+◌, ◌<◌, ◌≡◌, ◌≢◌, refl, sym, subst, ap, ◌∙◌, true, false, List, [],
  ◌∷◌, ◌++◌, append-nil, append_assoc, none, arith, ◌==◌,
}
use progetto_sol_unipi.Base.Command.{fault, if_false}
use progetto_sol_unipi.Memory.State.{Ptr, null, File, Server, fifo, load, e2big}
use progetto_sol_unipi.Memory.Names.{equal_names}
use progetto_sol_unipi.Memory.Chain.{
  Cells, owns, owns-append, total, last_address, last_address-snoc, snoc_view, not_null,
}
use progetto_sol_unipi.Memory.Cache.{has_name, address, lookup_hit}
use progetto_sol_unipi.Memory.Find.Found.{find_file-Found, Found}
use progetto_sol_unipi.Memory.Files.{Host, write_to_file}
use progetto_sol_unipi.Memory.Files.Remove.{Chain-lookup}
use progetto_sol_unipi.Memory.Evict.Admit.{Sound}
use progetto_sol_unipi.Memory.Evict.Outcome.{cache_algorithm-Room}
use progetto_sol_unipi.Server.Wire.{Packet, number, message, World}
use progetto_sol_unipi.Server.Worker.{Job, serve_append, continue}
use progetto_sol_unipi.Server.Worker.Served.{on, fault-lift}

-- The last file is among those of a part that is cut off the end.
last_owned :
    (ys : Cells) (c : Ptr × File) (kept gone : Cells)
    → ys ++ c ∷ [] ≡ kept ++ gone
    → gone ≢ []
    → owns c.0 gone ≡ true
last_owned ys c kept [] e some_gone = absurd (some_gone refl)
last_owned ys c kept (d ∷ gone) e some_gone =
    let (zs, l, parts) = snoc_view d gone in
    let whole : ys ++ c ∷ [] ≡ (kept ++ zs) ++ l ∷ [] =
      e ∙ ap (◌++◌ kept) parts ∙ sym (append_assoc kept zs (l ∷ [])) in
    let same : c.0 ≡ l.0 =
      sym (last_address-snoc null ys c)
      ∙ ap (last_address null) whole
      ∙ last_address-snoc null (kept ++ zs) l in
    subst (λ t. owns c.0 t ≡ true) (sym parts) (ground (arith, owns-append c.0 zs (l ∷ [])))

-- A search under FIFO leaves the limits as they are.
Sound-Found :
    {s t : Server} {xs : Cells} {n : _} {r : Ptr} → Sound s xs → Found s n fifo xs r t → Sound t xs
Sound-Found i f = record {
  holds = f.holds;
  max_files = rw (f.steady.max_files) i.max_files;
  max_memory = rw (f.steady.max_memory) i.max_memory;
  total_small = i.total_small;
}

dangling :
    (p : Ptr) (m : List ℕ) (k : ℕ) (s : Server) → s.heap p ≡ none → write_to_file p m k s ≡ fault
unfolding write_to_file load
dangling p m k s e = elim (Bool-cases (p == null)) [ inl y ↦ rw y refl | inr o ↦ rw (o, e) refl ]

module _ (host : Host) (job : Job) (w : World) (ys : Cells) (p : Ptr) (f : File) (k : ℕ)
    (m : List ℕ) (rest : List Packet) (i : Sound w.server (ys ++ (p, f) ∷ [])) where
  append_on :
      w.incoming ≡ number k ∷ message m ∷ rest
      → has_name job.filename ys ≡ false
      → equal_names f.filename job.filename ≡ true
      → 0 < w.server.max_files
      → k < w.server.max_memory
      → w.server.max_memory < total (ys ++ (p, f) ∷ []) + k
      → serve_append host fifo job (on w) ≡ fault
  unfolding serve_append
  append_on e new same some_files below over =
      let n = job.filename in
      let xs = ys ++ (p, f) ∷ [] in
      let found = lookup_hit n ys (p, f) [] new same in
      fault-lift _ (on w) (find_file-Found w.server n fifo i.holds) λ r t g.
        let (q, at) = Chain-lookup n xs (p, f) g.holds.chain found in
        let here : r ≡ p = g.found ∙ ap address found in
        rw (g.found, found)
          (rw (not_null at) (
            rw e (
              fault-lift _
                (record w {
                  server = t;
                  connected = true;
                  incoming = message m ∷ rest;
                  sent = w.sent ++ number continue ∷ [];
                })
                (cache_algorithm-Room t 0 k (Sound-Found i g) (rw (g.steady.max_files) some_files)
                  (rw (g.steady.max_memory) below))
                λ o u room.
                  let some_gone : room.gone ≢ [] = λ none_gone.
                    let all : xs ≡ room.kept =
                      room.parts ∙ ap (◌++◌ room.kept) none_gone ∙ append-nil room.kept in
                    let fits = room.memory_fits in
                    let limit = g.steady.max_memory in let sum = ap total all in omega arith in
                  let proceed : (u.errno == e2big) ≡ false = (let z = room.error in ground arith) in
                  let owned = last_owned ys (p, f) room.kept room.gone room.parts some_gone in
                  if_false _ _ _ proceed
                    (rw (dangling r (m ++ 0 ∷ []) k u (rw here (room.freed p owned))) refl))))

  -- With the limits and the contents below 2 ^ 31, an `APPEND_FILE` of a connected client to the
  -- last file of the list, the only one of its name, under FIFO, whose data are below the memory
  -- limit but do not fit beside what is stored, ends in a use of freed memory: the eviction frees
  -- the file, and the worker writes to it through the pointer that it had before.
  pub serve_append-fault :
      w.connected ≡ true
      → w.incoming ≡ number k ∷ message m ∷ rest
      → has_name job.filename ys ≡ false
      → equal_names f.filename job.filename ≡ true
      → 0 < w.server.max_files
      → k < w.server.max_memory
      → w.server.max_memory < total (ys ++ (p, f) ∷ []) + k
      → serve_append host fifo job w ≡ fault
  serve_append-fault up e new same some_files below over =
      let live : on w ≡ w = λ i. record w { connected = sym up i } in
      subst (λ v. serve_append host fifo job v ≡ fault) live
        (append_on e new same some_files below over)
