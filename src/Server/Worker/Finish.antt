-- ===== src/Server/Worker/Finish.antt =====
-- The end of `WRITE_FILE`: what `finish_write` does with a message that has arrived.
use progetto_sol_unipi.Base.{
  ℕ, ◌+◌, ◌<◌, ◌^◌, ◌≡◌, refl, sym, subst, ap, ◌∙◌, inl, inr, Bool, true, false, List, [], ◌∷◌,
  ◌++◌, some, arith, if◌then◌else◌, Bool-cases, append_assoc, length, take, length-append,
}
use progetto_sol_unipi.Base.Command.{Returns, returns}
use progetto_sol_unipi.Memory.State.{Ptr, Name, Policy, fifo, File, Server, enoent}
use progetto_sol_unipi.Memory.Names.{equal_names}
use progetto_sol_unipi.Memory.Chain.{Cells, total, not_null}
use progetto_sol_unipi.Memory.Cache.{
  has_name, lookup, after_use, Holds, hit, lookup_hit, lookup_miss,
}
use progetto_sol_unipi.Memory.Find.Found.{Found, find_file-Found}
use progetto_sol_unipi.Memory.Files.{Host}
use progetto_sol_unipi.Memory.Files.Contents.{appended, write_to_file-Written}
use progetto_sol_unipi.Memory.Files.Remove.{Chain-lookup, has_name_of_lookup}
use progetto_sol_unipi.Memory.Evict.Admit.{Sound}
use progetto_sol_unipi.Server.Wire.{Packet, number, Response, World}
use progetto_sol_unipi.Server.Worker.{Job, finish_write, continue, status_ok, not_ok}
use progetto_sol_unipi.Server.Worker.Served.{Served, on, Returns-lift}

-- The first file of that name has more data at its end.
abbrev pub append_first : Name → List ℕ → Cells → Cells
append_first n more [] = []
append_first n more (c ∷ xs) =
    if equal_names c.1.filename n then (c.0, appended c.1 more) ∷ xs else c ∷ append_first n more xs

module _ (n : Name) (more : List ℕ) where
  pub append_first_hit :
      (xs : Cells) (c : Ptr × File) (ys : Cells)
      → has_name n xs ≡ false
      → equal_names c.1.filename n ≡ true
      → append_first n more (xs ++ c ∷ ys) ≡ xs ++ (c.0, appended c.1 more) ∷ ys
  append_first_hit [] c ys h e = ground arith
  append_first_hit (x ∷ xs) c ys h e = ground (arith, append_first_hit xs c ys)

  pub append_first_miss : (xs : Cells) → has_name n xs ≡ false → append_first n more xs ≡ xs
  append_first_miss [] h = refl
  append_first_miss (x ∷ xs) h = ground (arith, append_first_miss xs)

lookup-append :
    (n : Name) (xs ys : Cells) → has_name n xs ≡ true → lookup n (xs ++ ys) ≡ lookup n xs
lookup-append n [] ys h = absurd (ground arith)
lookup-append n (x ∷ xs) ys h = ground (arith, lookup-append n xs ys)

pub flushed_same :
    {c d : Ptr × File}
    → some c ≡ some d
    → c.1.used_memory ≡ length c.1.buffer
    → d.1.used_memory ≡ length d.1.buffer
flushed_same {c} {d} e h =
    let same : c ≡ d = cc in subst (λ x. x.1.used_memory ≡ length x.1.buffer) same h

pub take_whole : (xs ys : List ℕ) → take (length xs) (xs ++ ys) ≡ xs
take_whole [] ys = refl
take_whole (x ∷ xs) ys = ap (◌∷◌ x) (take_whole xs ys)

-- A search leaves the limits and the contents as they are.
pub Sound-after_search :
    {s t : Server} {xs : Cells} {n : Name} {policy : Policy} {r : Ptr}
    → Sound s xs
    → Found s n policy xs r t
    → Sound t (after_use policy n xs)
Sound-after_search i f = record {
  holds = f.holds;
  max_files = rw (f.steady.max_files) i.max_files;
  max_memory = rw (f.steady.max_memory) i.max_memory;
  total_small =
      omega (arith, f.holds.used, f.steady.n_current_memory_used, i.holds.used, i.total_small);
}

-- What is sent and answered if the file is there after the eviction, and if it is not.
abbrev pub write_packets : Bool → List Packet
write_packets there =
    number continue ∷ number continue ∷ number (if there then continue else not_ok) ∷ []

abbrev pub write_response : Bool → Response
write_response there =
    if there
    then record { err = 0; status_request = status_ok }
    else record { err = enoent; status_request = not_ok }

module _ (host : Host) (policy : Policy) (job : Job) (w : World) (m : List ℕ)
    (rest : List Packet) where
  -- The world after the message has arrived.
  abbrev arrived : Server → World
  arrived u = record w {
    server = u;
    connected = true;
    incoming = rest;
    sent = (w.sent ++ number continue ∷ []) ++ number continue ∷ [];
  }

  write_sent :
      (there : Bool)
      → (arrived w.server).sent ++ number (if there then continue else not_ok) ∷ []
        ≡ w.sent ++ write_packets there
  write_sent there = append_assoc (w.sent ++ number continue ∷ []) _ _ ∙ append_assoc w.sent _ _

  pub finish_on :
      (u : Server) (kept : Cells)
      → Holds u kept
      → ((c : Ptr × File) → lookup job.filename kept ≡ some c → c.1.used_memory ≡ length c.1.buffer)
      → length m < 2 ^ 31
      → total kept + length m < 2 ^ 63
      → Returns
          (Served
            (on w)
            (append_first job.filename m kept)
            (write_packets (has_name job.filename kept))
            (write_response (has_name job.filename kept) ∷ [])
            rest)
          (finish_write host policy job (length m) (m ++ 0 ∷ []) (arrived u))
  unfolding finish_write
  finish_on u kept h flushed few small =
      let n = job.filename in
      Returns-lift _ (arrived u) (find_file-Found u n fifo h) λ r v g.
        elim (Bool-cases (has_name n kept)) [
          | inl y ↦
              let hits = hit n kept y in
              let c = hits.cell in
              let found : lookup n kept ≡ some c =
                ap (lookup n) hits.parts
                ∙ lookup_hit n hits.before c hits.after hits.new hits.same in
              let (q, at) = Chain-lookup n kept c g.holds.chain found in
              let put =
                ap (λ d. hits.before ++ (c.0, appended c.1 d) ∷ hits.after) (take_whole m (0 ∷ []))
                ∙ sym (append_first_hit n m hits.before c hits.after hits.new hits.same)
                ∙ sym (ap (append_first n m) hits.parts) in
              rw (g.found, found)
                (rw (not_null at) (
                  Returns-lift _
                    (record (arrived v) { sent = (arrived v).sent ++ number continue ∷ [] })
                    (write_to_file-Written v hits.before c.0 c.1 hits.after
                      (subst (Holds v) hits.parts g.holds) (m ++ 0 ∷ []) (length m)
                      (omega (arith, length-append m (0 ∷ []))) few (flushed c found)
                      (omega (arith, ap total hits.parts)))
                    λ o x (done, left, outside). returns (record {
                      turn = refl;
                      holds = subst (Holds x) put left;
                      connected = refl;
                      incoming = refl;
                      sent = write_sent true ∙ ap (λ d. w.sent ++ write_packets d) (sym y);
                      responses = ap (λ d. w.responses ++ write_response d ∷ []) (sym y);
                    })))
          | inr o ↦
              rw (g.found, lookup_miss n kept o)
                (returns (record {
                  turn = refl;
                  holds = subst (Holds v) (sym (append_first_miss n m kept o)) g.holds;
                  connected = refl;
                  incoming = refl;
                  sent = write_sent false ∙ ap (λ d. w.sent ++ write_packets d) (sym o);
                  responses = ap (λ d. w.responses ++ write_response d ∷ []) (sym o);
                }))
        ]

-- A file that is found among those kept is the one that was found among all.
pub kept_flushed :
    (n : Name) (all kept gone : Cells) (c : Ptr × File)
    → all ≡ kept ++ gone
    → lookup n all ≡ some c
    → c.1.used_memory ≡ length c.1.buffer
    → (d : Ptr × File) → lookup n kept ≡ some d
    → d.1.used_memory ≡ length d.1.buffer
kept_flushed n all kept gone c parts found flushed d here =
    flushed_same
      (sym found
        ∙ ap (lookup n) parts
        ∙ lookup-append n kept gone (has_name_of_lookup n kept d here)
        ∙ here)
      flushed
