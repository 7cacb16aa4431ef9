-- ===== src/Client/Reading.antt =====
-- A whole turn of `readFile` and `READ_FILE`: the request of a client, and the worker that serves it.
use progetto_sol_unipi.Base.{
  ℕ, ◌≡◌, refl, sym, ap, ap₂, ◌∙◌, inl, inr, Bool-cases, true, List, Option, none, some, [], ◌∷◌,
  ◌++◌, append-nil, append_assoc, if◌then◌else◌, length, take,
}
use progetto_sol_unipi.Base.Command.{Returns, Returns-mono}
use progetto_sol_unipi.Memory.State.{Name, Policy, File, enoent}
use progetto_sol_unipi.Memory.Names.{equal_names}
use progetto_sol_unipi.Memory.Files.{Host}
use progetto_sol_unipi.Memory.Chain.{Cells}
use progetto_sol_unipi.Memory.Cache.{lookup}
use progetto_sol_unipi.Server.Wire.{World}
use progetto_sol_unipi.Server.Worker.{Job, serve_read, status_ok, not_ok, eacces}
use progetto_sol_unipi.Server.Worker.Served.{read_packets, read_response}
use progetto_sol_unipi.Server.Worker.Read.{serve_read-Served}
use progetto_sol_unipi.Server.Worker.Finish.{take_whole}
use progetto_sol_unipi.Server.Worker.Stored.{Tidy}
use progetto_sol_unipi.Server.Worker.View.{Content, content, view}
use progetto_sol_unipi.Server.Worker.Request.{Keeps}
use progetto_sol_unipi.Client.{Client, read_request}
use progetto_sol_unipi.Client.Agreement.{stored, response_packets, read_request-agrees}
use progetto_sol_unipi.Client.Conversation.{replies, to_client}

-- What `readFile` should answer of a name: the status, and the buffer, with its closing NUL, and the
-- size; and `errno`.
abbrev pub answer : Option Content → ℕ × Option (List ℕ × ℕ)
answer none = (not_ok, none)
answer (some c) =
    if c.is_open
    then (status_ok, some (c.contents ++ 0 ∷ [], length c.contents))
    else (not_ok, none)

abbrev pub error : Option Content → ℕ
error none = enoent
error (some c) = if c.is_open then 0 else eacces

take_all : (m : List ℕ) → take (length m) m ≡ m
take_all m = ap (take (length m)) (sym (append-nil m)) ∙ take_whole m []

file_answer :
    (p : _) (f : File)
    → f.used_memory ≡ length f.buffer
    → (((read_response (some (p, f))).status_request, stored (some (p, f)))
        ≡ answer (some (content f)))
      × ((read_response (some (p, f))).err ≡ error (some (content f)))
file_answer p f e = elim (Bool-cases f.is_open) [
  | inl y ↦
      let whole : take f.used_memory f.buffer ≡ f.buffer =
        ap (λ k. take k f.buffer) e ∙ take_all f.buffer in
      rw y (ap₂ (λ b k. (status_ok, some (b ++ 0 ∷ [], k))) whole e, refl)
  | inr o ↦ rw o (refl, refl)
]

found_answer :
    (n : Name) (xs : Cells)
    → Tidy xs
    → (((read_response (lookup n xs)).status_request, stored (lookup n xs)) ≡ answer (view xs n))
      × ((read_response (lookup n xs)).err ≡ error (view xs n))
found_answer n [] t = (refl, refl)
found_answer n ((p, f) ∷ xs) (flushed, new, rest) = elim (Bool-cases (equal_names f.filename n)) [
  | inl y ↦ rw y (file_answer p f flushed)
  | inr o ↦ rw o (found_answer n xs rest)
]

-- A whole turn of `readFile` and `READ_FILE` on a well-formed cache: the client is told exactly what
-- the name stands for, which is the whole contents of a file that is open, with `OK`; `EACCES` of a
-- file that is closed; and `ENOENT` of a name that stands for nothing. It takes all that comes back,
-- and nothing stays behind.
pub read_request-Content :
    {files memory : ℕ} (host : Host) (policy : Policy) (job : Job) (w : World) (c : Client)
    (k : Keeps files memory w.server)
    → (w.sent ≡ []) × (w.responses ≡ [])
    → w.connected ≡ true
    → c.connected ≡ true
    → Returns
        (λ _ v.
          Returns
            (λ r d.
              (r ≡ answer (view k.cells job.filename))
              × (d.errno ≡ error (view k.cells job.filename))
              × (d.incoming ≡ []))
            (read_request job.filename (record c { incoming = to_client v })))
        (serve_read host policy job w)
read_request-Content host policy job w c k (none_sent, none_told) up live =
    Returns-mono (serve_read-Served host policy job w k.holds up) λ r v s.
      let found = lookup job.filename k.cells in
      let (a, b) = found_answer job.filename k.cells k.stored.tidy in
      let sent : v.sent ≡ read_packets found =
        s.sent ∙ ap (λ l. l ++ read_packets found) none_sent in
      let told : v.responses ≡ read_response found ∷ [] =
        s.responses ∙ ap (λ l. l ++ read_response found ∷ []) none_told in
      let all : to_client v ≡ read_packets found ++ response_packets (read_response found) ++ [] =
        ap₂ (λ l rs. l ++ replies rs) sent told
        ∙ sym (append_assoc (read_packets found) (response_packets (read_response found)) []) in
      Returns-mono
        (read_request-agrees job.filename found [] (record c { incoming = to_client v }) live all)
        λ r d (x, y, z). (x ∙ a, y ∙ b, z)
