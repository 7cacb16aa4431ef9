-- ===== src/Client/Conversation.antt =====
-- Whole turns: the request of a client, and the worker that serves it.
use progetto_sol_unipi.Base.{
  ℕ, ◌<◌, ◌≡◌, refl, ap, ap₂, ◌∙◌, Bool, true, false, List, some, [], ◌∷◌, ◌++◌, append_assoc,
  arith, ◌==◌, length,
}
use progetto_sol_unipi.Base.Command.{Returns, returns, Returns-mono}
use progetto_sol_unipi.Memory.State.{Ptr, Name, Policy, File}
use progetto_sol_unipi.Memory.Files.{Host}
use progetto_sol_unipi.Memory.Chain.{Cells}
use progetto_sol_unipi.Memory.Cache.{has_name, lookup, after_use, Holds}
use progetto_sol_unipi.Memory.Evict.Admit.{Sound}
use progetto_sol_unipi.Server.Wire.{Packet, number, message, Response, World}
use progetto_sol_unipi.Server.Worker.{Job, serve_write, write_file}
use progetto_sol_unipi.Server.Worker.Finish.{append_first, write_packets, write_response}
use progetto_sol_unipi.Server.Worker.Writing.{serve_write-Wrote}
use progetto_sol_unipi.Server.Session.Dispatch.{request_packets}
use progetto_sol_unipi.Client.{Client, write_request, send_req, get_resp, when_can_continue}
use progetto_sol_unipi.Client.Agreement.{response_packets}

-- What the client sends after its request to write.
abbrev pub data_packets : List ℕ → List Packet
data_packets m = number (length m) ∷ message m ∷ []

-- How a request has ended for the client.
pub record Told (r : Response) (packets rest before : List Packet) (answer : ℕ) (d : Client)
    : Type 0 where
  pub status : answer ≡ r.status_request
  pub errno : d.errno ≡ r.err
  pub incoming : d.incoming ≡ rest
  pub sent : d.sent ≡ before ++ packets

-- `writeFile` of a file that is not empty takes exactly what the worker and the thread of the client
-- send for it, whether the file is still there after the eviction or not; the status and `errno`
-- are those of the response, and it sends the request, the size and the contents.
pub write_request-Told :
    (pathname : Name) (m : List ℕ) (there : Bool) (rest : List Packet) (c : Client)
    → 0 < length m
    → c.connected ≡ true
    → c.incoming ≡ write_packets there ++ response_packets (write_response there) ++ rest
    → Returns
        (Told
          (write_response there)
          (request_packets write_file pathname 0 ++ data_packets m)
          rest
          c.sent)
        (write_request pathname (some m) c)
unfolding write_request send_req get_resp when_can_continue
write_request-Told pathname m true rest c some_data up e =
    let test : (length m == 0) ≡ false = ground arith in
    rw up (
      rw e (
        rw test (
          returns
            (record { status = refl; errno = refl; incoming = refl; sent = simp append_assoc }))))
write_request-Told pathname m false rest c some_data up e =
    let test : (length m == 0) ≡ false = ground arith in
    rw up (
      rw e (
        rw test (
          returns
            (record { status = refl; errno = refl; incoming = refl; sent = simp append_assoc }))))

-- What the client receives of a turn: what the worker has sent, and then the responses, which its
-- thread sends.
abbrev pub replies : List Response → List Packet
replies [] = []
replies (r ∷ rs) = response_packets r ++ replies rs

abbrev pub to_client : World → List Packet
to_client v = v.sent ++ replies v.responses

-- The outcome of a whole turn of a write: the worker's side, and the client's.
pub record Written (n : Name) (m : List ℕ) (all : Cells) (c : Client) (v : World) : Type 0 where
  pub kept : Cells
  pub gone : Cells
  pub parts : all ≡ kept ++ gone
  pub holds : Holds v.server (append_first n m kept)
  pub client :
      Returns
        (Told
          (write_response (has_name n kept))
          (request_packets write_file n 0 ++ data_packets m)
          []
          c.sent)
        (write_request n (some m) (record c { incoming = to_client v }))

-- A whole turn of `writeFile` and `WRITE_FILE`, where the limits and the contents are below 2 ^ 31,
-- the file is there, its size is that of its contents, and the data are not empty and fewer than
-- the memory limit. The worker receives the size and the data that the client sends after its
-- request; the client takes all that the worker and the thread of the client send back, and nothing
-- stays behind. It is told of a success if the file is among the more recent ones that stay, and
-- then the data stand at its end; otherwise nothing is written, and it is told `ENOENT`.
pub write_request-Written :
    (host : Host) (policy : Policy) (job : Job) (w : World) (p : Ptr) (f : File) (m : List ℕ)
    (c : Client) {xs : Cells}
    → Sound w.server xs
    → 0 < length m
    → w.connected ≡ true
    → w.incoming ≡ data_packets m
    → (w.sent ≡ []) × (w.responses ≡ [])
    → lookup job.filename xs ≡ some (p, f)
    → f.used_memory ≡ length f.buffer
    → 0 < w.server.max_files
    → length m < w.server.max_memory
    → c.connected ≡ true
    → Returns
        (λ _ v. Written job.filename m (after_use policy job.filename xs) c v)
        (serve_write host policy job w)
write_request-Written host policy job w p f m c i some_data up e (none_sent, none_told) found
      flushed some_files below live =
    Returns-mono
      (serve_write-Wrote host policy job w p f m [] i up e found flushed some_files below)
      λ r v k.
        let b = has_name job.filename k.kept in
        let sent : v.sent ≡ write_packets b =
          k.served.sent ∙ ap (λ l. l ++ write_packets b) none_sent in
        let told : v.responses ≡ write_response b ∷ [] =
          k.served.responses ∙ ap (λ l. l ++ write_response b ∷ []) none_told in
        let all : to_client v ≡ write_packets b ++ response_packets (write_response b) ++ [] =
          ap₂ (λ l rs. l ++ replies rs) sent told in
        record {
          kept = k.kept;
          gone = k.gone;
          parts = k.parts;
          holds = k.served.holds;
          client =
              write_request-Told job.filename m b [] (record c { incoming = to_client v }) some_data
                live (all ∙ refl);
        }
