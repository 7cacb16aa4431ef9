-- ===== src/Client/Exchange.antt =====
-- Whole turns of a removal and of an opening: the request of a client, and the worker that serves
-- it.
use progetto_sol_unipi.Base.{
  ℕ, ◌≡◌, refl, ap, ap₂, ◌∙◌, Bool, true, false, List, some, [], ◌∷◌, ◌++◌, append_assoc, ◌==◌,
  if◌then◌else◌,
}
use progetto_sol_unipi.Base.Command.{Returns, returns, Returns-mono}
use progetto_sol_unipi.Memory.State.{Name, Policy, enoent}
use progetto_sol_unipi.Memory.Files.{Host}
use progetto_sol_unipi.Memory.Chain.{Cells}
use progetto_sol_unipi.Memory.Cache.{has_name, erase, Holds}
use progetto_sol_unipi.Server.Wire.{Packet, Response, World}
use progetto_sol_unipi.Server.Worker.{
  Job, serve_remove, serve_open, remove_file, open_file, o_create, not_ok, status_ok,
}
use progetto_sol_unipi.Server.Worker.Removal.{serve_remove-Served}
use progetto_sol_unipi.Server.Worker.Open.{serve_open-Served, after_open, open_response}
use progetto_sol_unipi.Server.Session.Dispatch.{request_packets}
use progetto_sol_unipi.Client.{Client, remove_request, open_request, send_req, get_resp}
use progetto_sol_unipi.Client.Agreement.{response_packets}
use progetto_sol_unipi.Client.Conversation.{Told, replies, to_client}

-- A client to which the one response of its request is on the way.
module _ (rest : List Packet) (c : Client) (up : c.connected ≡ true) where
  told_removal :
      (name : Name) (done : Bool)
      → c.incoming ≡ response_packets (open_response done) ++ rest
      → Returns
          (Told (open_response done) (request_packets remove_file name 0) rest c.sent)
          (remove_request (some name) c)
  unfolding remove_request send_req get_resp
  told_removal name true e = rw up (
      rw e (
        returns
          (record { status = refl; errno = refl; incoming = refl; sent = simp append_assoc })))
  told_removal name false e = rw up (
      rw e (
        returns
          (record { status = refl; errno = refl; incoming = refl; sent = simp append_assoc })))

  told_opening :
      (name : Name) (flags : ℕ) (done : Bool)
      → c.incoming ≡ response_packets (open_response done) ++ rest
      → Returns
          (Told (open_response done) (request_packets open_file name flags) rest c.sent)
          (open_request name flags c)
  unfolding open_request send_req get_resp
  told_opening name flags true e = rw up (
      rw e (
        returns
          (record { status = refl; errno = refl; incoming = refl; sent = simp append_assoc })))
  told_opening name flags false e = rw up (
      rw e (
        returns
          (record { status = refl; errno = refl; incoming = refl; sent = simp append_assoc })))

-- The responses of a removal are those of an opening.
removal_response :
    (b : Bool)
    → (if b
        then record { err = 0; status_request = status_ok }
        else record { err = enoent; status_request = not_ok })
      ≡ open_response b
removal_response true = refl
removal_response false = refl

-- What comes to the client of a turn with one response and no packet.
one_reply :
    (w v : World) (r : Response)
    → (w.sent ≡ []) × (w.responses ≡ [])
    → v.sent ≡ w.sent ++ []
    → v.responses ≡ w.responses ++ r ∷ []
    → to_client v ≡ response_packets r ++ []
one_reply w v r (none_sent, none_told) sent told =
    ap₂ (λ l rs. l ++ replies rs) (sent ∙ ap (λ l. l ++ []) none_sent)
      (told ∙ ap (λ l. l ++ r ∷ []) none_told)

module _ (host : Host) (policy : Policy) (job : Job) (w : World) (c : Client) {xs : Cells}
    (h : Holds w.server xs) (quiet : (w.sent ≡ []) × (w.responses ≡ []))
    (up : c.connected ≡ true) where
  -- A whole turn of `removeFile` and `REMOVE_FILE`: the client takes exactly what comes back, and is
  -- told of a success if a file had the name, and `ENOENT` if none had; the first file of that name
  -- is gone, and the others stay.
  pub remove_request-Removed :
      Returns
        (λ _ v.
          Holds v.server (erase job.filename xs)
          × Returns
              (Told
                (open_response (has_name job.filename xs))
                (request_packets remove_file job.filename 0)
                []
                c.sent)
              (remove_request (some job.filename) (record c { incoming = to_client v })))
        (serve_remove host policy job w)
  remove_request-Removed = Returns-mono (serve_remove-Served host policy job w h) λ r v k.
      let b = has_name job.filename xs in
      (
        k.holds,
        told_removal [] (record c { incoming = to_client v }) up job.filename b
            (one_reply w v (open_response b) quiet k.sent
              (k.responses ∙ ap (λ a. w.responses ++ a ∷ []) (removal_response b))),
      )

  -- A whole turn of `openFile` and `OPEN_FILE` without a creation: the client takes exactly what
  -- comes back, and is told of a success if a file has the name, the first one of which is open
  -- then, and `ENOENT` if none has.
  pub open_request-Opened :
      (job.flags == o_create) ≡ false
      → Returns
          (λ _ v.
            Holds v.server (after_open policy job.filename (has_name job.filename xs) xs)
            × Returns
                (Told
                  (open_response (has_name job.filename xs))
                  (request_packets open_file job.filename job.flags)
                  []
                  c.sent)
                (open_request job.filename job.flags (record c { incoming = to_client v })))
          (serve_open host policy job w)
  open_request-Opened plain = Returns-mono (serve_open-Served host policy job w h plain) λ r v k.
      let b = has_name job.filename xs in
      (
        k.holds,
        told_opening [] (record c { incoming = to_client v }) up job.filename job.flags b
            (one_reply w v (open_response b) quiet k.sent k.responses),
      )
