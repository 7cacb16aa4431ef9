-- ===== src/Program/Removals.antt =====
-- `-c`: the requests, and their responses.
use progetto_sol_unipi.Base.{
  ◌≡◌, refl, sym, ap, ◌∙◌, arith, ◌<◌, inl, inr, Bool-cases, true, ltb, not, ◌&&◌, ◌==◌, List, some,
  [], ◌∷◌, ◌++◌, append-nil, append_assoc, length,
}
use progetto_sol_unipi.Base.Command.{Run, Cmd, and_then, Returns, returns, Returns-mono}
use progetto_sol_unipi.Base.Word.{u32}
use progetto_sol_unipi.Memory.State.{Name, max_name}
use progetto_sol_unipi.Server.Wire.{Packet, number, message, Response}
use progetto_sol_unipi.Server.Worker.{remove_file, status_ok}
use progetto_sol_unipi.Server.Session.Dispatch.{request_packets}
use progetto_sol_unipi.Client.{Client, send_req, get_resp, remove_request}
use progetto_sol_unipi.Client.Agreement.{response_packets}
use progetto_sol_unipi.Program.{System, Program, remove_named, lift_client}

-- The responses of the server as they stand in the stream.
abbrev pub responses : List Response → List Packet
responses [] = []
responses (r ∷ rs) = response_packets r ++ responses rs

-- A request changes the client only.
Returns-call :
    {A B : Type 0} {P : A → Client → Type 0} {Q : B → Program → Type 0} {run : Run Client A}
    (k : A → Cmd Program B) (p : Program)
    → Returns P run
    → ((a : A) (c : Client) → P a c → Returns Q (k a (record p { client = c })))
    → Returns Q (and_then (lift_client p run) k)
Returns-call k p (returns h) rest = rest _ _ h

module _ (system : System) where
  abbrev pub removals : List Name → List Packet
  removals [] = []
  removals (name ∷ names) = request_packets remove_file (system.realpath name) 0 ++ removals names

  -- The real paths of the names fit in a buffer of `MAXNAME` characters.
  abbrev pub AllShort : List Name → Type 0
  AllShort [] = Unit {0}
  AllShort (name ∷ names) = (length (system.realpath name) < max_name) × AllShort names

  remove_one :
      (name : Name) (r : Response) (rest : List Packet) (c : Client)
      → c.connected ≡ true
      → c.incoming ≡ response_packets r ++ rest
      → Returns
          (λ _ d.
            (d.connected ≡ true)
            × (d.sent ≡ c.sent ++ request_packets remove_file name 0)
            × (d.incoming ≡ rest))
          (remove_request (some name) c)
  unfolding remove_request send_req get_resp
  remove_one name r rest c up e =
      let all_sent =
        append_assoc (c.sent ++ number remove_file ∷ []) (message (name ++ 0 ∷ []) ∷ [])
          (number 0 ∷ [])
        ∙ append_assoc c.sent (number remove_file ∷ [])
            (message (name ++ 0 ∷ []) ∷ number 0 ∷ []) in
      rw up (
        rw e (elim (Bool-cases ((u32 r.status_request == status_ok) && not (u32 r.err == 0))) [
          | inl y ↦ rw y (returns (refl, all_sent, refl))
          | inr n ↦ rw n (returns (refl, all_sent, refl))
        ]))

  -- `-c` sends one request to remove for each of its names, in their order and by their real paths,
  -- and takes exactly the response to each from the stream, whether it is a success or not; nothing
  -- that follows is touched. The client is connected, the responses are there, and each real path
  -- is shorter than `MAXNAME`.
  pub remove_named-sends :
      (names : List Name) (rs : List Response) (rest : List Packet) (p : Program)
      → AllShort names
      → length rs ≡ length names
      → p.client.connected ≡ true
      → p.client.incoming ≡ responses rs ++ rest
      → Returns
          (λ _ t.
            (t.client.sent ≡ p.client.sent ++ removals names)
            × (t.client.incoming ≡ rest)
            × (t.written ≡ p.written))
          (remove_named system names p)
  unfolding remove_named
  remove_named-sends [] [] rest p short same up e =
      returns (sym (append-nil p.client.sent), e, refl)
  remove_named-sends [] (r ∷ rs) rest p short same up e = absurd (omega arith)
  remove_named-sends (name ∷ names) [] rest p short same up e = absurd (omega arith)
  remove_named-sends (name ∷ names) (r ∷ rs) rest p (short, all) same up e =
      let fits : ltb (length (system.realpath name)) max_name ≡ true = ground arith in
      rw fits (
        Returns-call _ p (remove_one (system.realpath name) r (responses rs ++ rest) p.client up e)
          λ _ d (up', sent, left).
            Returns-mono
              (remove_named-sends names rs rest (record p { client = d }) all (omega arith) up'
                left)
              λ _ t (more, left', same'). (
                more
                    ∙ ap (λ l. l ++ removals names) sent
                    ∙ append_assoc p.client.sent _ (removals names),
                left',
                same',
              ))
