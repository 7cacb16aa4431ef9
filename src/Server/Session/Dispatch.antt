-- ===== src/Server/Session/Dispatch.antt =====
-- A request of the client, from its socket to the job that the thread of the server pushes.
use progetto_sol_unipi.Base.{
  ℕ, ◌^◌, ◌<◌, ◌≡◌, refl, ap, ◌∙◌, arith, inl, inr, Bool-cases, Bool, true, false, List, Option,
  some, [], ◌∷◌, ◌++◌, append_assoc, ◌==◌, ltb, if◌then◌else◌, length,
}
use progetto_sol_unipi.Base.Command.{Run, ok, exit, Returns, returns}
use progetto_sol_unipi.Base.Word.{u32}
use progetto_sol_unipi.Memory.State.{Name, max_name}
use progetto_sol_unipi.Server.Wire.{World, Packet, number, message}
use progetto_sol_unipi.Server.Worker.{Job}
use progetto_sol_unipi.Server.Session.{c_string, job_init, receive_job}
use progetto_sol_unipi.Client.{Client, send_req}

-- A text without a NUL.
abbrev pub no_nul : Name → Bool
no_nul [] = true
no_nul (c ∷ n) = if c == 0 then false else no_nul n

c_string_lem : (n rest : Name) → no_nul n ≡ true → c_string (n ++ 0 ∷ rest) ≡ n
c_string_lem [] rest h = refl
c_string_lem (c ∷ n) rest h = elim (Bool-cases (c == 0)) [
  | inl y ↦ absurd (ground arith)
  | inr m ↦ rw m (ap (◌∷◌ c) (c_string_lem n rest (ground arith)))
]

abbrev pub request_packets : ℕ → Name → ℕ → List Packet
request_packets op name flags = number op ∷ message (name ++ 0 ∷ []) ∷ number flags ∷ []

-- What the thread of the server does with a request.
abbrev pub dispatched : ℕ → Name → ℕ → World → Run World (Option Job)
dispatched op name flags w =
    if ltb (length name) max_name
    then ok (some (record { op = op; flags = flags; filename = name })) w
    else exit

receive_job_lem :
    (op flags : ℕ) (name : Name) (rest : List Packet) (w : World)
    → op < 2 ^ 32
    → flags < 2 ^ 32
    → no_nul name ≡ true
    → receive_job (record w { incoming = request_packets op name flags ++ rest })
      ≡ dispatched op name flags (record w { incoming = rest })
unfolding receive_job job_init
receive_job_lem op flags name rest w small small' clean =
    let text =
      ap c_string (append_assoc name (0 ∷ []) (0 ∷ [])) ∙ c_string_lem name (0 ∷ []) clean in
    let same : u32 op ≡ op = omega arith in
    let same' : u32 flags ≡ flags = omega arith in
    rw (text, same, same')
      (elim (Bool-cases (ltb (length name) max_name)) [ inl y ↦ rw y refl | inr n ↦ rw n refl ])

-- What a client sends for a request, when nothing else is on the way, becomes the job with the
-- operation, the name and the flags that it was called with, and nothing of it stays behind; a name
-- of `MAXNAME` characters or more ends the server. The operation and the flags fit in an `int`, and
-- the name has no NUL.
pub send_req-receive_job :
    (op flags : ℕ) (name : Name) (rest : List Packet) (c : Client) (w : World)
    → op < 2 ^ 32
    → flags < 2 ^ 32
    → no_nul name ≡ true
    → c.connected ≡ true
    → c.sent ≡ []
    → Returns
        (λ _ d.
          receive_job (record w { incoming = d.sent ++ rest })
          ≡ dispatched op name flags (record w { incoming = rest }))
        (send_req op name flags c)
unfolding send_req
send_req-receive_job op flags name rest c w small small' clean up none_sent =
    rw up (rw none_sent (returns (receive_job_lem op flags name rest w small small' clean)))
