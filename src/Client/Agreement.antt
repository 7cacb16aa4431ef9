-- ===== src/Client/Agreement.antt =====
-- The client against the packets that the worker sends.
use progetto_sol_unipi.Base.{
  ℕ, ◌≡◌, refl, true, inl, inr, List, Option, none, some, [], ◌∷◌, ◌++◌, take, if◌then◌else◌,
  Bool-cases,
}
use progetto_sol_unipi.Base.Command.{Returns, returns}
use progetto_sol_unipi.Memory.State.{Ptr, Name, File}
use progetto_sol_unipi.Server.Wire.{Packet, number, Response}
use progetto_sol_unipi.Server.Worker.Served.{read_packets, read_response}
use progetto_sol_unipi.Client.{Client, read_request, send_req, get_resp}

-- How `send_response` puts a response on the wire.
abbrev pub response_packets : Response → List Packet
response_packets r = number r.status_request ∷ number r.err ∷ []

-- What the client stores of a file: its contents and the closing NUL, and the size.
abbrev pub stored : Option (Ptr × File) → Option (List ℕ × ℕ)
stored none = none
stored (some (_, f)) =
    if f.is_open then some (take f.used_memory f.buffer ++ 0 ∷ [], f.used_memory) else none

-- `readFile` takes exactly what the worker and the thread of the client send for it, whether the
-- file is open, closed or missing: the status and `errno` are those of the response, and nothing
-- stays behind for the next request.
pub read_request-agrees :
    (pathname : Name) (file : Option (Ptr × File)) (rest : List Packet) (c : Client)
    → c.connected ≡ true
    → c.incoming ≡ read_packets file ++ response_packets (read_response file) ++ rest
    → Returns
        (λ r d.
          (r ≡ ((read_response file).status_request, stored file))
          × (d.errno ≡ (read_response file).err)
          × (d.incoming ≡ rest))
        (read_request pathname c)
unfolding read_request send_req get_resp
read_request-agrees pathname none rest c up e = rw up (rw e (returns (refl, refl, refl)))
read_request-agrees pathname (some (p, f)) rest c up e = elim (Bool-cases f.is_open) [
  | inl o ↦ rw up (rw e (rw o (returns (refl, refl, refl))))
  | inr o ↦ rw up (rw e (rw o (returns (refl, refl, refl))))
]
