-- ===== src/Server/Worker/Served.antt =====
-- The outcome of a turn of a worker, and the calls of memory.c in it.
use progetto_sol_unipi.Base.{
  ◌≡◌, refl, sym, subst, ap, ◌∙◌, inl, inr, take, Bool-cases, true, List, Option, none, some, [],
  ◌∷◌, ◌++◌, arith, if◌then◌else◌,
}
use progetto_sol_unipi.Base.Command.{Run, Cmd, and_then, fault, Returns, returns}
use progetto_sol_unipi.Memory.State.{Ptr, Name, Policy, fifo, lru, enoent, File, Server}
use progetto_sol_unipi.Memory.Chain.{Cells}
use progetto_sol_unipi.Memory.Cache.{
  has_name, lookup, after_use, Holds, hit, lookup_hit, lookup_miss, erase_miss,
}
use progetto_sol_unipi.Server.Wire.{Packet, number, message, Response, World, lift_run}
use progetto_sol_unipi.Server.Worker.{Turn, again, continue, no_continue, status_ok, not_ok, eacces}

-- The cache holds `xs`, the packets `ps` and the responses `rs` have been added, and `left` is what
-- remains to be received.
pub record Served (w : World) (xs : Cells) (ps : List Packet) (rs : List Response)
    (left : List Packet) (r : Turn) (v : World) : Type 0 where
  pub turn : r ≡ again
  pub holds : Holds v.server xs
  pub connected : v.connected ≡ w.connected
  pub incoming : v.incoming ≡ left
  pub sent : v.sent ≡ w.sent ++ ps
  pub responses : v.responses ≡ w.responses ++ rs

-- A call of memory.c in a turn changes the cache only.
pub Returns-lift :
    {A B : Type 0} {P : A → Server → Type 0} {Q : B → World → Type 0} {run : Run Server A}
    (k : A → Cmd World B) (w : World)
    → Returns P run
    → ((a : A) (t : Server) → P a t → Returns Q (k a (record w { server = t })))
    → Returns Q (and_then (lift_run w run) k)
Returns-lift k w (returns p) rest = rest _ _ p

-- A search before a further use of the file: the first file of that name is the same.
pub lookup-after_use :
    (n : Name) (policy : Policy) (xs : Cells) → lookup n (after_use policy n xs) ≡ lookup n xs
lookup-after_use n fifo xs = refl
lookup-after_use n lru xs = elim (Bool-cases (has_name n xs)) [
  | inl y ↦
      let r = hit n xs y in
      let e = r.same in
      let found : lookup n xs ≡ some r.cell =
        ap (lookup n) r.parts ∙ lookup_hit n r.before r.cell r.after r.new e in
      rw found (ground arith)
  | inr o ↦ rw (lookup_miss n xs o) (rw (erase_miss n xs o) (lookup_miss n xs o))
]

pub has_name-after_use :
    (n : Name) (policy : Policy) (xs : Cells) → has_name n (after_use policy n xs) ≡ has_name n xs
has_name-after_use n fifo xs = refl
has_name-after_use n lru xs = elim (Bool-cases (has_name n xs)) [
  | inl y ↦
      let r = hit n xs y in
      let e = r.same in
      let found : lookup n xs ≡ some r.cell =
        ap (lookup n) r.parts ∙ lookup_hit n r.before r.cell r.after r.new e in
      rw (found, y) (ground arith)
  | inr o ↦ rw (lookup_miss n xs o) (rw (erase_miss n xs o) refl)
]

-- What a worker answers to `READ_FILE`: the packets, and the response.
abbrev pub read_packets : Option (Ptr × File) → List Packet
read_packets none = number no_continue ∷ []
read_packets (some (_, f)) =
    if f.is_open
    then (number continue
        ∷ number continue
        ∷ number f.used_memory
        ∷ message (take f.used_memory f.buffer)
        ∷ [])
    else (number continue ∷ number no_continue ∷ [])

abbrev pub read_response : Option (Ptr × File) → Response
read_response none = record { err = enoent; status_request = not_ok }
read_response (some (_, f)) =
    if f.is_open
    then (record { err = 0; status_request = status_ok })
    else (record { err = eacces; status_request = not_ok })

-- A worker whose client is connected.
abbrev pub on : World → World
on w = record w { connected = true }

pub Returns-on :
    (m : Cmd World Turn) (w : World) {xs : Cells} {ps : List Packet} {rs : List Response}
    {left : List Packet}
    → w.connected ≡ true
    → Returns (Served (on w) xs ps rs left) (m (on w))
    → Returns (Served w xs ps rs left) (m w)
Returns-on m w {xs} {ps} {rs} {left} up =
    let live : on w ≡ w = λ i. record w { connected = sym up i } in
    subst (λ u. Returns (Served u xs ps rs left) (m u)) live

-- A call of memory.c in a turn that faults further on.
pub fault-lift :
    {A B : Type 0} {P : A → Server → Type 0} {run : Run Server A} (k : A → Cmd World B) (w : World)
    → Returns P run
    → ((a : A) (t : Server) → P a t → k a (record w { server = t }) ≡ fault)
    → and_then (lift_run w run) k ≡ fault
fault-lift k w (returns p) rest = rest _ _ p
