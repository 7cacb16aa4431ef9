-- ===== src/Protocol/RoundTrip.antt =====
-- What goes into a socket by `send_message` comes out of it by `recv_message`.
use progetto_sol_unipi.Base.{
  ℕ, zero, suc, ◌-◌, ◌^◌, ◌<◌, ◌≤◌, ◌≡◌, refl, sym, ap, ◌∙◌, true, false, List, Option, some, [],
  ◌∷◌, ◌++◌, append_assoc, append-nil, arith, ◌==◌, length, take, length-append,
}
use mathlib.Core.List.{append_cancel_left}
use progetto_sol_unipi.Base.Command.{Cmd, pure, ◌>>=◌, ◌>>◌, Returns, returns, Returns-bind}
use progetto_sol_unipi.Transfer.{drop}
use progetto_sol_unipi.Transfer.Whole.{Delivered, Accepted, readn-whole, writen-whole}
use progetto_sol_unipi.Protocol.{
  Machine, Socket, send_number, recv_number, send_message, recv_message,
}

-- What the machine promises of the 8 bytes of a number.
pub record IsMachine (m : Machine) : Type 0 where
  pub size : (n : ℕ) → length (m.encode n) ≡ 8
  pub back : (n : ℕ) → n < 2 ^ 64 → m.decode (m.encode n) ≡ n

-- What a connected socket promises, `flight` being the bytes that have been sent and not received:
-- the order is kept; `write` and `read` may move a part. A `send` of 8 bytes waits until there is
-- room for all of them, and a `recv` of 8 bytes takes what has arrived, up to 8, all that has been
-- sent having arrived: so these are whole. Neither call is broken off by a signal.
pub record IsSocket {S : Type 0} (flight : S → List ℕ) (k : Socket S) : Type 0 where
  pub sends :
      (b : List ℕ) (s : S)
      → length b ≡ 8
      → Returns (λ r t. (r ≡ some 8) × (flight t ≡ flight s ++ b)) (k.send b s)
  pub receives :
      (b rest : List ℕ) (s : S)
      → length b ≡ 8
      → flight s ≡ b ++ rest
      → Returns (λ r t. (r ≡ some b) × (flight t ≡ rest)) (k.recv 8 s)
  pub delivers :
      (n : ℕ) (s : S) → 0 < n → 0 < length (flight s) → Returns (Delivered flight n s) (k.read n s)
  pub accepts : (b : List ℕ) (s : S) → 0 < length b → Returns (Accepted flight b s) (k.write b s)

-- The first part of a list, and what follows it.
take_whole : (xs ys : List ℕ) → take (length xs) (xs ++ ys) ≡ xs
take_whole [] ys = refl
take_whole (x ∷ xs) ys = ap (◌∷◌ x) (take_whole xs ys)

drop_all : (n : ℕ) (xs : List ℕ) → length xs ≤ n → drop n xs ≡ []
drop_all zero [] h = refl
drop_all zero (x ∷ xs) h = absurd (omega arith)
drop_all (suc n) [] h = refl
drop_all (suc n) (x ∷ xs) h = drop_all n xs (omega arith)

module _ {S : Type 0} (flight : S → List ℕ) (machine : Machine) (socket : Socket S)
    (im : IsMachine machine) (is : IsSocket flight socket) where
  -- How a message stands on the wire.
  abbrev pub framed : List ℕ → List ℕ
  framed m = machine.encode (length m) ++ m

  pub send_message-framed :
      (m : List ℕ) (s : S)
      → Returns
          (λ done t. (done ≡ true) × (flight t ≡ flight s ++ framed m))
          (send_message machine socket m s)
  unfolding send_message send_number
  send_message-framed m s =
      Returns-bind (is.sends (machine.encode (length m)) s (im.size (length m))) λ r t (e, sent).
        rw e (
          Returns-bind (writen-whole flight socket.write is.accepts m t) λ o u (all, written).
            rw all (
              returns (
                ground arith,
                written
                    ∙ ap (λ l. l ++ m) sent
                    ∙ append_assoc (flight s) (machine.encode (length m)) m,
              )))

  pub recv_number-encode :
      (n : ℕ) (rest before : List ℕ) (s : S)
      → n < 2 ^ 64
      → length before ≡ 8
      → flight s ≡ machine.encode n ++ rest
      → Returns (λ r t. (r ≡ n) × (flight t ≡ rest)) (recv_number machine socket before s)
  unfolding recv_number
  recv_number-encode n rest before s small eight e =
      let b = machine.encode n in
      let none_left : drop (length b) before ≡ [] =
        drop_all (length b) before (omega (arith, im.size n)) in
      Returns-bind (is.receives b rest s (im.size n) e) λ r t (head, left). rw head (
        returns (
          ap (λ l. machine.decode (b ++ l)) none_left
              ∙ ap machine.decode (append-nil b)
              ∙ im.back n small,
          left,
        ))

  pub recv_message-framed :
      (m rest before : List ℕ) (s : S)
      → length m < 2 ^ 63
      → length before ≡ 8
      → flight s ≡ framed m ++ rest
      → Returns
          (λ r t. (r ≡ some (m ++ 0 ∷ [])) × (flight t ≡ rest))
          (recv_message machine socket before s)
  unfolding recv_message
  recv_message-framed m rest before s small eight e =
      let sane : (length m == 2 ^ 64 - 1) ≡ false = ground arith in
      Returns-bind
        (recv_number-encode (length m) (m ++ rest) before s (omega arith) eight
          (e ∙ append_assoc (machine.encode (length m)) m rest))
        λ n t (size, left).
          rw (size, sane)
            (Returns-bind
              (readn-whole flight socket.read is.delivers (length m) t
                (omega (arith, ap length left, length-append m rest)))
              λ o u (got, after).
                let first : take (length m) (flight t) ≡ m =
                  ap (take (length m)) left ∙ take_whole m rest in
                let whole : (length m == n) ≡ true = ground arith in
                rw (got, first)
                  (rw whole (
                    returns (
                      refl,
                      append_cancel_left m (flight u) rest
                          (ap (λ l. l ++ flight u) (sym first) ∙ sym after ∙ left),
                    ))))

  -- Sends the messages one after the other, and receives so many.
  pub send_all : List (List ℕ) → Cmd S (Unit {0})
  send_all [] = pure tt
  send_all (m ∷ ms) = send_message machine socket m >> send_all ms

  pub receive_all : ℕ → List ℕ → Cmd S (List (Option (List ℕ)))
  receive_all zero before = pure []
  receive_all (suc n) before = do
    m ← recv_message machine socket before
    ms ← receive_all n before
    pure (m ∷ ms)

  abbrev framed_all : List (List ℕ) → List ℕ
  framed_all [] = []
  framed_all (m ∷ ms) = framed m ++ framed_all ms

  abbrev pub Small : List (List ℕ) → Type 0
  Small [] = Unit {0}
  Small (m ∷ ms) = (length m < 2 ^ 63) × Small ms
