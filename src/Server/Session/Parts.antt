-- ===== src/Server/Session/Parts.antt =====
-- The parts of a turn of the worker, by how many responses they push.
use progetto_sol_unipi.Base.{
  ℕ, zero, suc, ◌≡◌, refl, sym, ap, ◌∙◌, inl, inr, Bool-cases, Bool, true, false, not, List, Option,
  none, some, [], ◌∷◌, ◌++◌, ◌==◌, ltb, if◌then◌else◌,
}
use progetto_sol_unipi.Base.Command.{Run, Cmd, ok, fault, exit, out_of_fuel, and_then, Meets}
use progetto_sol_unipi.Memory.State.{Server}
use progetto_sol_unipi.Server.Wire.{
  Packet, number, message, broken, World, Response, lift_run, next_number, next_message,
}
use progetto_sol_unipi.Server.Worker.{Turn, again, respond}

-- One response more than in `before`, and the worker goes on.
pub data Answered (before : List Response) : Turn → World → Type 0 where
  answered : (r : Response) (t : World) → t.responses ≡ before ++ r ∷ [] → Answered before again t

-- Wherever the run ends with a result, it has pushed one response.
pub record Answers (before : List Response) (r : Run World Turn) : Type 0 where
  pub answers : Meets (λ turn t. Answered before turn t) r

-- Wherever the run ends with a result, it has pushed none.
pub record Quiet {A : Type 0} (before : List Response) (r : Run World A) : Type 0 where
  pub quiet : Meets (λ _ t. t.responses ≡ before) r

module _ {before : List Response} where
  pub Quiet-ok : {A : Type 0} (a : A) (w : World) → w.responses ≡ before → Quiet before (ok a w)
  Quiet-ok a w e = record { quiet = e }

  pub Quiet-exit : {A : Type 0} → Quiet {A = A} before exit
  Quiet-exit = record { quiet = tt }

  pub Quiet-if :
      {A : Type 0} (b : Bool) (q r : Run World A)
      → Quiet before q
      → Quiet before r
      → Quiet before (if b then q else r)
  Quiet-if true q r hq hr = hq
  Quiet-if false q r hq hr = hr

  pub Quiet-if_command :
      {A : Type 0} (b : Bool) (m n : Cmd World A) (w : World)
      → Quiet before (m w)
      → Quiet before (n w)
      → Quiet before ((if b then m else n) w)
  Quiet-if_command true m n w hm hn = hm
  Quiet-if_command false m n w hm hn = hn

  pub Quiet-then :
      {A B : Type 0} (r : Run World A) (k : A → Cmd World B)
      → Quiet before r
      → ((a : A) (t : World) → t.responses ≡ before → Quiet before (k a t))
      → Quiet before (and_then r k)
  Quiet-then (ok a t) k q rest = rest a t q.quiet
  Quiet-then fault k q rest = record { quiet = tt }
  Quiet-then exit k q rest = record { quiet = tt }
  Quiet-then out_of_fuel k q rest = record { quiet = tt }

  pub Quiet-lift :
      {A B : Type 0} (r : Run Server A) (w : World) (k : A → Cmd World B)
      → ((a : A) (s : Server) → Quiet before (k a (record w { server = s })))
      → Quiet before (and_then (lift_run w r) k)
  Quiet-lift (ok a s) w k rest = rest a s
  Quiet-lift fault w k rest = record { quiet = tt }
  Quiet-lift exit w k rest = record { quiet = tt }
  Quiet-lift out_of_fuel w k rest = record { quiet = tt }

  pub next_number-Quiet :
      (w : World) (ps : List Packet) → w.responses ≡ before → Quiet before (next_number w ps)
  next_number-Quiet w [] e = record { quiet = tt }
  next_number-Quiet w (number n ∷ rest) e = record { quiet = e }
  next_number-Quiet w (message m ∷ rest) e = record { quiet = tt }
  next_number-Quiet w (broken ∷ rest) e = record { quiet = tt }

  pub next_message-Quiet :
      (w : World) (ps : List Packet) → w.responses ≡ before → Quiet before (next_message w ps)
  next_message-Quiet w [] e = record { quiet = e }
  next_message-Quiet w (number n ∷ rest) e = record { quiet = tt }
  next_message-Quiet w (message m ∷ rest) e = record { quiet = e }
  next_message-Quiet w (broken ∷ rest) e = record { quiet = e }

module _ {before : List Response} where
  pub Answers-exit : Answers before exit
  Answers-exit = record { answers = tt }

  pub Answers-respond :
      (error status : ℕ) (w : World)
      → w.responses ≡ before
      → Answers before (respond error status w)
  Answers-respond error status w e = record {
    answers =
        answered (record { err = error; status_request = status }) _
          (ap (λ l. l ++ (record { err = error; status_request = status }) ∷ []) e);
  }

  pub Answers-if :
      (b : Bool) (m n : Cmd World Turn) (w : World)
      → Answers before (m w)
      → Answers before (n w)
      → Answers before ((if b then m else n) w)
  Answers-if true m n w am an = am
  Answers-if false m n w am an = an

  -- What precedes the rest of a turn changes the world, and no response.
  pub Answers-lift :
      {A : Type 0} (r : Run Server A) (w : World) (k : A → Cmd World Turn)
      → ((a : A) (s : Server) → Answers before (k a (record w { server = s })))
      → Answers before (and_then (lift_run w r) k)
  Answers-lift (ok a s) w k rest = rest a s
  Answers-lift fault w k rest = record { answers = tt }
  Answers-lift exit w k rest = record { answers = tt }
  Answers-lift out_of_fuel w k rest = record { answers = tt }

  pub Answers-then :
      {A : Type 0} (r : Run World A) (k : A → Cmd World Turn)
      → Quiet before r
      → ((a : A) (t : World) → t.responses ≡ before → Answers before (k a t))
      → Answers before (and_then r k)
  Answers-then (ok a t) k q rest = rest a t q.quiet
  Answers-then fault k q rest = record { answers = tt }
  Answers-then exit k q rest = record { answers = tt }
  Answers-then out_of_fuel k q rest = record { answers = tt }

-- What a turn is made of.
pub ruleset turn_parts = (
  refl, Answers-lift, Answers-if, Answers-respond, Answers-exit, Answers-then, Quiet-lift, Quiet-ok,
  Quiet-exit, Quiet-if, Quiet-if_command, Quiet-then, next_number-Quiet, next_message-Quiet,
)
