-- ===== src/Log.antt =====
-- log.c: the log file, and the lock under which it is written. What the calls of the system answer
-- is a parameter.
use progetto_sol_unipi.Base.{
  ℕ, ◌≡◌, refl, sym, ap, ◌∙◌, Bool, true, false, not, List, Option, none, some, [], ◌∷◌, ◌++◌,
  append-nil, append_assoc, if◌then◌else◌,
}
use progetto_sol_unipi.Base.Command.{Cmd, ok, pure, modify, and_then-ok, ◌>>=◌, ◌>>◌}
use progetto_sol_unipi.Base.Word.{minus_one32}
use progetto_sol_unipi.Memory.State.{Name}

-- `logFile`, by what has been written to it, and `lockLogFile`.
pub record Log : Type 0 where
  pub opened : Bool
  pub text : List Name
  pub locked : Bool

-- A call of `_log` returns, or waits for the lock.
pub data Call : Type 0 where
  returned blocks : Call

-- `fopen` truncates the file, or fails.
unfoldable pub init_logfile : (path : Option Name) → (fopen : Bool) → Cmd Log ℕ
init_logfile none fopen = pure minus_one32
init_logfile (some path) fopen =
    if not fopen
    then pure minus_one32
    else do modify λ l. record l { opened = true; text = [] }; pure 0

-- `lock`, which waits where the lock is held, and `unlock`.
abbrev pub lock : Cmd Log Bool
lock l = if l.locked then ok false l else ok true (record l { locked = true })

abbrev pub unlock : Cmd Log (Unit {0})
unlock = modify λ l. record l { locked = false }

-- `_log` with the text that the format and its arguments make; `vfprintf` succeeds or not.
unfoldable pub log : (vfprintf : Bool) → Name → Cmd Log Call
log vfprintf text = do
  free ← lock
  if not free then pure blocks else do
    if not vfprintf
        then pure returned
        else do modify λ l. record l { text = l.text ++ text ∷ [] }; unlock; pure returned

unfoldable pub close_log : (fclose : Bool) → Cmd Log ℕ
close_log fclose =
    if not fclose then pure minus_one32 else do modify λ l. record l { opened = false }; pure 0

-- Calls one after the other, each with its text and the answer of `vfprintf`.
unfoldable pub log_all : List (Bool × Name) → Cmd Log (List Call)
log_all [] = pure []
log_all ((vfprintf, text) ∷ calls) = do
  first ← log vfprintf text
  others ← log_all calls
  pure (first ∷ others)

-- The texts up to the first call that cannot write.
abbrev pub written : List (Bool × Name) → List Name
written [] = []
written ((vfprintf, text) ∷ calls) =
    let rest = written calls in if vfprintf then text ∷ rest else []

-- What the calls come to: from the one behind the first that cannot write, all wait.
abbrev pub waiting : List (Bool × Name) → List Call
waiting [] = []
waiting (c ∷ calls) = blocks ∷ waiting calls

abbrev pub outcomes : List (Bool × Name) → List Call
outcomes [] = []
outcomes ((vfprintf, text) ∷ calls) =
    let rest = outcomes calls in if vfprintf then returned ∷ rest else returned ∷ waiting calls

abbrev pub all_write : List (Bool × Name) → Bool
all_write [] = true
all_write ((vfprintf, text) ∷ calls) =
    let rest = all_write calls in if vfprintf then rest else false

module _ (text : Name) (l : Log) where
  log_held : (vfprintf : Bool) → l.locked ≡ true → log vfprintf text l ≡ ok blocks l
  unfolding log
  log_held vfprintf e = rw e refl

  log_free :
      l.locked ≡ false
      → log true text l ≡ ok returned (record l { text = l.text ++ text ∷ []; locked = false })
  unfolding log
  log_free e = rw e refl

  log_fails : l.locked ≡ false → log false text l ≡ ok returned (record l { locked = true })
  unfolding log
  log_fails e = rw e refl

held :
    (calls : List (Bool × Name)) (l : Log)
    → l.locked ≡ true
    → log_all calls l ≡ ok (waiting calls) l
unfolding log_all
held [] l e = refl
held ((b, text) ∷ calls) l e =
    and_then-ok _ _ (log_held text l b e) (and_then-ok _ _ (held calls l e) refl)

-- Calls of `_log` from a state in which the lock is free write their texts in order, and give the
-- lock back, as long as `vfprintf` succeeds. The first call whose `vfprintf` fails returns with the
-- lock held: every later call waits for it, and nothing more is written.
pub log_all-written :
    (calls : List (Bool × Name)) (l : Log)
    → l.locked ≡ false
    → log_all calls l
      ≡ ok
          (outcomes calls)
          (record l { text = l.text ++ written calls; locked = not (all_write calls) })
unfolding log_all
log_all-written [] l e =
    ap (λ t. ok [] (record l { text = t; locked = l.locked })) (sym (append-nil l.text))
    ∙ ap (λ b. ok [] (record l { text = l.text ++ []; locked = b })) e
log_all-written ((true, text) ∷ calls) l e =
    let next = record l { text = l.text ++ text ∷ []; locked = false } in
    and_then-ok _ _ (log_free text l e) (
      and_then-ok _ _ (log_all-written calls next refl) (
        ap
          (λ t.
            ok (returned ∷ outcomes calls) (record l { text = t; locked = not (all_write calls) }))
          (append_assoc l.text (text ∷ []) (written calls))))
log_all-written ((false, text) ∷ calls) l e =
    let next = record l { locked = true } in
    and_then-ok _ _ (log_fails text l e) (
      and_then-ok _ _ (held calls next refl) (
        ap (λ t. ok (returned ∷ waiting calls) (record l { text = t; locked = true }))
          (sym (append-nil l.text))))
