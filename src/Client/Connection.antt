-- ===== src/Client/Connection.antt =====
-- `setFromMsec`, `addToCurrentTime` and `openConnection` of clientutils.c. The socket and the clock
-- of the system are parameters.
use progetto_sol_unipi.Base.{
  ℕ, zero, suc, ◌+◌, ◌*◌, ◌/◌, ◌%◌, ◌^◌, ◌<◌, ◌≤◌, ◌≡◌, refl, sym, subst, ◌⊎◌, inl, inr, Bool-cases,
  Bool, true, false, not, Option, none, some, arith, ltb, if◌then◌else◌,
}

-- `struct timespec`.
pub record Timespec : Type 0 where
  pub tv_sec : ℕ
  pub tv_nsec : ℕ

-- None for the answer -1, with `EINVAL`. `msec` is a `long`, and `req` may be null.
unfoldable pub set_from_msec : ℕ → Option Timespec → Option Timespec
set_from_msec msec none = none
set_from_msec msec (some req) =
    if not (ltb msec (2 ^ 63))
    then none
    else some (record { tv_sec = msec / 1000; tv_nsec = msec % 1000 * 1000 })

-- `now` is what `clock_gettime` answers.
unfoldable pub add_to_current_time : (sec nsec : ℕ) → (now : Timespec) → Timespec
add_to_current_time sec nsec now = record {
  tv_sec = now.tv_sec + sec;
  tv_nsec = now.tv_nsec + nsec;
}

-- The time that it stands for, in nanoseconds.
abbrev pub nanoseconds : Timespec → ℕ
nanoseconds t = t.tv_sec * 1000000000 + t.tv_nsec

-- A wait of less than 2 ^ 63 milliseconds is set to a time whose nanoseconds are less than a second,
-- and which falls short of it: of the milliseconds beside the whole seconds it counts each as a
-- microsecond, so 999000 nanoseconds are missing for each of them.
pub set_from_msec-short :
    (msec : ℕ) (req : Timespec)
    → msec < 2 ^ 63
    → (t : Timespec) × (set_from_msec msec (some req) ≡ some t)
      × (t.tv_nsec < 1000000000)
      × (nanoseconds t + 999000 * (msec % 1000) ≡ msec * 1000000)
unfolding set_from_msec
set_from_msec-short msec req few =
    let test : not (ltb msec (2 ^ 63)) ≡ false = ground arith in
    (
      record { tv_sec = msec / 1000; tv_nsec = msec % 1000 * 1000 },
      rw test refl,
      omega arith,
      omega arith,
    )

-- The attempt `i` of `openConnection` connects if `connect i` is true; `clock i` are the seconds
-- that are read before it is judged.
module _ (connect : ℕ → Bool) (clock : ℕ → ℕ) (deadline : ℕ) where
  -- True for 0, false for -1, and none where the rounds are used up.
  unfoldable pub connect_loop : ℕ → ℕ → Option Bool
  connect_loop zero i = none
  connect_loop (suc rounds) i =
      if connect i
      then some true
      else if ltb (clock i) deadline
      then connect_loop rounds (suc i)
      else some false

  -- `openConnection` once it has its socket.
  abbrev pub open_connection : ℕ → Option Bool
  open_connection rounds = connect_loop rounds 0

  -- An attempt has succeeded, and all before it have failed before the deadline.
  pub record Connects (i : ℕ) : Type 0 where
    pub succeeds : connect i ≡ true
    pub before : (j : ℕ) → j < i → (connect j ≡ false) × (clock j < deadline)

  -- The attempts up to one that ended at the deadline or later have all failed.
  pub record GivesUp (i : ℕ) : Type 0 where
    pub late : deadline ≤ clock i
    pub fails : (j : ℕ) → j ≤ i → connect j ≡ false

  abbrev pub Outcome : ℕ → Option Bool → Type 0
  Outcome last r =
      ((i : ℕ) × (i ≤ last) × Connects i × (r ≡ some true))
      ⊎ ((i : ℕ) × (i ≤ last) × GivesUp i × (r ≡ some false))

  tried_more :
      (i : ℕ)
      → ((j : ℕ) → j < i → (connect j ≡ false) × (clock j < deadline))
      → connect i ≡ false
      → clock i < deadline
      → (j : ℕ) → j < suc i
      → (connect j ≡ false) × (clock j < deadline)
  tried_more i tried fails early j before = elim (Bool-cases (ltb j i)) [
    | inl y ↦ tried j (ground arith)
    | inr o ↦
        let same : i ≡ j = ground arith in
        subst (λ k. (connect k ≡ false) × (clock k < deadline)) same (fails, early)
  ]

  fails_all :
      (i : ℕ)
      → ((j : ℕ) → j < i → (connect j ≡ false) × (clock j < deadline))
      → connect i ≡ false
      → (j : ℕ) → j ≤ i
      → connect j ≡ false
  fails_all i tried fails j upto = elim (Bool-cases (ltb j i)) [
    | inl y ↦ (tried j (ground arith)).0
    | inr o ↦ let same : i ≡ j = ground arith in subst (λ k. connect k ≡ false) same fails
  ]

  -- One attempt, and what comes after it.
  attempt-Outcome :
      (left i last : ℕ)
      → i ≤ last
      → ((j : ℕ) → j < i → (connect j ≡ false) × (clock j < deadline))
      → (connect i ≡ false → clock i < deadline → Outcome last (connect_loop left (suc i)))
      → Outcome last (connect_loop (suc left) i)
  unfolding connect_loop
  attempt-Outcome left i last upto tried more = elim (Bool-cases (connect i)) [
    | inl y ↦ rw y (inl (i, upto, record { succeeds = y; before = tried }, refl))
    | inr n ↦ elim (Bool-cases (ltb (clock i) deadline)) [
      | inl early ↦ rw (n, early) (more n (ground arith))
      | inr o ↦
          rw (n, o)
            (inr (i, upto, record { late = ground arith; fails = fails_all i tried n }, refl))
    ]
  ]

  connect_loop-Outcome :
      (rounds i last : ℕ)
      → rounds + i ≡ last
      → deadline ≤ clock last
      → ((j : ℕ) → j < i → (connect j ≡ false) × (clock j < deadline))
      → Outcome last (connect_loop (suc rounds) i)
  connect_loop-Outcome zero i last e late tried =
      let same : i ≡ last = omega (arith, e) in
      let late' : deadline ≤ clock i = subst (λ k. deadline ≤ clock k) (sym same) late in
      attempt-Outcome zero i last (omega (arith, e)) tried λ n early. absurd (omega arith)
  connect_loop-Outcome (suc rounds) i last e late tried =
      attempt-Outcome (suc rounds) i last (omega (arith, e)) tried λ n early.
        connect_loop-Outcome rounds (suc i) last (omega (arith, e)) late
          (tried_more i tried n early)

  -- Where the clock has reached the deadline at the attempt `last`, so many rounds and one are
  -- enough: `openConnection` answers 0 if an attempt up to that one succeeds, all before it having
  -- failed before the deadline, and otherwise -1, after an attempt that ended at the deadline or
  -- later, it and all before it having failed. One attempt is made even where the deadline has
  -- passed at the start.
  pub open_connection-Outcome :
      (last : ℕ) → deadline ≤ clock last → Outcome last (open_connection (suc last))
  open_connection-Outcome last late =
      connect_loop-Outcome last 0 last (omega arith) late
        (λ j before. absurd (omega (arith, before)))
