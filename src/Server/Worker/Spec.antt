-- ===== src/Server/Worker/Spec.antt =====
-- What a turn promises a client that sees the cache as a map from names to contents.
use progetto_sol_unipi.Base.{
  ℕ, ◌≡◌, refl, ◌⊎◌, inl, inr, Bool-cases, Bool, true, false, not, ◌&&◌, ◌||◌, List, Option, none,
  some, [], ◌∷◌, arith, ◌==◌, ltb, if◌then◌else◌,
}
use progetto_sol_unipi.Memory.State.{Name}
use progetto_sol_unipi.Memory.Names.{equal_names}
use progetto_sol_unipi.Memory.Chain.{Cells}
use progetto_sol_unipi.Memory.Cache.{has_name}
use progetto_sol_unipi.Server.Wire.{Packet, number, message, broken}
use progetto_sol_unipi.Server.Worker.{
  open_file, close_file, write_file, append_file, remove_file, o_create,
}
use progetto_sol_unipi.Server.Worker.View.{
  Store, Content, view, view_miss, change, drop, create, opens, closes, appends,
}
use progetto_sol_unipi.Server.Worker.Request.{Request}

abbrev pub is_some : Option Content → Bool
is_some none = false
is_some (some c) = true

-- The data that a client sends with their size, unless the size is above the limit or the data do
-- not come.
abbrev pub first_message : List Packet → Option (List ℕ)
first_message [] = none
first_message (number k ∷ ps) = none
first_message (message m ∷ ps) = some m
first_message (broken ∷ ps) = none

abbrev pub accepted_data : ℕ → List Packet → Option (List ℕ)
accepted_data memory [] = none
accepted_data memory (number k ∷ ps) = if ltb memory k then none else first_message ps
accepted_data memory (message m ∷ ps) = none
accepted_data memory (broken ∷ ps) = none

abbrev pub add_data : Name → Option (List ℕ) → Store → Store
add_data n none v = v
add_data n (some m) v = change n (appends m) v

-- What a request does to the map: creating a file that is not there, opening, closing or removing
-- one, adding data at its end; the others change nothing.
abbrev pub spec : ℕ → Request → Store → Store
spec memory q v =
    let n = q.job.filename in
    if q.job.op == open_file
    then (if q.job.flags == o_create
        then (if is_some (v n) then v else create n v)
        else change n opens v)
    else if q.job.op == close_file
    then change n closes v
    else if q.job.op == write_file || q.job.op == append_file
    then add_data n (accepted_data memory q.packets) v
    else if q.job.op == remove_file
    then drop n v
    else v

-- Whether a size that is not above the limit is announced.
abbrev pub announced : ℕ → List Packet → Bool
announced memory [] = false
announced memory (number k ∷ ps) = not (ltb memory k)
announced memory (message m ∷ ps) = false
announced memory (broken ∷ ps) = false

-- The names that may have to go for a request: any other for the creation of a file that is not
-- there, any for a write that is not refused at once.
abbrev pub may_evict : ℕ → Request → Store → Name → Bool
may_evict memory q v k =
    (q.job.op == open_file
      && q.job.flags == o_create
      && not (is_some (v q.job.filename))
      && not (equal_names q.job.filename k))
    || (q.job.op == write_file && announced memory q.packets)

-- Every name stands for what the request makes of it, or for nothing where it may have had to go.
abbrev pub Follows : ℕ → Request → (before after : Cells) → Type 0
Follows memory q before after =
    (k : Name)
    → (view after k ≡ spec memory q (view before) k)
      ⊎ ((may_evict memory q (view before) k ≡ true) × (view after k ≡ none))

pub is_some-view : (n : Name) (xs : Cells) → is_some (view xs n) ≡ has_name n xs
is_some-view n [] = refl
is_some-view n ((p, f) ∷ xs) = let e = is_some-view n xs in ground arith

-- A change of a name that stands for nothing.
pub change_missing :
    (n k : Name) (g : Content → Content) (xs : Cells)
    → has_name n xs ≡ false
    → change n g (view xs) k ≡ view xs k
change_missing n k g xs o = elim (Bool-cases (equal_names n k)) [
  | inl y ↦ rw (y, view_miss n k xs o y) refl
  | inr z ↦ rw z refl
]

pub add_missing :
    (n k : Name) (m : Option (List ℕ)) (xs : Cells)
    → has_name n xs ≡ false
    → add_data n m (view xs) k ≡ view xs k
add_missing n k none xs o = refl
add_missing n k (some m) xs o = change_missing n k (appends m) xs o

module _ (memory : ℕ) (q : Request) (v : Store) (k : Name) where
  pub spec_open :
      (q.job.op == open_file) ≡ true
      → (q.job.flags == o_create) ≡ false
      → spec memory q v k ≡ change q.job.filename opens v k
  spec_open y o = rw (y, o) refl

  pub spec_create :
      (q.job.op == open_file && q.job.flags == o_create) ≡ true
      → is_some (v q.job.filename) ≡ false
      → spec memory q v k ≡ create q.job.filename v k
  spec_create y o =
      let a : (q.job.op == open_file) ≡ true = ground arith in
      let b : (q.job.flags == o_create) ≡ true = ground arith in rw (a, b, o) refl

  pub spec_exists :
      (q.job.op == open_file && q.job.flags == o_create) ≡ true
      → is_some (v q.job.filename) ≡ true
      → spec memory q v k ≡ v k
  spec_exists y o =
      let a : (q.job.op == open_file) ≡ true = ground arith in
      let b : (q.job.flags == o_create) ≡ true = ground arith in rw (a, b, o) refl

  pub spec_close :
      (q.job.op == close_file) ≡ true → spec memory q v k ≡ change q.job.filename closes v k
  spec_close y = let a : (q.job.op == open_file) ≡ false = ground arith in rw (a, y) refl

  pub spec_add :
      (q.job.op == write_file || q.job.op == append_file) ≡ true
      → spec memory q v k ≡ add_data q.job.filename (accepted_data memory q.packets) v k
  spec_add y =
      let a : (q.job.op == open_file) ≡ false = ground arith in
      let b : (q.job.op == close_file) ≡ false = ground arith in rw (a, b, y) refl

  pub spec_remove : (q.job.op == remove_file) ≡ true → spec memory q v k ≡ drop q.job.filename v k
  spec_remove y =
      let a : (q.job.op == open_file) ≡ false = ground arith in
      let b : (q.job.op == close_file) ≡ false = ground arith in
      let c : (q.job.op == write_file || q.job.op == append_file) ≡ false = ground arith in
      rw (a, b, c, y) refl

  pub spec_other :
      (q.job.op == open_file) ≡ false
      → (q.job.op == close_file) ≡ false
      → (q.job.op == write_file || q.job.op == append_file) ≡ false
      → (q.job.op == remove_file) ≡ false
      → spec memory q v k ≡ v k
  spec_other a b c d = rw (a, b, c, d) refl
