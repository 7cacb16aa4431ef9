-- ===== src/Server/Worker/Follow.antt =====
-- Each outcome of a turn, as what the names stand for.
use progetto_sol_unipi.Base.{
  ℕ, ◌<◌, ◌≡◌, sym, subst, ap, ◌∙◌, ◌⊎◌, inl, inr, Bool-cases, true, false, not, ◌&&◌, ◌||◌, List,
  none, some, [], ◌∷◌, ◌++◌, append-nil, arith, ◌==◌, ltb, length, if◌then◌else◌,
}
use progetto_sol_unipi.Memory.State.{Ptr, Name, Policy}
use progetto_sol_unipi.Memory.Names.{equal_names}
use progetto_sol_unipi.Memory.Chain.{Cells}
use progetto_sol_unipi.Memory.Cache.{has_name, erase, after_use}
use progetto_sol_unipi.Server.Wire.{Packet, number, message, broken}
use progetto_sol_unipi.Server.Worker.{
  open_file, close_file, write_file, append_file, remove_file, o_create,
}
use progetto_sol_unipi.Server.Worker.Create.{opened_file}
use progetto_sol_unipi.Server.Worker.Open.{after_open}
use progetto_sol_unipi.Server.Worker.Close.{close_first}
use progetto_sol_unipi.Server.Worker.Finish.{append_first}
use progetto_sol_unipi.Server.Worker.Stored.{Tidy}
use progetto_sol_unipi.Server.Worker.View.{
  Content, view, view-open_first, view-close_first, view-append_first, view-erase, view-after_use,
  view_part, on_content, change, opens, closes, appends,
}
use progetto_sol_unipi.Server.Worker.Request.{Request}
use progetto_sol_unipi.Server.Worker.Spec.{
  is_some-view, accepted_data, add_data, spec, announced, may_evict, Follows, change_missing,
  add_missing, spec_open, spec_create, spec_exists, spec_close, spec_add, spec_remove, spec_other,
}

same_change :
    (n k : _) (g : Content → Content) (xs ys : Cells)
    → view xs k ≡ view ys k
    → change n g (view xs) k ≡ change n g (view ys) k
same_change n k g xs ys e = ap (λ o. if equal_names n k then on_content g o else o) e

module _ (policy : Policy) (memory : ℕ) (q : Request) (xs : Cells) where
  pub exists-Follows :
      (q.job.op == open_file && q.job.flags == o_create) ≡ true
      → has_name q.job.filename xs ≡ true
      → Follows memory q xs xs
  exists-Follows y there k =
      inl (sym (spec_exists memory q (view xs) k y (is_some-view q.job.filename xs ∙ there)))

  pub created-Follows :
      (p : Ptr) (kept gone : Cells)
      → xs ≡ kept ++ gone
      → (q.job.op == open_file && q.job.flags == o_create) ≡ true
      → has_name q.job.filename xs ≡ false
      → Follows memory q xs ((p, opened_file q.job.filename) ∷ kept)
  created-Follows p kept gone parts y new k =
      let n = q.job.filename in
      let s = spec_create memory q (view xs) k y (is_some-view n xs ∙ new) in
      let part : (view kept k ≡ view xs k) ⊎ (view kept k ≡ none) =
        subst (λ l. (view kept k ≡ view l k) ⊎ (view kept k ≡ none)) (sym parts)
          (view_part n k kept gone) in
      elim (Bool-cases (equal_names n k)) [
        | inl z ↦ inl (ground arith)
        | inr z ↦ elim part [
          | inl same ↦ inl (ground arith)
          | inr lost ↦ let absent = is_some-view n xs ∙ new in inr (ground arith, ground arith)
        ]
      ]

  pub opened-Follows :
      (q.job.op == open_file) ≡ true
      → (q.job.flags == o_create) ≡ false
      → Follows memory q xs (after_open policy q.job.filename (has_name q.job.filename xs) xs)
  opened-Follows y o k =
      let n = q.job.filename in
      let s = sym (spec_open memory q (view xs) k y o) in
      elim (Bool-cases (has_name n xs)) [
        | inl there ↦ rw there (
            inl (
              view-open_first n k (after_use policy n xs)
              ∙ same_change n k opens (after_use policy n xs) xs (view-after_use n k policy xs)
              ∙ s))
        | inr new ↦ rw new (inl (sym (change_missing n k opens xs new) ∙ s))
      ]

  pub closed-Follows :
      (q.job.op == close_file) ≡ true
      → Follows memory q xs (
          after_use policy q.job.filename
            (close_first q.job.filename (after_use policy q.job.filename xs)))
  closed-Follows y k =
      let n = q.job.filename in
      inl (
        view-after_use n k policy (close_first n (after_use policy n xs))
        ∙ view-close_first n k (after_use policy n xs)
        ∙ same_change n k closes (after_use policy n xs) xs (view-after_use n k policy xs)
        ∙ sym (spec_close memory q (view xs) k y))

  pub no_close-Follows :
      (q.job.op == close_file) ≡ true
      → has_name q.job.filename xs ≡ false
      → Follows memory q xs (after_use policy q.job.filename xs)
  no_close-Follows y new k =
      let n = q.job.filename in
      inl (
        view-after_use n k policy xs
        ∙ sym (change_missing n k closes xs new)
        ∙ sym (spec_close memory q (view xs) k y))

  pub removed-Follows :
      (q.job.op == remove_file) ≡ true → Tidy xs → Follows memory q xs (erase q.job.filename xs)
  removed-Follows y t k =
      inl (view-erase q.job.filename k xs t ∙ sym (spec_remove memory q (view xs) k y))

  -- A turn that only uses a file.
  pub used-Follows :
      (q.job.op == open_file) ≡ false
      → (q.job.op == close_file) ≡ false
      → (q.job.op == write_file || q.job.op == append_file) ≡ false
      → (q.job.op == remove_file) ≡ false
      → Follows memory q xs (after_use policy q.job.filename xs)
  used-Follows a b c d k =
      inl
        (view-after_use q.job.filename k policy xs ∙ sym (spec_other memory q (view xs) k a b c d))

  pub nothing-Follows :
      (q.job.op == open_file) ≡ false
      → (q.job.op == close_file) ≡ false
      → (q.job.op == write_file || q.job.op == append_file) ≡ false
      → (q.job.op == remove_file) ≡ false
      → Follows memory q xs xs
  nothing-Follows a b c d k = inl (sym (spec_other memory q (view xs) k a b c d))

  -- Of what an eviction keeps, a name stands for what it did, or for nothing.
  kept_part :
      (kept gone : Cells)
      → after_use policy q.job.filename xs ≡ kept ++ gone
      → (k : Name) → (view kept k ≡ view xs k) ⊎ (view kept k ≡ none)
  kept_part kept gone parts k = elim (view_part q.job.filename k kept gone) [
    | inl same ↦
        inl (same ∙ ap (λ l. view l k) (sym parts) ∙ view-after_use q.job.filename k policy xs)
    | inr lost ↦ inr lost
  ]

  may_go :
      (l : ℕ) (ps : List Packet) (k : Name)
      → (q.job.op == write_file) ≡ true
      → q.packets ≡ number l ∷ ps
      → ltb memory l ≡ false
      → may_evict memory q (view xs) k ≡ true
  may_go l ps k writes e fits =
      let told : announced memory q.packets ≡ true = ap (announced memory) e ∙ ap not fits in
      ground arith

  module _ (y : (q.job.op == write_file || q.job.op == append_file) ≡ true) where
    -- Nothing is added: the file is not there, or the data do not come.
    pub missed-Follows :
        has_name q.job.filename xs ≡ false
        → Follows memory q xs (after_use policy q.job.filename xs)
    missed-Follows new k =
        let n = q.job.filename in
        inl (
          view-after_use n k policy xs
          ∙ sym (add_missing n k (accepted_data memory q.packets) xs new)
          ∙ sym (spec_add memory q (view xs) k y))

    pub refused-Follows :
        (l : ℕ) (ps : List Packet)
        → q.packets ≡ number l ∷ ps
        → memory < l
        → Follows memory q xs (after_use policy q.job.filename xs)
    refused-Follows l ps e above k =
        let none_taken : accepted_data memory q.packets ≡ none =
          ap (accepted_data memory) e ∙ ground arith in
        inl (
          view-after_use q.job.filename k policy xs
          ∙ ap (λ d. add_data q.job.filename d (view xs) k) (sym none_taken)
          ∙ sym (spec_add memory q (view xs) k y))

    pub cut_off-Follows :
        (l : ℕ) (rest : List Packet) (kept gone : Cells)
        → (q.job.op == write_file) ≡ true
        → q.packets ≡ number l ∷ broken ∷ rest
        → l < memory
        → after_use policy q.job.filename xs ≡ kept ++ gone
        → Follows memory q xs kept
    cut_off-Follows l rest kept gone writes e below parts k =
        let none_taken : accepted_data memory q.packets ≡ none =
          ap (accepted_data memory) e ∙ ground arith in
        let s : view xs k ≡ spec memory q (view xs) k =
          ap (λ d. add_data q.job.filename d (view xs) k) (sym none_taken)
          ∙ sym (spec_add memory q (view xs) k y) in
        elim (kept_part kept gone parts k) [
          | inl same ↦ inl (same ∙ s)
          | inr lost ↦ inr (may_go l (broken ∷ rest) k writes e (ground arith), lost)
        ]

    pub added-Follows :
        (m : List ℕ) (rest : List Packet) (kept gone : Cells)
        → ((q.job.op == write_file) ≡ true) ⊎ (gone ≡ [])
        → q.packets ≡ number (length m) ∷ message m ∷ rest
        → ltb memory (length m) ≡ false
        → after_use policy q.job.filename xs ≡ kept ++ gone
        → Follows memory q xs (append_first q.job.filename m kept)
    added-Follows m rest kept gone how e fits parts k =
        let n = q.job.filename in
        let taken : accepted_data memory q.packets ≡ some m =
          ap (accepted_data memory) e ∙ ground arith in
        let s : change n (appends m) (view xs) k ≡ spec memory q (view xs) k =
          ap (λ d. add_data n d (view xs) k) (sym taken) ∙ sym (spec_add memory q (view xs) k y) in
        let put = view-append_first n k m kept in
        elim (kept_part kept gone parts k) [
          | inl same ↦ inl (put ∙ same_change n k (appends m) kept xs same ∙ s)
          | inr lost ↦
              let nothing : view (append_first n m kept) k ≡ none = put ∙ ground arith in
              elim how [
                | inl writes ↦ inr (may_go (length m) (message m ∷ rest) k writes e fits, nothing)
                | inr none_gone ↦
                    let same : view kept k ≡ view xs k =
                      ap (λ l. view l k) (sym (parts ∙ ap (◌++◌ kept) none_gone ∙ append-nil kept))
                      ∙ view-after_use n k policy xs in
                    inl (put ∙ same_change n k (appends m) kept xs same ∙ s)
              ]
        ]
