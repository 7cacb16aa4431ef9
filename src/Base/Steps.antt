-- ===== src/Base/Steps.antt =====
-- Sequences of steps.
pub data Reach {A : Type 0} (Step : A → A → Type 0) (s : A) : A → Type 0 where
  here : Reach Step s s
  next : {t u : A} → Reach Step s t → Step t u → Reach Step s u

module _ {A : Type 0} {Step : A → A → Type 0} where
  pub Reach-trans : {s t u : A} → Reach Step s t → Reach Step t u → Reach Step s u
  Reach-trans r here = r
  Reach-trans r (next q st) = next (Reach-trans r q) st
