-- ===== src/Base/Picked.antt =====
-- A list picked out of another in its order.
use katpool.Base.{List, [], ◌∷◌, All}

pub data Picked {ℓ} {A : Type ℓ} : List A → List A → Type ℓ where
  none_left : Picked [] []
  take_it : {x : A} {ps xs : List A} → Picked ps xs → Picked (x ∷ ps) (x ∷ xs)
  pass_it : {x : A} {ps xs : List A} → Picked ps xs → Picked ps (x ∷ xs)

module _ {ℓ} {A : Type ℓ} where
  pub Picked-nil : (xs : List A) → Picked [] xs
  Picked-nil [] = none_left
  Picked-nil (x ∷ xs) = pass_it (Picked-nil xs)

  pub Picked-All {κ} : (P : A → Type κ) {ps xs : List A} → Picked ps xs → All P xs → All P ps
  Picked-All P none_left h = tt
  Picked-All P (take_it k) h = (h.0, Picked-All P k h.1)
  Picked-All P (pass_it k) h = Picked-All P k h.1
