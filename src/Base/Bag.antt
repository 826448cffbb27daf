-- ===== src/Base/Bag.antt =====
-- Lists up to order: two lists hold the same elements, as often, when every measure of the
-- elements has the same sum over both. Stable insertion sorts, which keep the elements.
use katpool.Base.{
  ℕ, ◌+◌, ◌≡◌, refl, Bool, true, false, List, [], ◌∷◌, arith, if◌then◌else◌, sum_by, All,
}

abbrev pub SameItems {ℓ} : {A : Type ℓ} → List A → List A → Type ℓ
SameItems {A} xs ys = (f : A → ℕ) → sum_by f xs ≡ sum_by f ys

module _ {ℓ} {A : Type ℓ} (first : A → A → Bool) where
  -- `first x y`: x may stand before y. An element goes before its equals, so the sort is stable.
  unfoldable pub insert_by : A → List A → List A
  insert_by x [] = x ∷ []
  insert_by x (y ∷ ys) = if first x y then x ∷ y ∷ ys else y ∷ insert_by x ys

  unfoldable pub sort_by : List A → List A
  unfolding insert_by
  sort_by [] = []
  sort_by (x ∷ xs) = insert_by x (sort_by xs)

  insert_by-sum : (x : A) (xs : List A) (f : A → ℕ) → sum_by f (insert_by x xs) ≡ f x + sum_by f xs
  unfolding insert_by
  insert_by-sum x [] f = refl
  insert_by-sum x (y ∷ ys) f = ground (arith, insert_by-sum x ys f)

  pub sort_by-SameItems : (xs : List A) → SameItems (sort_by xs) xs
  unfolding sort_by
  sort_by-SameItems [] f = refl
  sort_by-SameItems (x ∷ xs) f =
      omega (arith, insert_by-sum x (sort_by xs) f, sort_by-SameItems xs f)

  insert_by-All {κ} :
      (P : A → Type κ) (x : A) (xs : List A) → P x → All P xs → All P (insert_by x xs)
  unfolding insert_by
  insert_by-All P x [] h k = (h, tt)
  insert_by-All P x (y ∷ ys) h k =
      elim (first x y) as (λ b. All P (if b then x ∷ y ∷ ys else y ∷ insert_by x ys)) [
        | true ↦ (h, k)
        | false ↦ (k.0, insert_by-All P x ys h k.1)
      ]

  pub sort_by-All {κ} : (P : A → Type κ) (xs : List A) → All P xs → All P (sort_by xs)
  unfolding sort_by
  sort_by-All P [] h = tt
  sort_by-All P (x ∷ xs) h = insert_by-All P x (sort_by xs) h.0 (sort_by-All P xs h.1)
