-- ===== src/KasPayout/Cycle/Eligibility.antt =====
-- Which rows the selection of wallets looks at (`list_kas_eligible_wallets` of
-- crates/katpool-db/src/repo/payout.rs).
use katpool.Base.{
  ℕ, ◌≡◌, refl, ap, sym, ◌∙◌, inl, inr, Bool, false, ◌&&◌, ◌==◌, if◌then◌else◌, List, [], ◌∷◌, map,
  retain, any, sum_by, Bool-cases, arith,
}
use katpool.Base.Int.{ℤ}
use katpool.KasPayout.Rows.{Payout}
use katpool.KasPayout.Cycle.{
  is_confirmed, counts_as_paid, paid_of, Db, with_rows, allocated_of, eligible_row, rank_eligible,
  list_kas_eligible_wallets,
}

module _ {ℓ} {A : Type ℓ} where
  sum_by-relevant :
      (f : A → ℕ) (p : A → Bool) (xs : List A)
      → ((x : A) → p x ≡ false → f x ≡ 0)
      → sum_by f xs ≡ sum_by f (retain p xs)
  sum_by-relevant f p [] h = refl
  sum_by-relevant f p (x ∷ xs) h = elim (Bool-cases (p x)) [
    | inl e ↦ rw (e) (omega (arith, sum_by-relevant f p xs h))
    | inr e ↦ rw (e) (omega (arith, sum_by-relevant f p xs h, h x e))
  ]

map-eq {ℓ ℓ'} :
    {A : Type ℓ} {B : Type ℓ'} (f g : A → B)
    → ((x : A) → f x ≡ g x)
    → (xs : List A) → map f xs ≡ map g xs
map-eq f g h [] = refl
map-eq f g h (x ∷ xs) = rw (h x, map-eq f g h xs) refl

abbrev confirmed_only : List Payout → List Payout
confirmed_only = retain (λ p. is_confirmed p.status)

unconfirmed-unpaid :
    (db : Db) (w : ℕ) (p : Payout)
    → is_confirmed p.status ≡ false
    → (if p.wallet_id == w && counts_as_paid db p then p.amount_sompi else 0) ≡ 0
unconfirmed-unpaid db w p h = rw (h) (ground arith)

paid_of-confirmed :
    (db : Db) (rows : List Payout) (n w : ℕ)
    → confirmed_only rows ≡ confirmed_only db.rows
    → paid_of (with_rows rows n db) w ≡ paid_of db w
paid_of-confirmed db rows n w h =
    let f : Payout → ℕ =
      λ p. if p.wallet_id == w && counts_as_paid db p then p.amount_sompi else 0 in
    let a = sum_by-relevant f (λ p. is_confirmed p.status) rows (unconfirmed-unpaid db w) in
    let b = sum_by-relevant f (λ p. is_confirmed p.status) db.rows (unconfirmed-unpaid db w) in
    a ∙ ap (sum_by f) h ∙ sym b

-- Only confirmed rows bear on who is selected, and with what amount: two tables with the same
-- confirmed rows give the same selection, whatever is planned, submitted, accepted or failed in them.
pub list_kas_eligible_wallets-ignores-unconfirmed :
    (threshold : ℤ) (db : Db) (rows : List Payout) (n : ℕ)
    → confirmed_only rows ≡ confirmed_only db.rows
    → list_kas_eligible_wallets threshold (with_rows rows n db)
      ≡ list_kas_eligible_wallets threshold db
unfolding list_kas_eligible_wallets
list_kas_eligible_wallets-ignores-unconfirmed threshold db rows n h = ap (rank_eligible threshold) (
    map-eq _ _ (λ w. ap (eligible_row w (allocated_of db w)) (paid_of-confirmed db rows n w h))
      (retain (λ w. any (λ a. a.allocated_to == w) db.allocations) db.wallets))
