-- ===== src/Mass/Planner/Removal.antt =====
-- What is left of a list when a batch's coins or recipients are removed from it
-- (`remove_consumed` and `remove_paid` of crates/katpool-storagemass/src/planner.rs).
use mathlib.Core.List.{append_assoc}
use katpool.Base.{
  ℕ, zero, suc, ◌+◌, ◌≤◌, ◌≡◌, refl, subst, Bool, true, false, not, if◌then◌else◌, ◌==◌, ==_refl,
  List, [], ◌∷◌, ◌++◌, arith, retain, any, take, sum_by, All, Bool-cases, inl, inr,
}
use katpool.Base.Picked.{Picked, none_left, take_it, pass_it, Picked-nil, Picked-All}
use katpool.Mass.Types.{outpoint_eq, TreasuryUtxo, PayoutRecipient}
use katpool.Mass.Planner.{remove_consumed, remove_paid}

module _ {ℓ} {A : Type ℓ} where
  take-Picked : (n : ℕ) (xs : List A) → Picked (take n xs) xs
  take-Picked zero xs = Picked-nil xs
  take-Picked (suc n) [] = none_left
  take-Picked (suc n) (x ∷ xs) = take_it (take-Picked n xs)

  -- Removing at least what was picked.
  retain-Picked :
      (f : A → ℕ) (p : A → Bool) {ps xs : List A}
      → Picked ps xs
      → All (λ x. p x ≡ false) ps
      → sum_by f (retain p xs) + sum_by f ps ≤ sum_by f xs
  retain-Picked f p none_left h = omega arith
  retain-Picked f p (take_it {x} k) h = rw (h.0) (omega (arith, retain-Picked f p k h.1))
  retain-Picked f p (pass_it {x} k) h = elim (Bool-cases (p x)) [
    | inl e ↦ rw (e) (omega (arith, retain-Picked f p k h))
    | inr e ↦ rw (e) (omega (arith, retain-Picked f p k h))
  ]

  retain-eq : (p q : A → Bool) (xs : List A) → All (λ x. p x ≡ q x) xs → retain p xs ≡ retain q xs
  retain-eq p q [] h = refl
  retain-eq p q (x ∷ xs) h = rw (h.0, retain-eq p q xs h.1) refl

  module _ (same : A → A → Bool) (same_refl : (x : A) → same x x ≡ true) where
    any-middle : (pre xs : List A) (x : A) → any (λ c. same c x) (pre ++ x ∷ xs) ≡ true
    any-middle [] xs x = rw (same_refl x) refl
    any-middle (y ∷ pre) xs x = ground (arith, any-middle pre xs x)

    -- Each element of a list is found in it.
    found : (pre xs : List A) → All (λ x. not (any (λ c. same c x) (pre ++ xs)) ≡ false) xs
    found pre [] = tt
    found pre (x ∷ xs) = (
      rw (any-middle pre xs x) refl,
      subst (λ ys. All (λ y. not (any (λ c. same c y) ys) ≡ false) xs)
          (append_assoc pre (x ∷ []) xs) (found (pre ++ x ∷ []) xs),
    )

outpoint_eq_refl : (u : TreasuryUtxo) → outpoint_eq u.outpoint u.outpoint ≡ true
outpoint_eq_refl u = rw (==_refl u.outpoint.transaction_id, ==_refl u.outpoint.index) refl

pub remove_consumed-sum :
    (f : TreasuryUtxo → ℕ) (n : ℕ) (utxos : List TreasuryUtxo)
    → sum_by f (remove_consumed utxos (take n utxos)) + sum_by f (take n utxos) ≤ sum_by f utxos
unfolding remove_consumed
remove_consumed-sum f n utxos =
    retain-Picked f _ (take-Picked n utxos)
      (found (λ c u. outpoint_eq c.outpoint u.outpoint) outpoint_eq_refl [] (take n utxos))

pub remove_paid-sum :
    (f : PayoutRecipient → ℕ) {paid recipients : List PayoutRecipient}
    → Picked paid recipients
    → sum_by f (remove_paid recipients paid) + sum_by f paid ≤ sum_by f recipients
unfolding remove_paid
remove_paid-sum f {paid} k =
    retain-Picked f _ k (found (λ p r. p.id == r.id) (λ r. ==_refl r.id) [] paid)

-- No two of the recipients share an id.
abbrev pub has_id : ℕ → PayoutRecipient → ℕ
has_id i r = if r.id == i then 1 else 0

abbrev pub DistinctIds : List PayoutRecipient → Type 0
DistinctIds recipients = (i : ℕ) → sum_by (has_id i) recipients ≤ 1

absent :
    (i : ℕ) (xs : List PayoutRecipient)
    → sum_by (has_id i) xs ≤ 0
    → All (λ y. (i == y.id) ≡ false) xs
absent i [] h = tt
absent i (x ∷ xs) h = (ground arith, absent i xs (ground arith))

others :
    (x : PayoutRecipient) (xs : List PayoutRecipient)
    → DistinctIds (x ∷ xs)
    → All (λ y. (x.id == y.id) ≡ false) xs
others x xs h = absent x.id xs (let k = h x.id in let e = ==_refl x.id in ground arith)

DistinctIds-tail :
    (x : PayoutRecipient) (xs : List PayoutRecipient) → DistinctIds (x ∷ xs) → DistinctIds xs
DistinctIds-tail x xs h i = omega (arith, h i)

abbrev still_owed : List PayoutRecipient → PayoutRecipient → Bool
still_owed paid r = not (any (λ p. p.id == r.id) paid)

not-paid :
    (x : PayoutRecipient) (ps : List PayoutRecipient)
    → All (λ y. (x.id == y.id) ≡ false) ps
    → still_owed ps x ≡ true
not-paid x [] h = refl
not-paid x (p ∷ ps) h = let k = not-paid x ps h.1 in let e = h.0 in ground arith

skip-paid :
    (x : PayoutRecipient) (ps xs : List PayoutRecipient)
    → All (λ y. (x.id == y.id) ≡ false) xs
    → All (λ y. still_owed (x ∷ ps) y ≡ still_owed ps y) xs
skip-paid x ps [] h = tt
skip-paid x ps (y ∷ ys) h = (rw (h.0) refl, skip-paid x ps ys h.1)

-- With distinct ids exactly the paid ones go.
pub remove_paid-exact :
    (f : PayoutRecipient → ℕ) {paid recipients : List PayoutRecipient}
    → Picked paid recipients
    → DistinctIds recipients
    → sum_by f (remove_paid recipients paid) + sum_by f paid ≡ sum_by f recipients
unfolding remove_paid
remove_paid-exact f none_left d = refl
remove_paid-exact f (take_it {x} {ps} {xs} k) d =
    let apart = others x xs d in
    rw (==_refl x.id, retain-eq (still_owed (x ∷ ps)) (still_owed ps) xs (skip-paid x ps xs apart))
      (omega (arith, remove_paid-exact f k (DistinctIds-tail x xs d)))
remove_paid-exact f (pass_it {x} {ps} {xs} k) d =
    rw (not-paid x ps (Picked-All (λ y. (x.id == y.id) ≡ false) k (others x xs d)))
      (omega (arith, remove_paid-exact f k (DistinctIds-tail x xs d)))
