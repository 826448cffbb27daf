-- ===== src/Base/Loop.antt =====
-- A loop as a partial step, `none` for its exit, run on fuel; and the two facts that serve every
-- loop: an invariant of the step holds at the end, and a measure that falls bounds the rounds.
use katpool.Base.{ℕ, zero, suc, ◌≤◌, ◌<◌, ◌≡◌, inl, inr, Option, none, some, arith, Option-cases}

unfoldable pub iterate {ℓ} : {S : Type ℓ} → ℕ → (S → Option S) → S → S
iterate zero step s = s
iterate (suc fuel) step s = elim (step s) [ none ↦ s | some t ↦ iterate fuel step t ]

module _ {ℓ κ} {S : Type ℓ} (step : S → Option S) (P : S → Type κ) where
  pub iterate_inv :
      ((s t : S) → P s → step s ≡ some t → P t) → (fuel : ℕ) (s : S) → P s → P (iterate fuel step s)
  unfolding iterate
  iterate_inv keep zero s h = h
  iterate_inv keep (suc fuel) s h = elim (Option-cases (step s)) [
    | inl e ↦ rw (e, iterate) h
    | inr (t, e) ↦ rw (e, iterate) (iterate_inv keep fuel t (keep s t h e))
  ]

  pub iterate_exits :
      (measure : S → ℕ)
      → ((s t : S) → P s → step s ≡ some t → P t × (measure t < measure s))
      → (fuel : ℕ) (s : S) → measure s ≤ fuel
      → P s
      → step (iterate fuel step s) ≡ none
  unfolding iterate
  iterate_exits measure keep zero s m h = elim (Option-cases (step s)) [
    | inl e ↦ e
    | inr (t, e) ↦ absurd (omega (arith, keep s t h e))
  ]
  iterate_exits measure keep (suc fuel) s m h = elim (Option-cases (step s)) [
    | inl e ↦ rw (e, iterate) e
    | inr (t, e) ↦
        let k = keep s t h e in
        rw (e, iterate) (iterate_exits measure keep fuel t (omega arith) k.0)
  ]
