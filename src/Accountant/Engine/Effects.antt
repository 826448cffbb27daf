-- ===== src/Accountant/Engine/Effects.antt =====
-- What the statements of an allocation do to the rewards, the rows and the accruals
-- (crates/katpool-db/src/repo/coinbase_reward.rs, share_allocation.rs and nacho_rebate.rs).
use katpool.Base.{
  ℕ, ◌+◌, ◌≡◌, refl, ap, sym, ◌∙◌, inl, inr, Bool, true, false, not, any, ◌&&◌, ◌==◌, ◌⊎◌,
  if◌then◌else◌, Option, none, some, List, [], ◌∷◌, ◌++◌, retain, sum_by, All, ok, >>=-eq-ok,
  ok_inj, guard, leb, Bool-cases, arith,
}
use mathlib.Core.List.{append-nil, append_assoc}
use katpool.Base.Float.{Float}
use katpool.Base.Int.{ℤ, pos, negsuc, pos_part, ltb_ℤ}
use katpool.Base.Word.{i64_max}
use katpool.Accountant.Fee.{is_balanced, Allocation}
use katpool.Accountant.Allocation.{config, constraint, ShareWindow}
use katpool.Accountant.Ledger.{
  CoinbaseReward, lock_for_allocation, mark_allocated, NachoRebate, add_accrual, accrue,
  ShareAllocation, insert_rows, insert_batch, row_fits, row_taken,
}
use katpool.Accountant.Engine

abbrev pub allocated_of : Option CoinbaseReward → Bool
allocated_of none = false
allocated_of (some r) = r.allocated

-- whether the reward is there and allocated
unfoldable pub is_allocated : ℕ → List CoinbaseReward → Bool
is_allocated id rewards = allocated_of (lock_for_allocation id rewards)

abbrev pub accrued : ℕ → List NachoRebate → ℕ
accrued wallet = sum_by (λ r. if r.rebate_wallet == wallet then r.accrued_sompi else 0)

add_accrual-accrued :
    (w wallet delta : ℕ) (rs : List NachoRebate) {out : List NachoRebate}
    → add_accrual wallet delta rs ≡ ok out
    → accrued w out ≡ accrued w rs + (if wallet == w then delta else 0)
add_accrual-accrued w wallet delta [] h = ground (arith, ap (accrued w) (ok_inj h))
add_accrual-accrued w wallet delta (r ∷ rs) {out} h =
    elim (Bool-cases (r.rebate_wallet == wallet)) [
      | inl e ↦
          let (_, _, k) =
            >>=-eq-ok (guard (leb (r.accrued_sompi + delta) i64_max) constraint) _
              (rw (e, add_accrual) at h) in
          ground (arith, ap (accrued w) (ok_inj k))
      | inr e ↦
          let (rest, k, k') =
            >>=-eq-ok (add_accrual wallet delta rs) _ (rw (e, add_accrual) at h) in
          ground (arith, ap (accrued w) (ok_inj k'), add_accrual-accrued w wallet delta rs k)
    ]

accrue_sum :
    (w wallet : ℕ) (delta : ℤ) (rs : List NachoRebate) {out : List NachoRebate}
    → accrue wallet delta rs ≡ ok out
    → accrued w out ≡ accrued w rs + (if wallet == w then pos_part delta else 0)
unfolding accrue
accrue_sum w wallet (negsuc n) rs h = cc
accrue_sum w wallet (pos d) rs h = add_accrual-accrued w wallet d rs h

pub accrue-accrued :
    (w wallet : ℕ) (delta : ℤ) (rs : List NachoRebate) {out : List NachoRebate}
    → (if ltb_ℤ (pos 0) delta then accrue wallet delta rs else ok rs) ≡ ok out
    → accrued w out ≡ accrued w rs + (if wallet == w then pos_part delta else 0)
accrue-accrued w wallet delta rs h = elim (Bool-cases (ltb_ℤ (pos 0) delta)) [
  | inl e ↦ accrue_sum w wallet delta rs (rw e at h)
  | inr e ↦ ground (arith, ap (accrued w) (ok_inj (rw e at h)))
]

pub is_allocated-mark_other :
    (id other : ℕ) (rs : List CoinbaseReward)
    → (id == other) ≡ false
    → is_allocated other (mark_allocated id rs) ≡ is_allocated other rs
unfolding is_allocated mark_allocated lock_for_allocation
is_allocated-mark_other id other [] e = refl
is_allocated-mark_other id other (r ∷ rs) e = ground (arith, is_allocated-mark_other id other rs)

pub is_allocated-mark :
    (id : ℕ) (rs : List CoinbaseReward)
    → (lock_for_allocation id rs ≡ none) ⊎ (is_allocated id (mark_allocated id rs) ≡ true)
unfolding is_allocated mark_allocated lock_for_allocation
is_allocated-mark id [] = inl refl
is_allocated-mark id (r ∷ rs) = ground (arith, is_allocated-mark id rs)

module _ (fl : Float) where
  open fl use {F, zero_f, le_f, is_finite}

  -- what the rows accrue for the wallet
  abbrev pub accrual_of : ℕ → List (ShareAllocation fl) → ℕ
  accrual_of wallet =
      sum_by (λ r. if r.row_wallet == wallet then pos_part r.split.nacho_accrual_sompi else 0)

  unfoldable pub rows_of : ℕ → List (ShareAllocation fl) → List (ShareAllocation fl)
  rows_of id = retain (λ r. r.coinbase_reward_id == id)

  insert_rows-eq :
      (new rows : List (ShareAllocation fl)) {out : List (ShareAllocation fl)}
      → insert_rows fl new rows ≡ ok out
      → out ≡ rows ++ new
  unfolding insert_rows
  insert_rows-eq [] rows h = sym (ok_inj h) ∙ sym (append-nil rows)
  insert_rows-eq (r ∷ new) rows h =
      let (_, _, k) =
        >>=-eq-ok (guard (row_fits fl r && not (row_taken fl r rows)) constraint) _ h in
      insert_rows-eq new (rows ++ r ∷ []) k ∙ append_assoc rows (r ∷ []) new

  pub insert_batch-eq :
      (new rows : List (ShareAllocation fl)) {out : List (ShareAllocation fl)}
      → insert_batch fl new rows ≡ ok out
      → out ≡ rows ++ new
  unfolding insert_batch
  insert_batch-eq [] rows h = sym (ok_inj h) ∙ sym (append-nil rows)
  insert_batch-eq (r ∷ new) rows h =
      let (_, _, k) =
        >>=-eq-ok (guard (not (any (λ q. not (is_balanced q.split)) (r ∷ new))) config) _ h in
      insert_rows-eq (r ∷ new) rows k

  pub accrue_all-accrued :
      (w id : ℕ) (total : F) (ws : List (ShareWindow fl)) (allocations : List Allocation)
      (rs : List NachoRebate) {out : List NachoRebate}
      → Engine.accrue_all fl ws allocations rs ≡ ok out
      → accrued w out ≡ accrued w rs + accrual_of w (Engine.new_rows fl id total ws allocations)
  unfolding Engine.accrue_all Engine.new_rows Engine.stored_split
  accrue_all-accrued w id total [] allocations rs h = ground (arith, ap (accrued w) (ok_inj h))
  accrue_all-accrued w id total (x ∷ ws) [] rs h = ground (arith, ap (accrued w) (ok_inj h))
  accrue_all-accrued w id total (x ∷ ws) (a ∷ rest) rs h =
      let (next, e, k) =
        >>=-eq-ok
          (if ltb_ℤ (pos 0) a.nacho_accrual_sompi
            then accrue x.window_wallet a.nacho_accrual_sompi rs
            else ok rs)
          _ h in
      omega (
        arith,
        accrue-accrued w x.window_wallet a.nacho_accrual_sompi rs e,
        accrue_all-accrued w id total ws rest next k,
      )

  pub new_rows-reward :
      (id : ℕ) (total : F) (ws : List (ShareWindow fl)) (allocations : List Allocation)
      → All (λ r. r.coinbase_reward_id ≡ id) (Engine.new_rows fl id total ws allocations)
  unfolding Engine.new_rows
  new_rows-reward id total [] allocations = tt
  new_rows-reward id total (w ∷ ws) [] = tt
  new_rows-reward id total (w ∷ ws) (a ∷ rest) = (refl, new_rows-reward id total ws rest)

  pub rows_of-append :
      (id : ℕ) (xs ys : List (ShareAllocation fl))
      → rows_of id (xs ++ ys) ≡ rows_of id xs ++ rows_of id ys
  unfolding rows_of
  rows_of-append id [] ys = refl
  rows_of-append id (x ∷ xs) ys = ground (arith, rows_of-append id xs ys)

  pub rows_of-other :
      (id other : ℕ) (rows : List (ShareAllocation fl))
      → (id == other) ≡ false
      → All (λ r. r.coinbase_reward_id ≡ id) rows
      → rows_of other rows ≡ []
  unfolding rows_of
  rows_of-other id other [] e h = refl
  rows_of-other id other (r ∷ rows) e h = ground (arith, rows_of-other id other rows e h.1)
