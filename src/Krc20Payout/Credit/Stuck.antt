-- ===== src/Krc20Payout/Credit/Stuck.antt =====
-- A pass that does not reach the transfers behind those that it has credited (payout-krc20/src/cycle.rs).
use katpool.Base.{
  Bool, ℕ, ◌≡◌, refl, ◌==◌, false, none, some, List, [], ◌∷◌, ◌++◌, any, find?, All, ok, ◌≤◌, ◌⊎◌,
  inl, inr, zero, suc, true, Bool-cases, if◌then◌else◌, sum_by, arith,
}
use katpool.KasPayout.Rows.{Payout}
use katpool.KasPayout.Repo.{confirmable, confirm_krc20_payout_once}
use katpool.Krc20Payout.Credit.{
  Krc20PendingTransfer, is_completed, list_completed, get_payout, CreditReport, Db, credit_one,
  count_credit, credit_all, credit_completed_transfers,
}

-- the payout of a transfer is there and confirmed, and no other row has its id
abbrev pub IsCredited : List Payout → Krc20PendingTransfer → Type 0
IsCredited payouts t =
    (p : Payout) × (find? (λ row. row.id == t.payout_id) payouts ≡ some p)
    × (any (confirmable t.payout_id) payouts ≡ false)

credit_one-IsCredited :
    (t : Krc20PendingTransfer) (db : Db)
    → IsCredited db.payouts t
    → credit_one t.payout_id db ≡ ok (db, none)
unfolding credit_one get_payout confirm_krc20_payout_once
credit_one-IsCredited t db (p, there, settled) = rw (there, settled) refl

credit_all-stuck :
    (ts : List Krc20PendingTransfer) (report : CreditReport) (db : Db)
    → All (IsCredited db.payouts) ts
    → (credit_all ts report db).0 ≡ db
unfolding credit_all
credit_all-stuck [] report db all = refl
credit_all-stuck (t ∷ rest) report db (first, all) =
    rw (credit_one-IsCredited t db first, credit_all)
      (credit_all-stuck rest (count_credit none report) db all)

abbrev completed_in : List Krc20PendingTransfer → ℕ
completed_in = sum_by (λ t. if is_completed t.transfer_status then 1 else 0)

-- The limit is used up before the later transfers.
list_completed-All :
    (limit : ℕ) (payouts : List Payout) (earlier later : List Krc20PendingTransfer)
    → All (λ t. (is_completed t.transfer_status ≡ false) ⊎ IsCredited payouts t) earlier
    → limit ≤ completed_in earlier
    → All (IsCredited payouts) (list_completed limit (earlier ++ later))
unfolding list_completed
list_completed-All zero payouts earlier later all enough = tt
list_completed-All (suc n) payouts [] later all enough = absurd (omega (arith, enough))
list_completed-All (suc n) payouts (t ∷ rest) later all enough =
    elim (Bool-cases (is_completed t.transfer_status)) [
      | inl e ↦ rw (e) (
        credited_of e all.0,
        list_completed-All n payouts rest later all.1 (ground (arith, e, enough)),
      )
      | inr e ↦
          rw (e) (list_completed-All (suc n) payouts rest later all.1 (ground (arith, e, enough)))
    ]
  where
    credited_of : {b : Bool} {A : Type 0} → b ≡ true → (b ≡ false) ⊎ A → A
    credited_of e (inl f) = absurd (ground (arith, e, f))
    credited_of e (inr a) = a

-- The limit of a pass starves what was created later. When, among the transfers that were created first,
-- those that have completed are all credited and at least as many as the limit, a pass changes nothing,
-- whatever has completed among the transfers created after them: no payout is confirmed and no rebate
-- paid.
pub credit_completed_transfers-stuck :
    (limit : ℕ) (earlier later : List Krc20PendingTransfer) (db : Db)
    → All (λ t. (is_completed t.transfer_status ≡ false) ⊎ IsCredited db.payouts t) earlier
    → limit ≤ sum_by (λ t. if is_completed t.transfer_status then 1 else 0) earlier
    → (credit_completed_transfers limit (earlier ++ later) db).0 ≡ db
unfolding credit_completed_transfers
credit_completed_transfers-stuck limit earlier later db all enough =
    credit_all-stuck (list_completed limit (earlier ++ later))
      (record { credited = 0; already_credited = 0; report_sompi = 0 }) db
      (list_completed-All limit db.payouts earlier later all enough)
