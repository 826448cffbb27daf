-- ===== src/Krc20Payout/Credit.antt =====
-- The crediting of completed transfers (payout-krc20/src/cycle.rs), with its statements in
-- crates/katpool-db/src/repo/{payout, nacho_rebate}.rs. The transfers stand in the order of `created_at`;
-- of a transfer there is what the pass reads. A statement fails only for a missing row or a constraint.
pub mod Balance
pub mod Stuck
use katpool.Base.{
  ℕ, ◌+◌, min, ◌==◌, Bool, true, false, not, ◌&&◌, if◌then◌else◌, leb, Option, none, some, List, [],
  ◌∷◌, ◌++◌, any, find?, retain, take, Result, ok, err, ◌>>=◌, ◌>>◌, ok_or, guard,
}
use katpool.Base.Word.{i64_max}
use katpool.KasPayout.Rows.{
  PayoutStatus, planned, submitted, accepted, confirmed, failed, Payout, update_where,
}
use katpool.KasPayout.Repo.{confirmable, confirm_krc20_payout_once}
use katpool.Accountant.Ledger.{NachoRebate}

-- the failures of the database that the pass can meet
pub data CreditError : Type 0 where
  row_not_found paid_above_accrued : CreditError

pub data Krc20TransferStatus : Type 0 where
  pending commit_submitted reveal_submitted completed transfer_failed : Krc20TransferStatus

pub record Krc20PendingTransfer : Type 0 where
  pub payout_id : ℕ
  pub transfer_status : Krc20TransferStatus

abbrev pub is_completed : Krc20TransferStatus → Bool
is_completed completed = true
is_completed _ = false

-- `list_krc20_by_status` of the completed ones
unfoldable pub list_completed : ℕ → List Krc20PendingTransfer → List Krc20PendingTransfer
list_completed limit transfers = take limit (retain (λ t. is_completed t.transfer_status) transfers)

unfoldable pub get_payout : ℕ → List Payout → Result CreditError Payout
get_payout payout_id payouts = ok_or (find? (λ p. p.id == payout_id) payouts) row_not_found

-- An amount is positive; the sum has to stay within what has accrued.
unfoldable pub mark_paid : ℕ → ℕ → List NachoRebate → Result CreditError (List NachoRebate)
mark_paid wallet delta [] = err row_not_found
mark_paid wallet delta (r ∷ rs) = elim (r.rebate_wallet == wallet) [
  | true ↦ do
    guard (leb (r.paid_sompi + delta) r.accrued_sompi) paid_above_accrued
    ok (record r { paid_sompi = r.paid_sompi + delta } ∷ rs)
  | false ↦ mark_paid wallet delta rs >>= λ rest. ok (r ∷ rest)
]

pub record CreditReport : Type 0 where
  pub credited : ℕ
  pub already_credited : ℕ
  pub report_sompi : ℕ

-- the tables, with the payouts that the audit log names as credited
pub record Db : Type 0 where
  pub payouts : List Payout
  pub rebates : List NachoRebate
  pub audit : List ℕ

abbrev pub write_credit : ℕ → ℕ → ℕ → List Payout → Db → Bool → Result CreditError (Db × Option ℕ)
write_credit wallet amount payout_id payouts db false = ok (db, none)
write_credit wallet amount payout_id payouts db true = do
  rebates ← mark_paid wallet amount db.rebates
  ok (
    record { payouts = payouts; rebates = rebates; audit = db.audit ++ (payout_id ∷ []) },
    some amount,
  )

-- One transfer: its transaction commits, is rolled back because the payout was confirmed before, or
-- fails.
unfoldable pub credit_one : ℕ → Db → Result CreditError (Db × Option ℕ)
unfolding get_payout confirm_krc20_payout_once mark_paid
credit_one payout_id db = do
  row ← get_payout payout_id db.payouts
  let (payouts, changed) = confirm_krc20_payout_once payout_id db.payouts
  write_credit row.wallet_id row.amount_sompi payout_id payouts db changed

abbrev pub count_credit : Option ℕ → CreditReport → CreditReport
count_credit none report = record report { already_credited = report.already_credited + 1 }
count_credit (some amount) report = record report {
  credited = report.credited + 1;
  report_sompi = min i64_max (report.report_sompi + amount);
}

-- The loop: an error ends it, and what was committed stays.
unfoldable pub credit_all :
    List Krc20PendingTransfer → CreditReport → Db → Db × Result CreditError CreditReport
unfolding credit_one
credit_all [] report db = (db, ok report)
credit_all (t ∷ rest) report db = elim (credit_one t.payout_id db) [
  | err e ↦ (db, err e)
  | ok (after, outcome) ↦ credit_all rest (count_credit outcome report) after
]

unfoldable pub credit_completed_transfers :
    ℕ → List Krc20PendingTransfer → Db → Db × Result CreditError CreditReport
unfolding list_completed credit_all
credit_completed_transfers limit transfers db =
    credit_all (list_completed limit transfers)
      (record { credited = 0; already_credited = 0; report_sompi = 0 }) db
