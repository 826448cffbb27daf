-- ===== src/Tests/Credits.antt =====
-- Completed transfers credited, and the theorems at them.
use katpool.Base.{ℕ, ◌+◌, ◌≡◌, refl, none, List, [], ◌∷◌, ◌++◌, inr, arith}
use katpool.KasPayout.Rows.{PayoutStatus, planned, confirmed, Payout}
use katpool.Krc20Payout.Credit.{Krc20PendingTransfer, completed, Db, credit_completed_transfers}
use katpool.Krc20Payout.Credit.Balance.{
  paid_of, confirmed_of, HasKey, credit_completed_transfers-MovesTogether,
}
use katpool.Krc20Payout.Credit.Stuck.{IsCredited, credit_completed_transfers-stuck}

abbrev payout_of : ℕ → ℕ → PayoutStatus → Payout
payout_of id amount status = record {
  id = id;
  of_cycle = 1;
  wallet_id = 8;
  amount_sompi = amount;
  status = status;
  tx_hash = none;
  krc20_commit_hash = none;
  krc20_reveal_hash = none;
  accepted_daa_score = none;
  failure_reason = none;
}

abbrev db : Db
db = record {
  payouts = payout_of 1 500 confirmed ∷ payout_of 2 300 planned ∷ [];
  rebates = record { rebate_wallet = 8; accrued_sompi = 1_000; paid_sompi = 500 } ∷ [];
  audit = [];
}

abbrev transfer : ℕ → Krc20PendingTransfer
transfer payout_id = record { payout_id = payout_id; transfer_status = completed }

abbrev transfers : List Krc20PendingTransfer
transfers = transfer 1 ∷ transfer 2 ∷ []

db-HasKey : HasKey db.payouts
db-HasKey id = ground arith

credit_completed_transfers-MovesTogether_example :
    paid_of 8 (credit_completed_transfers 10 transfers db).0.rebates + 500
    ≡ 500 + confirmed_of 8 (credit_completed_transfers 10 transfers db).0.payouts
credit_completed_transfers-MovesTogether_example =
    credit_completed_transfers-MovesTogether 10 transfers db 8 db-HasKey

IsCredited-first : IsCredited db.payouts (transfer 1)
IsCredited-first = (payout_of 1 500 confirmed, refl, refl)

-- with a limit of one transfer the second is not reached
credit_completed_transfers-stuck_example :
    (credit_completed_transfers 1 ((transfer 1 ∷ []) ++ transfer 2 ∷ []) db).0 ≡ db
credit_completed_transfers-stuck_example =
    credit_completed_transfers-stuck 1 (transfer 1 ∷ []) (transfer 2 ∷ []) db
      (inr IsCredited-first, tt) (omega arith)
