-- ===== src/KasPayout/Cycle.antt =====
-- The restart-safe cycle (payout-kas/src/cycle.rs and plan.rs, and the queries of
-- crates/katpool-db/src/repo/payout.rs that they run). A function takes the database and returns it
-- changed; what a failed transaction wrote is rolled back, so that an error returns no database.
pub mod Status
pub mod Eligibility
pub mod Resume
use katpool.Base.{
  ℕ, suc, ◌+◌, ◌==◌, Bool, true, false, ◌&&◌, ◌||◌, if◌then◌else◌, ltb, leb, Option, none, some,
  List, [], ◌∷◌, ◌++◌, length, sum_by, map, retain, any, find?, Result, ok, err, ◌>>=◌, ◌>>◌, guard,
  ok_or, min,
}
use katpool.Base.Bag.{sort_by}
use katpool.Base.Int.{ℤ, pos, pos_part, sub_ℕ, ltb_ℤ, leb_ℤ, eqb_ℤ}
use katpool.Base.Word.{i64_max}
use katpool.KasPayout.Rows.{
  PayoutKind, kas, kind_eq, PayoutCycleStatus, cycle_planned, broadcasting, partially_settled,
  settled, cycle_failed, PayoutStatus, planned, submitted, accepted, confirmed, failed,
  IdempotencyKey, window_key, legacy_key, key_eq, PayoutCycle, Payout,
}
use katpool.KasPayout.Repo.{
  mark_cycle_broadcasting, mark_cycle_partially_settled, mark_cycle_settled, mark_cycle_failed,
  set_cycle_totals, list_for_cycle,
}

pub record PayoutStatusCounts : Type 0 where
  pub total : ℕ
  pub pending_rows : ℕ
  pub in_flight_rows : ℕ
  pub confirmed_rows : ℕ
  pub failed_rows : ℕ

abbrev pub is_planned : PayoutStatus → Bool
is_planned planned = true
is_planned _ = false

abbrev pub is_in_flight : PayoutStatus → Bool
is_in_flight submitted = true
is_in_flight accepted = true
is_in_flight _ = false

abbrev pub is_confirmed : PayoutStatus → Bool
is_confirmed confirmed = true
is_confirmed _ = false

abbrev pub is_failed : PayoutStatus → Bool
is_failed failed = true
is_failed _ = false

-- how often the `match` counts a row of the status
abbrev pub tally : (PayoutStatus → Bool) → List Payout → ℕ
tally test = sum_by (λ p. if test p.status then 1 else 0)

unfoldable pub from_payouts : List Payout → PayoutStatusCounts
from_payouts payouts = record {
  total = length payouts;
  pending_rows = tally is_planned payouts;
  in_flight_rows = tally is_in_flight payouts;
  confirmed_rows = tally is_confirmed payouts;
  failed_rows = tally is_failed payouts;
}

unfoldable pub derive_cycle_status : PayoutStatusCounts → PayoutCycleStatus
derive_cycle_status counts =
    if counts.total == 0
    then cycle_planned
    else if counts.confirmed_rows == counts.total
    then settled
    else if counts.confirmed_rows + counts.failed_rows == counts.total
    then (if ltb 0 counts.confirmed_rows then partially_settled else cycle_failed)
    else if ltb 0 counts.confirmed_rows
    then partially_settled
    else if ltb 0 counts.in_flight_rows || ltb 0 counts.failed_rows
    then broadcasting
    else cycle_planned

pub record CycleState : Type 0 where
  pub cycle : PayoutCycle
  pub payouts : List Payout

unfoldable pub pending : CycleState → List Payout
pending state = retain (λ p. is_planned p.status) state.payouts

-- one row of `share_allocation`, as far as it is summed
pub record ShareAllocation : Type 0 where
  pub allocated_to : ℕ
  pub net_payout_sompi : ℕ

pub data AuditEvent : Type 0 where
  cycle_resume : ℕ → AuditEvent
  cycle_plan : ℕ → AuditEvent
  cycle_reconcile : ℕ → AuditEvent

-- the tables, and the last values of the two id sequences
pub record Db : Type 0 where
  pub wallets : List ℕ
  pub allocations : List ShareAllocation
  pub cycles : List PayoutCycle
  pub rows : List Payout
  pub audit_log : List AuditEvent
  pub last_cycle_id : ℕ
  pub last_payout_id : ℕ

abbrev pub with_audit : AuditEvent → Db → Db
with_audit event db = record {
  wallets = db.wallets;
  allocations = db.allocations;
  cycles = db.cycles;
  rows = db.rows;
  audit_log = db.audit_log ++ event ∷ [];
  last_cycle_id = db.last_cycle_id;
  last_payout_id = db.last_payout_id;
}

abbrev pub with_cycles : List PayoutCycle → ℕ → Db → Db
with_cycles cycles last db = record {
  wallets = db.wallets;
  allocations = db.allocations;
  cycles = cycles;
  rows = db.rows;
  audit_log = db.audit_log;
  last_cycle_id = last;
  last_payout_id = db.last_payout_id;
}

abbrev pub with_rows : List Payout → ℕ → Db → Db
with_rows rows last db = record {
  wallets = db.wallets;
  allocations = db.allocations;
  cycles = db.cycles;
  rows = rows;
  audit_log = db.audit_log;
  last_cycle_id = db.last_cycle_id;
  last_payout_id = last;
}

pub data DbError : Type 0 where
  check_violation : DbError
  row_not_found : DbError
  unavailable : DbError

unfoldable pub find_cycle_by_idempotency_key : IdempotencyKey → Db → Option PayoutCycle
find_cycle_by_idempotency_key key db = find? (λ c. key_eq c.idempotency_key key) db.cycles

unfoldable pub get_cycle : ℕ → Db → Result DbError PayoutCycle
get_cycle cycle_id db = ok_or (find? (λ c. c.cycle_id == cycle_id) db.cycles) row_not_found

abbrev pub new_cycle : ℕ → PayoutKind → ℕ → ℕ → PayoutCycle
new_cycle cycle_id kind daa_start daa_end = record {
  cycle_id = cycle_id;
  kind = kind;
  cycle_status = cycle_planned;
  daa_start = daa_start;
  daa_end = daa_end;
  total_sompi = 0;
  total_recipients = 0;
  idempotency_key = window_key kind daa_start daa_end;
}

-- INSERT … ON CONFLICT (idempotency_key) … RETURNING, under CHECK (daa_end > daa_start)
unfoldable pub create_cycle : PayoutKind → ℕ → ℕ → Db → Result DbError (Db × PayoutCycle)
unfolding find_cycle_by_idempotency_key
create_cycle kind daa_start daa_end db =
    let fresh = new_cycle (suc db.last_cycle_id) kind daa_start daa_end in
    if ltb daa_start daa_end
    then elim (find_cycle_by_idempotency_key (window_key kind daa_start daa_end) db) [
      | some cycle ↦ ok (db, cycle)
      | none ↦ ok (with_cycles (db.cycles ++ fresh ∷ []) (suc db.last_cycle_id) db, fresh)
    ]
    else err check_violation

abbrev pub is_legacy : IdempotencyKey → Bool
is_legacy (window_key kind a b) = false
is_legacy (legacy_key kind h) = true

-- a confirmed payout of a `kas` cycle that is no import
abbrev pub counts_as_paid : Db → Payout → Bool
counts_as_paid db p =
    is_confirmed p.status
    && any
        (λ c.
          c.cycle_id == p.of_cycle
          && kind_eq c.kind kas
          && (if is_legacy c.idempotency_key then false else true))
        db.cycles

pub record KasEligibleWallet : Type 0 where
  pub eligible_id : ℕ
  pub allocated_sompi : ℕ
  pub confirmed_paid_sompi : ℕ
  pub payable_sompi : ℤ

abbrev pub allocated_of : Db → ℕ → ℕ
allocated_of db wallet =
    sum_by (λ a. if a.allocated_to == wallet then a.net_payout_sompi else 0) db.allocations

abbrev pub paid_of : Db → ℕ → ℕ
paid_of db wallet =
    sum_by (λ p. if p.wallet_id == wallet && counts_as_paid db p then p.amount_sompi else 0) db.rows

abbrev pub eligible_row : ℕ → ℕ → ℕ → KasEligibleWallet
eligible_row wallet allocated paid = record {
  eligible_id = wallet;
  allocated_sompi = allocated;
  confirmed_paid_sompi = paid;
  payable_sompi = sub_ℕ allocated paid;
}

-- WHERE payable >= $1 ORDER BY payable_sompi DESC, w.id ASC
unfoldable pub rank_eligible : ℤ → List KasEligibleWallet → List KasEligibleWallet
rank_eligible threshold_sompi candidates =
    sort_by
      (λ a b.
        ltb_ℤ b.payable_sompi a.payable_sompi
        || eqb_ℤ a.payable_sompi b.payable_sompi && leb a.eligible_id b.eligible_id)
      (retain (λ r. leb_ℤ threshold_sompi r.payable_sompi) candidates)

unfoldable pub list_kas_eligible_wallets : ℤ → Db → List KasEligibleWallet
unfolding rank_eligible
list_kas_eligible_wallets threshold_sompi db = rank_eligible threshold_sompi (
    map (λ w. eligible_row w (allocated_of db w) (paid_of db w))
      (retain (λ w. any (λ a. a.allocated_to == w) db.allocations) db.wallets))

abbrev pub new_payout : ℕ → ℕ → ℕ → ℕ → Payout
new_payout id cycle_id wallet_id amount_sompi = record {
  id = id;
  of_cycle = cycle_id;
  wallet_id = wallet_id;
  amount_sompi = amount_sompi;
  status = planned;
  tx_hash = none;
  krc20_commit_hash = none;
  krc20_reveal_hash = none;
  accepted_daa_score = none;
  failure_reason = none;
}

-- INSERT … ON CONFLICT (cycle_id, wallet_id) keeps the amount, under CHECK (amount_sompi > 0)
unfoldable pub ensure_payout : ℕ → ℕ → ℤ → Db → Result DbError Db
ensure_payout cycle_id wallet_id amount_sompi db =
    let fresh = new_payout (suc db.last_payout_id) cycle_id wallet_id (pos_part amount_sompi) in
    if ltb_ℤ (pos 0) amount_sompi
    then (if any (λ p. p.of_cycle == cycle_id && p.wallet_id == wallet_id) db.rows
        then ok db
        else ok (with_rows (db.rows ++ fresh ∷ []) (suc db.last_payout_id) db))
    else err check_violation

-- The `for` loop over the eligible wallets, with its two saturating sums. A wallet that reaches a
-- sum has a positive amount.
unfoldable pub plan_rows : ℕ → List KasEligibleWallet → ℕ → ℕ → Db → Result DbError (Db × ℕ × ℕ)
unfolding ensure_payout
plan_rows cycle_id [] total_sompi total_recipients db = ok (db, total_sompi, total_recipients)
plan_rows cycle_id (w ∷ ws) total_sompi total_recipients db = do
  db' ← ensure_payout cycle_id w.eligible_id w.payable_sompi db
  plan_rows cycle_id ws (min (total_sompi + pos_part w.payable_sompi) i64_max)
      (min (total_recipients + 1) 2_147_483_647) db'

pub record PlanKasCycleParams : Type 0 where
  pub window_start : ℕ
  pub window_end : ℕ
  pub threshold_sompi : ℤ

-- the totals, the commit, and the rows and the cycle read back
unfoldable pub finish_plan : ℕ → Db × ℕ × ℕ → Result DbError (Db × CycleState)
unfolding set_cycle_totals list_for_cycle get_cycle
finish_plan cycle_id (db, total_sompi, total_recipients) =
    let db' =
      with_cycles (set_cycle_totals cycle_id total_sompi total_recipients db.cycles)
        db.last_cycle_id db in
    get_cycle cycle_id db' >>= λ cycle.
    ok (db', record { cycle = cycle; payouts = list_for_cycle cycle_id db'.rows })

unfoldable pub plan_kas_cycle : PlanKasCycleParams → Db → Result DbError (Db × CycleState)
unfolding create_cycle list_kas_eligible_wallets plan_rows finish_plan
plan_kas_cycle params db = do
  created ← create_cycle kas params.window_start params.window_end db
  planned_rows ←
      plan_rows created.1.cycle_id (list_kas_eligible_wallets params.threshold_sompi created.0) 0 0
        created.0
  finish_plan created.1.cycle_id planned_rows

-- the two entry paths, by what the look-up of the key has found
unfoldable pub resume_found :
    PlanKasCycleParams → Db → Option PayoutCycle → Result DbError (Db × CycleState)
unfolding list_for_cycle plan_kas_cycle
resume_found params db (some cycle) = ok (
  with_audit (cycle_resume cycle.cycle_id) db,
  record { cycle = cycle; payouts = list_for_cycle cycle.cycle_id db.rows },
)
resume_found params db none = do
  planned_cycle ← plan_kas_cycle params db
  ok (with_audit (cycle_plan planned_cycle.1.cycle.cycle_id) planned_cycle.0, planned_cycle.1)

unfoldable pub resume_or_plan_kas_cycle : PlanKasCycleParams → Db → Result DbError (Db × CycleState)
unfolding find_cycle_by_idempotency_key resume_found
resume_or_plan_kas_cycle params db =
    resume_found params db
      (find_cycle_by_idempotency_key (window_key kas params.window_start params.window_end) db)

-- the marks that reconciling applies for a derived status
abbrev pub persist_status : PayoutCycleStatus → ℕ → List PayoutCycle → List PayoutCycle
persist_status cycle_planned id cycles = cycles
persist_status broadcasting id cycles = mark_cycle_broadcasting id cycles
persist_status partially_settled id cycles =
    mark_cycle_partially_settled id (mark_cycle_broadcasting id cycles)
persist_status settled id cycles = mark_cycle_settled id (mark_cycle_broadcasting id cycles)
persist_status cycle_failed id cycles = mark_cycle_failed id cycles

unfoldable pub reconcile_cycle_status : ℕ → Db → Db × PayoutCycleStatus
unfolding list_for_cycle from_payouts derive_cycle_status
reconcile_cycle_status cycle_id db =
    let derived = derive_cycle_status (from_payouts (list_for_cycle cycle_id db.rows)) in
    (
      with_audit (cycle_reconcile cycle_id)
          (with_cycles (persist_status derived cycle_id db.cycles) db.last_cycle_id db),
      derived,
    )
