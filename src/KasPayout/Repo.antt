-- ===== src/KasPayout/Repo.antt =====
-- The statements on the payout rows (crates/katpool-db/src/repo/payout.rs).
pub mod Lifecycle
use katpool.Base.{
  ℕ, ◌==◌, Bool, true, false, ◌&&◌, ◌||◌, if◌then◌else◌, ltb, leb, Option, none, some, List, [],
  ◌∷◌, ◌++◌, map, retain, any,
}
use katpool.Base.Bag.{sort_by}
use katpool.KasPayout.Rows.{
  PayoutCycleStatus, cycle_planned, broadcasting, partially_settled, settled, cycle_failed,
  PayoutStatus, planned, submitted, accepted, confirmed, failed, PayoutCycle, Payout, update_where,
}

-- The value that is there, or else the new one.
abbrev pub coalesce : Option ℕ → ℕ → Option ℕ
coalesce none b = some b
coalesce (some a) b = some a

-- status IN ('planned', 'broadcasting')
abbrev pub can_broadcast : PayoutCycleStatus → Bool
can_broadcast cycle_planned = true
can_broadcast broadcasting = true
can_broadcast _ = false

-- status IN ('broadcasting', 'partially_settled')
abbrev pub can_settle_partially : PayoutCycleStatus → Bool
can_settle_partially broadcasting = true
can_settle_partially partially_settled = true
can_settle_partially _ = false

-- status IN ('broadcasting', 'partially_settled', 'settled')
abbrev pub can_settle : PayoutCycleStatus → Bool
can_settle broadcasting = true
can_settle partially_settled = true
can_settle settled = true
can_settle _ = false

abbrev pub can_fail_cycle : PayoutCycleStatus → Bool
can_fail_cycle settled = false
can_fail_cycle _ = true

abbrev set_status : PayoutCycleStatus → PayoutCycle → PayoutCycle
set_status new c = record {
  cycle_id = c.cycle_id;
  kind = c.kind;
  cycle_status = new;
  daa_start = c.daa_start;
  daa_end = c.daa_end;
  total_sompi = c.total_sompi;
  total_recipients = c.total_recipients;
  idempotency_key = c.idempotency_key;
}

abbrev advance :
    ℕ → (PayoutCycleStatus → Bool) → PayoutCycleStatus → List PayoutCycle → List PayoutCycle
advance cycle_id from new =
    update_where (λ c. c.cycle_id == cycle_id && from c.cycle_status) (set_status new)

unfoldable pub mark_cycle_broadcasting : ℕ → List PayoutCycle → List PayoutCycle
mark_cycle_broadcasting cycle_id = advance cycle_id can_broadcast broadcasting

unfoldable pub mark_cycle_partially_settled : ℕ → List PayoutCycle → List PayoutCycle
mark_cycle_partially_settled cycle_id = advance cycle_id can_settle_partially partially_settled

unfoldable pub mark_cycle_settled : ℕ → List PayoutCycle → List PayoutCycle
mark_cycle_settled cycle_id = advance cycle_id can_settle settled

unfoldable pub mark_cycle_failed : ℕ → List PayoutCycle → List PayoutCycle
mark_cycle_failed cycle_id = advance cycle_id can_fail_cycle cycle_failed

unfoldable pub set_cycle_totals : ℕ → ℕ → ℕ → List PayoutCycle → List PayoutCycle
set_cycle_totals cycle_id total_sompi total_recipients =
    update_where (λ c. c.cycle_id == cycle_id)
      (λ c. record {
        cycle_id = c.cycle_id;
        kind = c.kind;
        cycle_status = c.cycle_status;
        daa_start = c.daa_start;
        daa_end = c.daa_end;
        total_sompi = total_sompi;
        total_recipients = total_recipients;
        idempotency_key = c.idempotency_key;
      })

-- status IN ('planned', 'submitted')
abbrev pub can_submit : PayoutStatus → Bool
can_submit planned = true
can_submit submitted = true
can_submit _ = false

-- status IN ('submitted', 'accepted')
abbrev pub can_accept : PayoutStatus → Bool
can_accept submitted = true
can_accept accepted = true
can_accept _ = false

-- status IN ('submitted', 'accepted', 'confirmed')
abbrev pub can_confirm : PayoutStatus → Bool
can_confirm submitted = true
can_confirm accepted = true
can_confirm confirmed = true
can_confirm _ = false

abbrev pub can_fail : PayoutStatus → Bool
can_fail confirmed = false
can_fail _ = true

-- The columns that a status change writes.
abbrev pub with_status : PayoutStatus → Option ℕ → Option ℕ → Option ℕ → Payout → Payout
with_status new tx_hash accepted_daa_score failure_reason p = record {
  id = p.id;
  of_cycle = p.of_cycle;
  wallet_id = p.wallet_id;
  amount_sompi = p.amount_sompi;
  status = new;
  tx_hash = tx_hash;
  krc20_commit_hash = p.krc20_commit_hash;
  krc20_reveal_hash = p.krc20_reveal_hash;
  accepted_daa_score = accepted_daa_score;
  failure_reason = failure_reason;
}

unfoldable pub mark_payout_submitted : ℕ → ℕ → List Payout → List Payout
mark_payout_submitted payout_id tx_hash =
    update_where (λ p. p.id == payout_id && can_submit p.status)
      (λ p. with_status submitted (some tx_hash) p.accepted_daa_score p.failure_reason p)

unfoldable pub mark_payout_accepted : ℕ → ℕ → List Payout → List Payout
mark_payout_accepted payout_id accepted_daa_score =
    update_where (λ p. p.id == payout_id && can_accept p.status)
      (λ p.
        with_status accepted p.tx_hash (coalesce p.accepted_daa_score accepted_daa_score)
          p.failure_reason p)

unfoldable pub mark_payout_confirmed : ℕ → List Payout → List Payout
mark_payout_confirmed payout_id =
    update_where (λ p. p.id == payout_id && can_confirm p.status)
      (λ p. with_status confirmed p.tx_hash p.accepted_daa_score p.failure_reason p)

unfoldable pub mark_payout_failed : ℕ → ℕ → List Payout → List Payout
mark_payout_failed payout_id reason =
    update_where (λ p. p.id == payout_id && can_fail p.status)
      (λ p. with_status failed p.tx_hash p.accepted_daa_score (some reason) p)

abbrev pub confirmable : ℕ → Payout → Bool
confirmable payout_id p = p.id == payout_id && can_fail p.status

-- `status <> 'confirmed'`, and whether a row has changed
unfoldable pub confirm_krc20_payout_once : ℕ → List Payout → List Payout × Bool
confirm_krc20_payout_once payout_id payouts = (
  update_where (confirmable payout_id)
      (λ p. with_status confirmed p.tx_hash p.accepted_daa_score p.failure_reason p) payouts,
  any (confirmable payout_id) payouts,
)

unfoldable pub record_krc20_commit_hash : ℕ → ℕ → List Payout → List Payout
record_krc20_commit_hash payout_id commit_hash =
    update_where (λ p. p.id == payout_id) (λ p. record p { krc20_commit_hash = some commit_hash })

unfoldable pub record_krc20_reveal_hash : ℕ → ℕ → List Payout → List Payout
record_krc20_reveal_hash payout_id reveal_hash =
    update_where (λ p. p.id == payout_id) (λ p. record p { krc20_reveal_hash = some reveal_hash })

-- ORDER BY amount_sompi DESC, id ASC
unfoldable pub list_for_cycle : ℕ → List Payout → List Payout
list_for_cycle cycle_id payouts =
    sort_by
      (λ a b.
        ltb b.amount_sompi a.amount_sompi || a.amount_sompi == b.amount_sompi && leb a.id b.id)
      (retain (λ p. p.of_cycle == cycle_id) payouts)

abbrev some_hash : Option ℕ → List ℕ
some_hash none = []
some_hash (some h) = h ∷ []

abbrev settled_for_good : PayoutStatus → Bool
settled_for_good confirmed = true
settled_for_good failed = true
settled_for_good _ = false

-- the transactions whose change coins must not be spent yet
unfoldable pub in_flight_spend_tx_hashes : List Payout → List ℕ
in_flight_spend_tx_hashes [] = []
in_flight_spend_tx_hashes (p ∷ ps) =
    let rest = in_flight_spend_tx_hashes ps in
    if settled_for_good p.status
    then rest
    else some_hash p.tx_hash
      ++ some_hash p.krc20_commit_hash
      ++ some_hash p.krc20_reveal_hash
      ++ rest
