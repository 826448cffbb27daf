-- ===== src/Tests/Cycles.antt =====
-- A cycle of one wallet: planned, resumed, broadcast.
use katpool.Base.{
  map, All, ℕ, ◌+◌, ◌≤◌, ◌<◌, ◌≡◌, ◌⊎◌, ◌↔◌, refl, true, false, List, [], ◌∷◌, length, take, Option,
  none, some, Result, ok, min, arith,
}
use katpool.Base.Int.{pos, ◌+ℤ◌}
use katpool.Base.Word.{u64_max, clamp_i64}
use katpool.Base.Bag.{sort_by}
use katpool.Mass.Types.{PlannedBatch, PayoutRecipient, fits_independently, effective}
use katpool.Mass.Fee.{reserves_fee, from_feerate, fee_for}
use katpool.Mass.Evaluator.{build_populated, evaluate_shape}
use katpool.KasPayout.Rows.{
  kas, cycle_planned, planned, submitted, window_key, PayoutCycle, Payout, PayoutStatus,
}
use katpool.KasPayout.Repo.Lifecycle.{
  Update, to_submitted, to_accepted, to_confirmed, to_failed, to_credited, to_committed,
  to_revealed, apply_updates, AllLater, apply_updates-AllLater,
}
use katpool.KasPayout.Cycle.{
  cycle_plan, Db, with_rows, CycleState, PlanKasCycleParams, from_payouts, derive_cycle_status,
  list_kas_eligible_wallets, resume_or_plan_kas_cycle,
}
use katpool.KasPayout.Cycle.Status.{expected_status, derive_cycle_status-expected}
use katpool.KasPayout.Cycle.Eligibility.{list_kas_eligible_wallets-ignores-unconfirmed}
use katpool.KasPayout.Cycle.Resume.{Resumes, resume_or_plan_kas_cycle-Resumes}
use katpool.KasPayout.Confirm.{
  ConfirmationInputs, confirmed_by_depth, accepted_on_chain, classify_confirmation,
  classify_confirmation-recorded, cycle_window, cycle_window-stable,
}
use katpool.KasPayout.Execute.{
  ExecuteError, live, SignedBatch, Wire, run_effects, Node, broadcast_cycle,
}
use katpool.KasPayout.Execute.Intent.{Covered, paid_ids, broadcast_cycle-Covered}
use katpool.KasPayout.ConfirmCycle.{in_flight_of, confirm_cycle}
use katpool.KasPayout.ConfirmCycle.Evidence.{Justified, confirm_cycle-Justified}
use katpool.KasPayout.Engine.{PayoutEngineConfig, Stops, TickNode, run_locked}
use katpool.KasPayout.Engine.Tick.{WellSent}
use katpool.KasPayout.Engine.Locked.{Adds, run_locked-Accounted}
use katpool.Tests.FixedPoint.{fixed_point}
use katpool.Tests.Payouts.{toy_consensus, two_coins}

abbrev row : ℕ → PayoutStatus → Option ℕ → Payout
row id status tx_hash = record {
  id = id;
  of_cycle = 1;
  wallet_id = 30 + id;
  amount_sompi = 2_000_000_000;
  status = status;
  tx_hash = tx_hash;
  krc20_commit_hash = none;
  krc20_reveal_hash = none;
  accepted_daa_score = none;
  failure_reason = none;
}

abbrev one_wallet : Db
one_wallet = record {
  wallets = 31 ∷ [];
  allocations = record { allocated_to = 31; net_payout_sompi = 2_000_000_000 } ∷ [];
  cycles = [];
  rows = [];
  audit_log = [];
  last_cycle_id = 0;
  last_payout_id = 0;
}

abbrev daily : PlanKasCycleParams
daily = record { window_start = 0; window_end = 86_400; threshold_sompi = pos 1_000_000_000 }

abbrev planned_cycle : PayoutCycle
planned_cycle = record {
  cycle_id = 1;
  kind = kas;
  cycle_status = cycle_planned;
  daa_start = 0;
  daa_end = 86_400;
  total_sompi = 2_000_000_000;
  total_recipients = 1;
  idempotency_key = window_key kas 0 86_400;
}

abbrev one_planned : CycleState
one_planned = record { cycle = planned_cycle; payouts = row 1 planned none ∷ [] }

abbrev after_planning : Db
after_planning = record {
  wallets = 31 ∷ [];
  allocations = record { allocated_to = 31; net_payout_sompi = 2_000_000_000 } ∷ [];
  cycles = planned_cycle ∷ [];
  rows = row 1 planned none ∷ [];
  audit_log = cycle_plan 1 ∷ [];
  last_cycle_id = 1;
  last_payout_id = 1;
}

first_run : resume_or_plan_kas_cycle daily one_wallet ≡ ok (after_planning, one_planned)
unfolding resume_or_plan_kas_cycle sort_by
first_run = refl

resume_or_plan_kas_cycle-Resumes_example : Resumes daily after_planning one_planned
resume_or_plan_kas_cycle-Resumes_example =
    resume_or_plan_kas_cycle-Resumes daily one_wallet tt first_run

list_kas_eligible_wallets-ignores-unconfirmed_example :
    list_kas_eligible_wallets
      (pos 1_000_000_000)
      (with_rows (row 1 submitted (some 900) ∷ []) 1 one_wallet)
    ≡ list_kas_eligible_wallets (pos 1_000_000_000) one_wallet
list_kas_eligible_wallets-ignores-unconfirmed_example =
    list_kas_eligible_wallets-ignores-unconfirmed (pos 1_000_000_000) one_wallet
      (row 1 submitted (some 900) ∷ []) 1 refl

-- The wallet whose payout is on the wire is selected again with the whole amount.
selected_again :
    length (
      list_kas_eligible_wallets
        (pos 1_000_000_000)
        (with_rows (row 1 submitted (some 900) ∷ []) 1 one_wallet))
    ≡ 1
unfolding list_kas_eligible_wallets sort_by
selected_again = refl

abbrev two_rows : List Payout
two_rows = row 1 planned none ∷ row 2 planned none ∷ []

abbrev some_updates : List Update
some_updates =
    to_submitted 1 900
    ∷ to_accepted 1 120
    ∷ to_accepted 1 125
    ∷ to_confirmed 1
    ∷ to_failed 1 4
    ∷ to_committed 2 77
    ∷ to_failed 2 4
    ∷ to_credited 2
    ∷ to_revealed 2 78
    ∷ []

apply_updates-AllLater_example : AllLater two_rows (apply_updates some_updates two_rows)
apply_updates-AllLater_example = apply_updates-AllLater some_updates two_rows

derive_cycle_status-expected_example :
    derive_cycle_status (from_payouts two_rows) ≡ expected_status two_rows
derive_cycle_status-expected_example = derive_cycle_status-expected two_rows

abbrev seen_at : ℕ → ConfirmationInputs
seen_at daa = record {
  virtual_daa_score = daa;
  in_mempool = false;
  change_block_daa_score = none;
  recorded_accept_daa = some 1_000;
}

classify_confirmation-recorded_example :
    ((min (1_000 + 100) u64_max ≤ 1_100)
      × (classify_confirmation (seen_at 1_100) ≡ confirmed_by_depth)
      × (classify_confirmation (seen_at 1_200) ≡ confirmed_by_depth))
    ⊎ ((1_100 < min (1_000 + 100) u64_max)
        × (classify_confirmation (seen_at 1_100) ≡ accepted_on_chain))
classify_confirmation-recorded_example =
    classify_confirmation-recorded (seen_at 1_100) (seen_at 1_200) refl refl (omega arith)

cycle_window-stable_example :
    let (start, end) = cycle_window 5_000 1_000 in
    (start ≤ 5_000)
    × (5_000 < end)
    × ((start ≤ 5_999) × (5_999 < end) ↔ (cycle_window 5_999 1_000 ≡ (start, end)))
cycle_window-stable_example = cycle_window-stable 5_000 5_999 1_000 (omega arith) (omega arith)

abbrev toy_sign : PlannedBatch → Result ExecuteError SignedBatch
toy_sign b =
    let built = build_populated b.inputs b.payouts 7 b.change_amount_sompi in
    ok (record {
      signed_txid = 900 + length b.payouts;
      signed_tx = built.0;
      signed_entries = built.1;
    })

abbrev toy_node : Node fixed_point
toy_node = record {
  virtual_daa_score = ok 5_000;
  treasury_utxos = ok two_coins;
  fee_estimate_sompi_per_gram = none;
  accepts = λ txid. true;
}

abbrev before_sending : Wire
before_sending = record {
  wire_cycles = planned_cycle ∷ [];
  wire_rows = row 1 planned none ∷ [];
  sent = [];
}

broadcast_cycle-Covered_example : Covered (
    run_effects
      (take 3
        (broadcast_cycle fixed_point toy_consensus 7 toy_sign toy_node
          (λ w. some (w + 50))
          before_sending.wire_rows
          one_planned
          live).0)
      before_sending)
broadcast_cycle-Covered_example =
    broadcast_cycle-Covered fixed_point toy_consensus 7 toy_sign toy_node live (λ w. some (w + 50))
      one_planned before_sending 3 tt

abbrev on_the_wire : CycleState
on_the_wire = record { cycle = planned_cycle; payouts = row 1 submitted (some 11) ∷ [] }

confirm_cycle-Justified_example :
    All
      (Justified 5_000 two_coins (in_flight_of on_the_wire))
      (confirm_cycle (λ txid. ok false) (ok 5_000) (ok two_coins) on_the_wire).0
confirm_cycle-Justified_example =
    confirm_cycle-Justified (λ txid. ok false) 5_000 two_coins on_the_wire

-- The transaction's change coin, mined at 100, has the depth.
wire_confirms :
    (confirm_cycle (λ txid. ok false) (ok 5_000) (ok two_coins) on_the_wire).0 ≡ to_confirmed 1 ∷ []
unfolding confirm_cycle
wire_confirms = refl

abbrev toy_config : PayoutEngineConfig
toy_config = record {
  cycle_span_daa = 86_400;
  threshold_sompi = pos 1_000_000_000;
  max_payout_sompi_per_cycle = some (pos 50_000_000_000);
  mode = live;
}

abbrev no_stops : Stops
no_stops = record {
  plan_stop = false;
  audit_stop = false;
  broadcast_stop = none;
  reload_stop = false;
  confirm_stop = none;
  reconcile_stop = false;
}

abbrev toy_tick_node : TickNode fixed_point
toy_tick_node = record {
  stops = no_stops;
  first_node = toy_node;
  confirm_daa_score = ok 5_010;
  confirm_utxos = ok two_coins;
  transaction_in_mempool = λ txid. ok true;
}

-- the database fails at the third effect, when the transaction is out and nothing is confirmed
abbrev stopped_tick_node : TickNode fixed_point
stopped_tick_node = record toy_tick_node { stops = record no_stops { broadcast_stop = some 3 } }

abbrev paid_row : PayoutRecipient
paid_row = record { id = 1; amount_sompi = 2_000_000_000; script_public_key = 81 }

abbrev paid_before : List (List PayoutRecipient × ℕ)
paid_before = (paid_row ∷ [], 900) ∷ []

-- the next window's tick: the wallet's first payout is on the wire
abbrev next_window : Db
next_window = record (with_rows (row 1 submitted (some 900) ∷ []) 1 one_wallet) {
  last_cycle_id = 1;
}

WellSent-before : WellSent paid_before next_window.rows next_window.last_payout_id
WellSent-before = record {
  covered = (((λ m. refl), tt), tt);
  rows_given = (omega arith, tt);
  paid_given = ((omega arith, tt), tt);
}

run_locked-Accounted_example :
    let t =
      run_locked fixed_point toy_consensus 7 toy_sign
        (λ w. some (w + 50))
        toy_config
        5_000
        stopped_tick_node
        next_window
        paid_before in
    WellSent t.tick_sent t.tick_db.rows t.tick_db.last_payout_id × Adds paid_before t.tick_sent
run_locked-Accounted_example =
    run_locked-Accounted fixed_point toy_consensus 7 toy_sign (λ w. some (w + 50)) toy_config 5_000
      stopped_tick_node next_window paid_before WellSent-before

-- The transaction that was sent before the stop pays the new row, and not the first one again.
stopped_tick_sends :
    map
      (λ s. paid_ids s.0)
      (run_locked fixed_point toy_consensus 7 toy_sign
        (λ w. some (w + 50))
        toy_config
        5_000
        stopped_tick_node
        next_window
        paid_before).tick_sent
    ≡ (1 ∷ []) ∷ (2 ∷ []) ∷ []
unfolding run_locked broadcast_cycle resume_or_plan_kas_cycle sort_by clamp_i64 ◌+ℤ◌ evaluate_shape
    fits_independently reserves_fee from_feerate fee_for effective
stopped_tick_sends = refl
