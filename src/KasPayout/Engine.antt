-- ===== src/KasPayout/Engine.antt =====
-- The engine's checks and its tick (payout-kas/src/engine.rs). The advisory lock, the logging and the
-- metrics around a tick are left out; the tick is the work of the instance that holds the lock. Where
-- the database fails is a parameter: a step's transaction is rolled back, and what was written before
-- it stays.
pub mod Tick
pub mod Wired
pub mod Ready
pub mod Locked
use katpool.Base.{
  ℕ, ◌+◌, Bool, true, false, not, if◌then◌else◌, leb, Option, none, some, List, [], ◌∷◌, retain,
  take, Result, ok, err, ◌>>=◌, map_err,
}
use katpool.Base.Float.{Float}
use katpool.Base.Int.{ℤ, pos}
use katpool.Base.Word.{add_sat_i64}
use katpool.Mass.Types.{TreasuryUtxo, PayoutRecipient, PlannedBatch}
use katpool.Mass.Evaluator.{Consensus}
use katpool.KasPayout.Rows.{PayoutCycleStatus, PayoutCycle, Payout}
use katpool.KasPayout.Repo.{list_for_cycle}
use katpool.KasPayout.Repo.Lifecycle.{apply_updates}
use katpool.KasPayout.Cycle.{
  CycleState, Db, with_cycles, with_rows, DbError, unavailable, is_failed, get_cycle,
  PlanKasCycleParams, resume_or_plan_kas_cycle, reconcile_cycle_status,
}
use katpool.KasPayout.Confirm.{cycle_window, kas_payout_confirmation_daa, over_spend_cap}
use katpool.KasPayout.Execute.{
  ExecuteError, db_error, ExecutionMode, ExecutionReport, SignedBatch, Effect, Wire, run_effects,
  Node, broadcast_cycle,
}
use katpool.KasPayout.ConfirmCycle.{ConfirmReport, confirm_cycle}

pub data EngineError : Type 0 where
  database : DbError → EngineError
  execution : ExecuteError → EngineError
  span_too_small : ℕ → EngineError
  spend_cap_exceeded : ℤ → EngineError

pub record PayoutEngineConfig : Type 0 where
  pub cycle_span_daa : ℕ
  pub threshold_sompi : ℤ
  pub max_payout_sompi_per_cycle : Option ℤ
  pub mode : ExecutionMode

-- `PayoutEngine::new`, as far as it checks
unfoldable pub new_engine : PayoutEngineConfig → Result EngineError PayoutEngineConfig
new_engine config =
    if leb config.cycle_span_daa kas_payout_confirmation_daa
    then err (span_too_small config.cycle_span_daa)
    else ok config

abbrev sum_sat : ℤ → List Payout → ℤ
sum_sat acc [] = acc
sum_sat acc (p ∷ ps) = sum_sat (add_sat_i64 acc (pos p.amount_sompi)) ps

-- the cycle's outbound: every row that has not failed
unfoldable pub outbound_sompi : List Payout → ℤ
outbound_sompi payouts = sum_sat (pos 0) (retain (λ p. not (is_failed p.status)) payouts)

pub record TickReport : Type 0 where
  pub tick_cycle : ℕ
  pub tick_broadcast : ExecutionReport
  pub tick_confirm : ConfirmReport
  pub tick_status : PayoutCycleStatus

-- What a tick leaves: the database, the transactions sent so far, and its report or its error.
pub record Ticked : Type 0 where
  pub tick_db : Db
  pub tick_sent : List (List PayoutRecipient × ℕ)
  pub outcome : Result EngineError TickReport

-- Where the database fails in a tick: as the cycle is found or planned, as that is audited, after so
-- many of the effects of the broadcast or of the updates of the confirmation, as the cycle is read
-- again, as its status is reconciled.
pub record Stops : Type 0 where
  pub plan_stop : Bool
  pub audit_stop : Bool
  pub broadcast_stop : Option ℕ
  pub reload_stop : Bool
  pub confirm_stop : Option ℕ
  pub reconcile_stop : Bool

-- a step that is stopped leaves what it has done and returns the database's error
abbrev pub stop_after :
    {A B : Type 0} → Option ℕ → List A × Result ExecuteError B → List A × Result ExecuteError B
stop_after none step = step
stop_after (some n) step = (take n step.0, err db_error)

abbrev pub stop_if : {E A : Type 0} → E → Bool → Result E A → Result E A
stop_if e true r = r >>= λ a. err e
stop_if e false r = r

-- What a tick meets outside: the node's answers, the second reads among them, and the database's
-- failures.
pub record TickNode (fl : Float) : Type 0 where
  pub stops : Stops
  pub first_node : Node fl
  pub confirm_daa_score : Result ExecuteError ℕ
  pub confirm_utxos : Result ExecuteError (List TreasuryUtxo)
  pub transaction_in_mempool : ℕ → Result ExecuteError Bool

module _ (fl : Float) (consensus : Consensus) (treasury_script : ℕ)
    (sign_batch : PlannedBatch → Result ExecuteError SignedBatch) (script_of : ℕ → Option ℕ) where
  -- reconcile, once the confirmation pass is through
  unfoldable pub reconcile_tick :
      ℕ
      → ExecutionReport
      → Db
      → List (List PayoutRecipient × ℕ)
      → Result ExecuteError ConfirmReport
      → Ticked
  unfolding reconcile_cycle_status
  reconcile_tick cycle_id broadcast db sent (err e) = record {
    tick_db = db;
    tick_sent = sent;
    outcome = err (execution e);
  }
  reconcile_tick cycle_id broadcast db sent (ok report) =
      let (db', status) = reconcile_cycle_status cycle_id db in
      record {
        tick_db = db';
        tick_sent = sent;
        outcome = ok (record {
          tick_cycle = cycle_id;
          tick_broadcast = broadcast;
          tick_confirm = report;
          tick_status = status;
        });
      }

  -- confirm, with the cycle read again
  unfoldable pub confirm_tick :
      TickNode fl
      → ExecutionReport
      → Db
      → List (List PayoutRecipient × ℕ)
      → Result DbError PayoutCycle
      → Ticked
  unfolding list_for_cycle confirm_cycle reconcile_tick
  confirm_tick node broadcast db sent (err e) = record {
    tick_db = db;
    tick_sent = sent;
    outcome = err (database e);
  }
  confirm_tick node broadcast db sent (ok cycle) =
      let reloaded : CycleState = record {
        cycle = cycle;
        payouts = list_for_cycle cycle.cycle_id db.rows;
      } in
      let pass = stop_after node.stops.confirm_stop (
        confirm_cycle node.transaction_in_mempool node.confirm_daa_score node.confirm_utxos
          reloaded) in
      reconcile_tick cycle.cycle_id broadcast
        (with_rows (apply_updates pass.0 db.rows) db.last_payout_id db) sent
        (stop_if db_error node.stops.reconcile_stop pass.1)

  -- what follows the broadcast
  unfoldable pub settle_tick :
      TickNode fl
      → ℕ
      → Db
      → List (List PayoutRecipient × ℕ)
      → Result ExecuteError ExecutionReport
      → Ticked
  unfolding get_cycle confirm_tick
  settle_tick node cycle_id db sent (err e) = record {
    tick_db = db;
    tick_sent = sent;
    outcome = err (execution e);
  }
  settle_tick node cycle_id db sent (ok report) =
      confirm_tick node report db sent
        (stop_if unavailable node.stops.reload_stop (get_cycle cycle_id db))

  -- the spend cap, then the broadcast with its effects
  unfoldable pub drive_tick :
      PayoutEngineConfig → TickNode fl → Db → CycleState → List (List PayoutRecipient × ℕ) → Ticked
  unfolding outbound_sompi over_spend_cap broadcast_cycle run_effects settle_tick
  drive_tick config node db state sent =
      let broadcast = stop_after node.stops.broadcast_stop (
        broadcast_cycle fl consensus treasury_script sign_batch node.first_node script_of db.rows
          state config.mode) in
      let wire =
        run_effects broadcast.0
          (record { wire_cycles = db.cycles; wire_rows = db.rows; sent = sent }) in
      if over_spend_cap (outbound_sompi state.payouts) config.max_payout_sompi_per_cycle
      then record {
        tick_db = db;
        tick_sent = sent;
        outcome = err (spend_cap_exceeded (outbound_sompi state.payouts));
      }
      else settle_tick node state.cycle.cycle_id
          (with_rows wire.wire_rows db.last_payout_id
            (with_cycles wire.wire_cycles db.last_cycle_id db))
          wire.sent broadcast.1

  unfoldable pub run_locked :
      PayoutEngineConfig → ℕ → TickNode fl → Db → List (List PayoutRecipient × ℕ) → Ticked
  unfolding cycle_window resume_or_plan_kas_cycle drive_tick
  run_locked config virtual_daa node db sent =
      let (daa_start, daa_end) = cycle_window virtual_daa config.cycle_span_daa in
      let params : PlanKasCycleParams = record {
        window_start = daa_start;
        window_end = daa_end;
        threshold_sompi = config.threshold_sompi;
      } in
      elim (stop_if unavailable node.stops.plan_stop (resume_or_plan_kas_cycle params db)) [
        | err e ↦ record { tick_db = db; tick_sent = sent; outcome = err (database e) }
        | ok (db', state) ↦
            if node.stops.audit_stop
            then record {
              tick_db = record db' { audit_log = db.audit_log };
              tick_sent = sent;
              outcome = err (database unavailable);
            }
            else drive_tick config node db' state sent
      ]
