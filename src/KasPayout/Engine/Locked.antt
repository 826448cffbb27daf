-- ===== src/KasPayout/Engine/Locked.antt =====
-- A whole tick (`run_locked` of payout-kas/src/engine.rs): what was sent stays accounted for, and
-- nothing is paid again.
use katpool.Base.{
  retain, All-map, ℕ, ◌≡◌, refl, subst, sym, inl, inr, Bool, true, false, Option, none, some, List,
  [], ◌∷◌, ◌++◌, take, length, All, Result, ok, err, Bool-cases, Result-cases,
}
use katpool.Base.Float.{Float}
use katpool.Mass.Types.{PlannedBatch, PayoutRecipient}
use katpool.Mass.Evaluator.{Consensus}
use katpool.KasPayout.Rows.{PayoutCycle, Payout}
use katpool.KasPayout.Repo.{list_for_cycle}
use katpool.KasPayout.Repo.Lifecycle.{apply_updates}
use katpool.KasPayout.Cycle.{
  CycleState, is_planned, pending, Db, DbError, unavailable, with_rows, with_cycles,
  reconcile_cycle_status, PlanKasCycleParams, resume_or_plan_kas_cycle,
}
use katpool.KasPayout.Confirm.{over_spend_cap, cycle_window}
use katpool.KasPayout.ConfirmCycle.{ConfirmReport, confirm_cycle}
use katpool.KasPayout.Execute.{
  ExecuteError, db_error, ExecutionReport, SignedBatch, Wire, run_effects, broadcast_cycle,
}
use katpool.KasPayout.Engine.{
  PayoutEngineConfig, outbound_sompi, TickNode, stop_after, stop_if, reconcile_tick, confirm_tick,
  settle_tick, drive_tick, run_locked,
}
use katpool.KasPayout.Engine.Tick.{WellSent, apply_updates-WellSent}
use katpool.KasPayout.Engine.Wired.{append-nil, broadcast_cycle-new, broadcast_cycle-WellSent}
use katpool.KasPayout.Execute.Intent.{paid_ids}
use katpool.KasPayout.Engine.Ready.{Sent, DbWellSent, Unpaid, RowReady, Ready, resume_found-Ready}

take_all {ℓ} : {A : Type ℓ} (xs : List A) → take (length xs) xs ≡ xs
take_all [] = refl
take_all (x ∷ xs) = rw (take_all xs) refl

stop_if-ok :
    {E A : Type 0} (e : E) (stop : Bool) (r : Result E A) {a : A}
    → stop_if e stop r ≡ ok a
    → r ≡ ok a
stop_if-ok e true (err e') h = cc
stop_if-ok e true (ok a) h = cc
stop_if-ok e false r h = h

-- What is sent afterwards: what was sent before, and new transactions, none of which pays a row that
-- one sent before pays.
abbrev pub Adds : List (List PayoutRecipient × ℕ) → List (List PayoutRecipient × ℕ) → Type 0
Adds before after =
    (new : List (List PayoutRecipient × ℕ)) × (after ≡ before ++ new)
    × All (λ s. All (Unpaid before) (paid_ids s.0)) new

abbrev Accounted : Sent → Sent → List Payout → ℕ → Type 0
Accounted before after rows last = WellSent after rows last × Adds before after

nothing_added : (sent : Sent) → Adds sent sent
nothing_added sent = ([], sym (append-nil sent), tt)

planned_only :
    (P : ℕ → Type 0) (rows : List Payout)
    → All (λ p. is_planned p.status ≡ true → P p.id) rows
    → All (λ p. P p.id) (retain (λ p. is_planned p.status) rows)
planned_only P [] k = tt
planned_only P (p ∷ ps) k = elim (Bool-cases (is_planned p.status)) [
  | inl e ↦ rw (e) (k.0 e, planned_only P ps k.1)
  | inr e ↦ rw (e) (planned_only P ps k.1)
]

module _ (fl : Float) (consensus : Consensus) (script : ℕ)
    (sign_batch : PlannedBatch → Result ExecuteError SignedBatch) (script_of : ℕ → Option ℕ) where
  reconcile_tick-WellSent :
      (id : ℕ) (report : ExecutionReport) (db : Db) (sent : Sent)
      (pass : Result ExecuteError ConfirmReport)
      → DbWellSent sent db
      → let t = reconcile_tick fl consensus script sign_batch script_of id report db sent pass in
        DbWellSent t.tick_sent t.tick_db × (t.tick_sent ≡ sent)
  unfolding reconcile_tick reconcile_cycle_status
  reconcile_tick-WellSent id report db sent (err e) w = (w, refl)
  reconcile_tick-WellSent id report db sent (ok r) w = (w, refl)

  confirm_tick-WellSent :
      (node : TickNode fl) (report : ExecutionReport) (db : Db) (sent : Sent)
      (read : Result DbError PayoutCycle)
      → DbWellSent sent db
      → let t = confirm_tick fl consensus script sign_batch script_of node report db sent read in
        DbWellSent t.tick_sent t.tick_db × (t.tick_sent ≡ sent)
  unfolding confirm_tick
  confirm_tick-WellSent node report db sent (err e) w = (w, refl)
  confirm_tick-WellSent node report db sent (ok cycle) w =
      let pass = stop_after node.stops.confirm_stop (
        confirm_cycle node.transaction_in_mempool node.confirm_daa_score node.confirm_utxos
          (record { cycle = cycle; payouts = list_for_cycle cycle.cycle_id db.rows })) in
      reconcile_tick-WellSent cycle.cycle_id report
        (with_rows (apply_updates pass.0 db.rows) db.last_payout_id db) sent
        (stop_if db_error node.stops.reconcile_stop pass.1)
        (apply_updates-WellSent pass.0 sent db.rows db.last_payout_id w)

  settle_tick-WellSent :
      (node : TickNode fl) (id : ℕ) (db : Db) (sent : Sent)
      (r : Result ExecuteError ExecutionReport)
      → DbWellSent sent db
      → let t = settle_tick fl consensus script sign_batch script_of node id db sent r in
        DbWellSent t.tick_sent t.tick_db × (t.tick_sent ≡ sent)
  unfolding settle_tick
  settle_tick-WellSent node id db sent (err e) w = (w, refl)
  settle_tick-WellSent node id db sent (ok report) w = confirm_tick-WellSent node report db sent _ w

  -- the broadcast cut off
  cut-Accounted :
      (config : PayoutEngineConfig) (node : TickNode fl) (state : CycleState) (w : Wire)
      (last n : ℕ)
      → All (RowReady w.sent last) state.payouts
      → WellSent w.sent w.wire_rows last
      → let es =
          (broadcast_cycle fl consensus script sign_batch node.first_node script_of w.wire_rows
            state config.mode).0 in
        Accounted w.sent (run_effects (take n es) w).sent (run_effects (take n es) w).wire_rows last
  unfolding pending
  cut-Accounted config node state w last n g ws = (
    broadcast_cycle-WellSent fl consensus script sign_batch node.first_node config.mode last state
        script_of w n (All-map (λ p r. r.0) state.payouts g) ws,
    broadcast_cycle-new fl consensus script sign_batch (Unpaid w.sent) node.first_node config.mode
        state (planned_only (Unpaid w.sent) state.payouts (All-map (λ p r. r.1) state.payouts g))
        script_of w n,
  )

  -- the broadcast, stopped or not
  wired-Accounted :
      (config : PayoutEngineConfig) (node : TickNode fl) (state : CycleState) (w : Wire) (last : ℕ)
      (stop : Option ℕ)
      → All (RowReady w.sent last) state.payouts
      → WellSent w.sent w.wire_rows last
      → let b = stop_after stop (
          broadcast_cycle fl consensus script sign_batch node.first_node script_of w.wire_rows state
            config.mode) in
        Accounted w.sent (run_effects b.0 w).sent (run_effects b.0 w).wire_rows last
  wired-Accounted config node state w last (some n) g ws =
      cut-Accounted config node state w last n g ws
  wired-Accounted config node state w last none g ws =
      let es =
        (broadcast_cycle fl consensus script sign_batch node.first_node script_of w.wire_rows state
          config.mode).0 in
      subst (λ es. Accounted w.sent (run_effects es w).sent (run_effects es w).wire_rows last)
        (take_all es) (cut-Accounted config node state w last (length es) g ws)

  drive_tick-Accounted :
      (config : PayoutEngineConfig) (node : TickNode fl) (db : Db) (state : CycleState)
      (sent : Sent)
      → Ready sent (db, state)
      → let t = drive_tick fl consensus script sign_batch script_of config node db state sent in
        Accounted sent t.tick_sent t.tick_db.rows t.tick_db.last_payout_id
  unfolding drive_tick
  drive_tick-Accounted config node db state sent (w, g) =
      let over = over_spend_cap (outbound_sompi state.payouts) config.max_payout_sompi_per_cycle in
      let wire : Wire = record { wire_cycles = db.cycles; wire_rows = db.rows; sent = sent } in
      let b = stop_after node.stops.broadcast_stop (
        broadcast_cycle fl consensus script sign_batch node.first_node script_of db.rows state
          config.mode) in
      let done = run_effects b.0 wire in
      let (well, adds) =
        wired-Accounted config node state wire db.last_payout_id node.stops.broadcast_stop g w in
      let (settled_well, same) =
        settle_tick-WellSent node state.cycle.cycle_id
          (with_rows done.wire_rows db.last_payout_id
            (with_cycles done.wire_cycles db.last_cycle_id db))
          done.sent b.1 well in
      elim (Bool-cases over) [
        | inl e ↦ rw (e, drive_tick) (w, nothing_added sent)
        | inr e ↦ rw (e, drive_tick) (settled_well, subst (Adds sent) (sym same) adds)
      ]

  -- A tick pays nothing that was paid before and keeps what was sent accounted for, whatever the node, the signer and
  -- the address parser answer and wherever the database fails. When no row that a sent transaction pays
  -- is `planned`, and the ids of the rows and of the payouts sent are ones that the payout sequence has
  -- given out, then the same holds of the rows and of all that has been sent when the tick ends, be it
  -- with a report, with an error or at the spend cap; and what the tick has sent comes behind what was
  -- sent before and pays no row that a transaction sent before the tick pays.
  pub run_locked-Accounted :
      (config : PayoutEngineConfig) (virtual_daa : ℕ) (node : TickNode fl) (db : Db)
      (sent : List (List PayoutRecipient × ℕ))
      → WellSent sent db.rows db.last_payout_id
      → let t =
          run_locked fl consensus script sign_batch script_of config virtual_daa node db sent in
        WellSent t.tick_sent t.tick_db.rows t.tick_db.last_payout_id × Adds sent t.tick_sent
  unfolding run_locked resume_or_plan_kas_cycle
  run_locked-Accounted config virtual_daa node db sent w =
      let window = cycle_window virtual_daa config.cycle_span_daa in
      let params : PlanKasCycleParams = record {
        window_start = window.0;
        window_end = window.1;
        threshold_sompi = config.threshold_sompi;
      } in
      let read = stop_if unavailable node.stops.plan_stop (resume_or_plan_kas_cycle params db) in
      elim (Result-cases read) [
        | inl (e, h) ↦ rw (h, run_locked) (w, nothing_added sent)
        | inr (r, h) ↦
            let ready =
              resume_found-Ready params _ sent db
                (stop_if-ok unavailable node.stops.plan_stop (resume_or_plan_kas_cycle params db) h)
                w in
            elim (Bool-cases node.stops.audit_stop) [
              | inl e ↦ rw (h, e, run_locked) (ready.0, nothing_added sent)
              | inr e ↦ rw (h, e, run_locked) (drive_tick-Accounted config node r.0 r.1 sent ready)
            ]
      ]
