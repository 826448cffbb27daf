-- ===== src/KasPayout/Execute/Intent.antt =====
-- The order of what a broadcast does (`broadcast_cycle` of payout-kas/src/execute.rs): the intent
-- stands in the table before the transaction leaves.
use katpool.Base.{
  ℕ, zero, suc, ◌≡◌, refl, ◌∙◌, find?, map, ok_or, ok_inj, >>=-eq-ok, inl, inr, Bool, true, false,
  ◌==◌, ◌&&◌, ◌||◌, if◌then◌else◌, Option, List, [], ◌∷◌, ◌++◌, any, take, All, All-append, All-map,
  is_empty, Result, ok, err, Result-cases, Bool-cases, arith, subst, sym,
}
use katpool.Base.Float.{Float}
use katpool.Mass.Types.{PlannedBatch, PayoutRecipient, TreasuryUtxo}
use katpool.Mass.Fee.{FeeRate}
use katpool.Mass.Evaluator.{Consensus}
use katpool.Mass.Planner.{plan_batches}
use katpool.KasPayout.Rows.{Payout, PayoutStatus, planned, submitted, accepted, confirmed, failed}
use katpool.KasPayout.Repo.{can_submit, mark_payout_submitted}
use katpool.KasPayout.Cycle.{CycleState, is_planned, pending}
use katpool.KasPayout.Cycle.Resume.{find?-passes, ok_or-some}
use katpool.KasPayout.Execute.{
  fee_rate_of, unknown_recipient, ExecuteError, ExecutionMode, is_dry_run, SignedBatch,
  ExecutionReport, Effect, mark_broadcasting, record_intent, submit_transaction, Wire,
  mark_all_submitted, run_effect, run_effects, Node, batch_payout_ids, sign_batch_with_exact_fee,
  broadcast_batches, broadcast_plan, broadcast_gathered, broadcast_cycle,
}

abbrev pub is_among : List ℕ → ℕ → Bool
is_among ids i = any (λ j. i == j) ids

-- None of the rows with these ids is still to be signed.
abbrev pub NoneOwed : List ℕ → List Payout → Type 0
NoneOwed ids = All (λ p. is_among ids p.id ≡ true → is_planned p.status ≡ false)

unplanned : (s : PayoutStatus) → can_submit s ≡ false → is_planned s ≡ false
unplanned planned h = absurd (ground (arith, h))
unplanned submitted h = refl
unplanned accepted h = refl
unplanned confirmed h = refl
unplanned failed h = refl

mark_payout_submitted-NoneOwed :
    (i h : ℕ) (rows : List Payout) → NoneOwed (i ∷ []) (mark_payout_submitted i h rows)
unfolding mark_payout_submitted
mark_payout_submitted-NoneOwed i h [] = tt
mark_payout_submitted-NoneOwed i h (p ∷ ps) = (
  elim (Bool-cases ((p.id == i) && can_submit p.status)) [
    | inl e ↦ rw (e) (λ _. refl)
    | inr e ↦ rw (e) (λ m. unplanned p.status (ground (arith, m, e)))
  ],
  mark_payout_submitted-NoneOwed i h ps,
)

mark_payout_submitted-keeps :
    (i h : ℕ) (ids : List ℕ) (rows : List Payout)
    → NoneOwed ids rows
    → NoneOwed ids (mark_payout_submitted i h rows)
unfolding mark_payout_submitted
mark_payout_submitted-keeps i h ids [] k = tt
mark_payout_submitted-keeps i h ids (p ∷ ps) k = (
  elim (Bool-cases ((p.id == i) && can_submit p.status)) [
    | inl e ↦ rw (e) (λ _. refl)
    | inr e ↦ rw (e) k.0
  ],
  mark_payout_submitted-keeps i h ids ps k.1,
)

mark_all_submitted-keeps :
    (h : ℕ) (js ids : List ℕ) (rows : List Payout)
    → NoneOwed ids rows
    → NoneOwed ids (mark_all_submitted js h rows)
unfolding mark_all_submitted
mark_all_submitted-keeps h [] ids rows k = k
mark_all_submitted-keeps h (j ∷ js) ids rows k =
    mark_all_submitted-keeps h js ids (mark_payout_submitted j h rows)
      (mark_payout_submitted-keeps j h ids rows k)

NoneOwed-split :
    (i : ℕ) (ids : List ℕ) (rows : List Payout)
    → NoneOwed (i ∷ []) rows
    → NoneOwed ids rows
    → NoneOwed (i ∷ ids) rows
NoneOwed-split i ids [] h k = tt
NoneOwed-split i ids (p ∷ ps) h k = (
  elim (Bool-cases (p.id == i)) [ inl e ↦ λ _. h.0 (rw (e) refl) | inr e ↦ rw (e) k.0 ],
  NoneOwed-split i ids ps h.1 k.1,
)

NoneOwed-nil : (rows : List Payout) → NoneOwed [] rows
NoneOwed-nil [] = tt
NoneOwed-nil (p ∷ ps) = ((λ h. absurd (ground (arith, h))), NoneOwed-nil ps)

mark_all_submitted-NoneOwed :
    (h : ℕ) (ids : List ℕ) (rows : List Payout) → NoneOwed ids (mark_all_submitted ids h rows)
unfolding mark_all_submitted
mark_all_submitted-NoneOwed h [] rows = NoneOwed-nil rows
mark_all_submitted-NoneOwed h (i ∷ ids) rows =
    let marked = mark_payout_submitted i h rows in
    NoneOwed-split i ids (mark_all_submitted ids h marked)
      (mark_all_submitted-keeps h ids (i ∷ []) marked (mark_payout_submitted-NoneOwed i h rows))
      (mark_all_submitted-NoneOwed h ids marked)

-- the rows that a transaction with these payouts pays
abbrev pub paid_ids : List PayoutRecipient → List ℕ
paid_ids = map (λ r. r.id)

-- No row that a sent transaction pays is still to be signed.
abbrev pub Covered : Wire → Type 0
Covered w = All (λ s. NoneOwed (paid_ids s.0) w.wire_rows) w.sent

-- Each transaction is sent right after the intent for the rows that it pays.
abbrev Announced : List ℕ → List Effect → Type 0
Announced ids [] = Unit
Announced ids (mark_broadcasting c ∷ es) = Announced ids es
Announced ids (record_intent js h ∷ es) = Announced js es
Announced ids (submit_transaction rs h ∷ es) = (ids ≡ paid_ids rs) × Announced ids es

run-Covered :
    (n : ℕ) (es : List Effect) (ids : List ℕ) (w : Wire)
    → Announced ids es
    → NoneOwed ids w.wire_rows
    → Covered w
    → Covered (run_effects (take n es) w)
unfolding run_effects run_effect
run-Covered zero es ids w a o c = c
run-Covered (suc n) [] ids w a o c = c
run-Covered (suc n) (mark_broadcasting k ∷ es) ids w a o c = run-Covered n es ids _ a o c
run-Covered (suc n) (record_intent js h ∷ es) ids w a o c =
    run-Covered n es js _ a (mark_all_submitted-NoneOwed h js w.wire_rows)
      (All-map (λ s k. mark_all_submitted-keeps h js (paid_ids s.0) w.wire_rows k) w.sent c)
run-Covered (suc n) (submit_transaction rs h ∷ es) ids w a o c = run-Covered n es ids _ a.1 o (
    All-append (λ s. NoneOwed (paid_ids s.0) w.wire_rows) w.sent ((rs, h) ∷ []) c
      (subst (λ i. NoneOwed i w.wire_rows) a.0 o, tt))

announce :
    (dry : Bool) (js : List ℕ) (rs : List PayoutRecipient) (h : ℕ) (es : List Effect) (ids : List ℕ)
    → js ≡ paid_ids rs
    → ((is : List ℕ) → Announced is es)
    → Announced ids ((if dry then [] else record_intent js h ∷ submit_transaction rs h ∷ []) ++ es)
announce true js rs h es ids e k = k ids
announce false js rs h es ids e k = (e, k js)

mark_first :
    (skip : Bool) (c : ℕ) (es : List Effect)
    → Announced [] es
    → Announced [] ((if skip then [] else mark_broadcasting c ∷ []) ++ es)
mark_first true c es k = k
mark_first false c es k = k

module _ (fl : Float) (consensus : Consensus) (script : ℕ)
    (sign_batch : PlannedBatch → Result ExecuteError SignedBatch) where
  -- The ids that are recorded for a batch are those of its payouts.
  pub batch_payout_ids-eq :
      (rows : List Payout) (rs : List PayoutRecipient) {ids : List ℕ}
      → batch_payout_ids fl consensus script sign_batch rows rs ≡ ok ids
      → ids ≡ paid_ids rs
  unfolding batch_payout_ids
  batch_payout_ids-eq rows [] h = sym (ok_inj h)
  batch_payout_ids-eq rows (r ∷ rs) h =
      let (row, e, k) =
        >>=-eq-ok (ok_or (find? (λ p. p.id == r.id) rows) (unknown_recipient r.id)) _ h in
      let (rest, e', k') =
        >>=-eq-ok (batch_payout_ids fl consensus script sign_batch rows rs) _ k in
      let found = ok_or-some (find? (λ p. p.id == r.id) rows) (unknown_recipient r.id) e in
      let same : row.id ≡ r.id =
        let t = find?-passes (λ p. p.id == r.id) rows found in ground arith in
      sym (ok_inj k') ∙ rw (same, batch_payout_ids-eq rows rs e') refl

  broadcast_batches-Announced :
      (rate : FeeRate fl) (mode : ExecutionMode) (accepts : ℕ → Bool) (rows : List Payout)
      (bs : List PlannedBatch) (report : ExecutionReport) (ids : List ℕ)
      → Announced ids
          (broadcast_batches fl consensus script sign_batch rate mode accepts rows bs report).0
  unfolding broadcast_batches
  broadcast_batches-Announced rate mode accepts rows [] report ids = tt
  broadcast_batches-Announced rate mode accepts rows (b ∷ bs) report ids =
      elim (Result-cases (batch_payout_ids fl consensus script sign_batch rows b.payouts)) [
        | inl (e, h) ↦ rw (h, broadcast_batches) tt
        | inr (js, h) ↦
            elim (Result-cases (sign_batch_with_exact_fee fl consensus script sign_batch rate b)) [
              | inl (e, h') ↦ rw (h, h', broadcast_batches) tt
              | inr (signed, h') ↦
                  rw (h, h', broadcast_batches)
                    (announce (is_dry_run mode) js b.payouts signed.signed_txid _ ids
                      (batch_payout_ids-eq rows b.payouts h)
                      (broadcast_batches-Announced rate mode accepts rows bs _))
            ]
      ]

  module _ (node : Node fl) (mode : ExecutionMode) where
    broadcast_plan-Announced :
        (cycle : CycleState) (recipients : List PayoutRecipient) (coins : List TreasuryUtxo)
        → Announced []
            (broadcast_plan fl consensus script sign_batch node mode cycle recipients coins).0
    unfolding broadcast_plan
    broadcast_plan-Announced cycle recipients coins =
        let rate = fee_rate_of fl consensus script sign_batch node.fee_estimate_sompi_per_gram in
        let plan = plan_batches fl consensus script rate coins recipients in
        mark_first (is_dry_run mode || is_empty plan.batches) cycle.cycle.cycle_id _
          (broadcast_batches-Announced rate mode node.accepts (pending cycle) plan.batches _ [])

    broadcast_gathered-Announced :
        (cycle : CycleState) (r : Result ExecuteError (List PayoutRecipient × List TreasuryUtxo))
        → Announced [] (broadcast_gathered fl consensus script sign_batch node cycle mode r).0
    unfolding broadcast_gathered
    broadcast_gathered-Announced cycle (err e) = tt
    broadcast_gathered-Announced cycle (ok (recipients, coins)) =
        broadcast_plan-Announced cycle recipients coins

    broadcast_cycle-Announced :
        (script_of : ℕ → Option ℕ) (rows : List Payout) (cycle : CycleState)
        → Announced []
            (broadcast_cycle fl consensus script sign_batch node script_of rows cycle mode).0
    unfolding broadcast_cycle
    broadcast_cycle-Announced script_of rows cycle = elim (Bool-cases (is_empty (pending cycle))) [
      | inl e ↦ rw (e, broadcast_cycle) tt
      | inr e ↦ rw (e, broadcast_cycle) (broadcast_gathered-Announced cycle _)
    ]

    -- A sent transaction pays the rows with the ids of its batch's payouts. When none of the rows that
    -- the transactions sent before pay is `planned`, then wherever the broadcast is cut off, by a crash
    -- or by an error, none of the rows that the transactions sent so far pay is `planned`, so that a
    -- resumed cycle does not sign it again.
    pub broadcast_cycle-Covered :
        (script_of : ℕ → Option ℕ) (cycle : CycleState) (w : Wire) (n : ℕ)
        → Covered w
        → Covered (
            run_effects
              (take n
                (broadcast_cycle fl consensus script sign_batch node script_of w.wire_rows cycle
                  mode).0)
              w)
    broadcast_cycle-Covered script_of cycle w n c =
        run-Covered n _ [] w (broadcast_cycle-Announced script_of w.wire_rows cycle)
          (NoneOwed-nil w.wire_rows) c
