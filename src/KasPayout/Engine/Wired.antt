-- ===== src/KasPayout/Engine/Wired.antt =====
-- A broadcast in a tick (`broadcast_cycle` of payout-kas/src/execute.rs): it pays rows of its cycle
-- only, of which the ids have been given out.
use katpool.Base.{
  ℕ, zero, suc, ◌≤◌, ◌≡◌, refl, sym, ap, ◌∙◌, subst, inl, inr, Bool, true, false, ◌==◌, ◌||◌, ◌&&◌,
  if◌then◌else◌, Option, some, find?, List, [], ◌∷◌, ◌++◌, take, is_empty, All, All-append,
  retain-All, Result, ok, err, Bool-cases, Result-cases, >>=-eq-ok, ok_or, ok_inj, arith,
}
use katpool.Base.Float.{Float}
use katpool.Mass.Types.{PlannedBatch, PayoutRecipient, TreasuryUtxo}
use katpool.Mass.Fee.{FeeRate}
use katpool.Mass.Planner.{plan_batches}
use katpool.Mass.Evaluator.{Consensus}
use katpool.KasPayout.Rows.{Payout}
use katpool.KasPayout.Repo.{can_submit, mark_payout_submitted}
use katpool.KasPayout.Cycle.{CycleState, is_planned, pending}
use katpool.KasPayout.Cycle.Resume.{ok_or-some}
use katpool.KasPayout.Execute.{
  ExecuteError, unknown_recipient, ExecutionMode, is_dry_run, ExecutionReport, SignedBatch, Effect,
  mark_broadcasting, record_intent, submit_transaction, Wire, mark_all_submitted, run_effect,
  run_effects, fee_rate_of, Node, batch_payout_ids, sign_batch_with_exact_fee, broadcast_batches,
  broadcast_plan, broadcast_gathered, broadcast_cycle,
}
use katpool.KasPayout.Execute.Intent.{paid_ids, batch_payout_ids-eq, broadcast_cycle-Covered}
use katpool.KasPayout.Engine.Tick.{WellSent}

-- every sent transaction pays rows only of which the ids have a property
abbrev Pays : (ℕ → Type 0) → List Effect → Type 0
Pays P [] = Unit
Pays P (mark_broadcasting c ∷ es) = Pays P es
Pays P (record_intent js h ∷ es) = Pays P es
Pays P (submit_transaction rs h ∷ es) = All P (paid_ids rs) × Pays P es

find?-All {ℓ κ} :
    {A : Type ℓ} (P : A → Type κ) (p : A → Bool) (xs : List A) {a : A}
    → All P xs
    → find? p xs ≡ some a
    → P a
find?-All P p [] all h = absurd (ground (arith, h))
find?-All P p (x ∷ xs) {a} all h = elim (Bool-cases (p x)) [
  | inl e ↦ subst P (hit (p x) h e) all.0
  | inr e ↦ find?-All P p xs all.1 (miss (p x) h e)
]
  where
    hit : (b : Bool) → (if b then some x else find? p xs) ≡ some a → b ≡ true → x ≡ a
    hit b h e = ground arith

    miss :
        (b : Bool) → (if b then some x else find? p xs) ≡ some a → b ≡ false → find? p xs ≡ some a
    miss b h e = ground arith

mark_all_submitted-given :
    (last h : ℕ) (ids : List ℕ) (rows : List Payout)
    → All (λ p. p.id ≤ last) rows
    → All (λ p. p.id ≤ last) (mark_all_submitted ids h rows)
unfolding mark_all_submitted mark_payout_submitted
mark_all_submitted-given last h [] rows g = g
mark_all_submitted-given last h (i ∷ ids) rows g =
    mark_all_submitted-given last h ids (mark_payout_submitted i h rows) (one rows g)
  where
    one :
        (rows : List Payout)
        → All (λ p. p.id ≤ last) rows
        → All (λ p. p.id ≤ last) (mark_payout_submitted i h rows)
    one [] g = tt
    one (p ∷ ps) g = (
      elim (Bool-cases ((p.id == i) && can_submit p.status)) [
        | inl e ↦ rw (e) g.0
        | inr e ↦ rw (e) g.0
      ],
      one ps g.1,
    )

run_effects-given :
    (last : ℕ) (es : List Effect) (w : Wire)
    → Pays (λ i. i ≤ last) es
    → All (λ p. p.id ≤ last) w.wire_rows
    → All (λ s. All (λ i. i ≤ last) (paid_ids s.0)) w.sent
    → All (λ p. p.id ≤ last) (run_effects es w).wire_rows
      × All (λ s. All (λ i. i ≤ last) (paid_ids s.0)) (run_effects es w).sent
unfolding run_effects run_effect
run_effects-given last [] w pays rows paid = (rows, paid)
run_effects-given last (mark_broadcasting c ∷ es) w pays rows paid =
    run_effects-given last es _ pays rows paid
run_effects-given last (record_intent js h ∷ es) w pays rows paid =
    run_effects-given last es _ pays (mark_all_submitted-given last h js w.wire_rows rows) paid
run_effects-given last (submit_transaction rs h ∷ es) w pays rows paid =
    run_effects-given last es _ pays.1 rows
      (All-append (λ s. All (λ i. i ≤ last) (paid_ids s.0)) w.sent ((rs, h) ∷ []) paid (pays.0, tt))

pub append-nil {ℓ} : {A : Type ℓ} (xs : List A) → xs ++ [] ≡ xs
append-nil [] = refl
append-nil (x ∷ xs) = ap (λ ys. x ∷ ys) (append-nil xs)

append-snoc {ℓ} :
    {A : Type ℓ} (xs : List A) (x : A) (zs : List A) → (xs ++ x ∷ []) ++ zs ≡ xs ++ x ∷ zs
append-snoc [] x zs = refl
append-snoc (y ∷ xs) x zs = ap (λ us. y ∷ us) (append-snoc xs x zs)

-- What a broadcast adds to what was sent.
run_effects-sent :
    (P : ℕ → Type 0) (es : List Effect) (w : Wire)
    → Pays P es
    → (new : List (List PayoutRecipient × ℕ)) × ((run_effects es w).sent ≡ w.sent ++ new)
      × All (λ s. All P (paid_ids s.0)) new
unfolding run_effects run_effect
run_effects-sent P [] w pays = ([], sym (append-nil w.sent), tt)
run_effects-sent P (mark_broadcasting c ∷ es) w pays = run_effects-sent P es _ pays
run_effects-sent P (record_intent js h ∷ es) w pays = run_effects-sent P es _ pays
run_effects-sent P (submit_transaction rs h ∷ es) w pays =
    let (new, e, all) = run_effects-sent P es _ pays.1 in
    ((rs, h) ∷ new, e ∙ append-snoc w.sent (rs, h) new, (pays.0, all))

wire_batch :
    (dry : Bool) (P : ℕ → Type 0) (js : List ℕ) (rs : List PayoutRecipient) (h : ℕ)
    (es : List Effect)
    → All P (paid_ids rs)
    → Pays P es
    → Pays P ((if dry then [] else record_intent js h ∷ submit_transaction rs h ∷ []) ++ es)
wire_batch true P js rs h es within k = k
wire_batch false P js rs h es within k = (within, k)

mark_first :
    (skip : Bool) (P : ℕ → Type 0) (c : ℕ) (es : List Effect)
    → Pays P es
    → Pays P ((if skip then [] else mark_broadcasting c ∷ []) ++ es)
mark_first true P c es k = k
mark_first false P c es k = k

Pays-take : (n : ℕ) (P : ℕ → Type 0) (es : List Effect) → Pays P es → Pays P (take n es)
Pays-take zero P es k = tt
Pays-take (suc n) P [] k = tt
Pays-take (suc n) P (mark_broadcasting c ∷ es) k = Pays-take n P es k
Pays-take (suc n) P (record_intent js h ∷ es) k = Pays-take n P es k
Pays-take (suc n) P (submit_transaction rs h ∷ es) k = (k.0, Pays-take n P es k.1)

module _ (fl : Float) (consensus : Consensus) (script : ℕ)
    (sign_batch : PlannedBatch → Result ExecuteError SignedBatch) where
  batch_payout_ids-given :
      (P : ℕ → Type 0) (rows : List Payout) (rs : List PayoutRecipient) {ids : List ℕ}
      → All (λ p. P p.id) rows
      → batch_payout_ids fl consensus script sign_batch rows rs ≡ ok ids
      → All P ids
  unfolding batch_payout_ids
  batch_payout_ids-given P rows [] g h = subst (All P) (ok_inj h) tt
  batch_payout_ids-given P rows (r ∷ rs) g h =
      let (row, e, k) =
        >>=-eq-ok (ok_or (find? (λ p. p.id == r.id) rows) (unknown_recipient r.id)) _ h in
      let (rest, e', k') =
        >>=-eq-ok (batch_payout_ids fl consensus script sign_batch rows rs) _ k in
      let found = ok_or-some (find? (λ p. p.id == r.id) rows) (unknown_recipient r.id) e in
      let its_id : P row.id = find?-All (λ p. P p.id) (λ p. p.id == r.id) rows g found in
      subst (All P) (ok_inj k') (its_id, batch_payout_ids-given P rows rs g e')

  broadcast_batches-Pays :
      (P : ℕ → Type 0) (rate : FeeRate fl) (mode : ExecutionMode) (accepts : ℕ → Bool)
      (rows : List Payout) (bs : List PlannedBatch) (report : ExecutionReport)
      → All (λ p. P p.id) rows
      → Pays P (broadcast_batches fl consensus script sign_batch rate mode accepts rows bs report).0
  unfolding broadcast_batches
  broadcast_batches-Pays P rate mode accepts rows [] report g = tt
  broadcast_batches-Pays P rate mode accepts rows (b ∷ bs) report g =
      elim (Result-cases (batch_payout_ids fl consensus script sign_batch rows b.payouts)) [
        | inl (e, h) ↦ rw (h, broadcast_batches) tt
        | inr (js, h) ↦
            elim (Result-cases (sign_batch_with_exact_fee fl consensus script sign_batch rate b)) [
              | inl (e, h') ↦ rw (h, h', broadcast_batches) tt
              | inr (signed, h') ↦
                  rw (h, h', broadcast_batches)
                    (wire_batch (is_dry_run mode) P js b.payouts signed.signed_txid _
                      (subst (All P)
                        (batch_payout_ids-eq fl consensus script sign_batch rows b.payouts h)
                        (batch_payout_ids-given P rows b.payouts g h))
                      (broadcast_batches-Pays P rate mode accepts rows bs _ g))
            ]
      ]

  module _ (P : ℕ → Type 0) (node : Node fl) (mode : ExecutionMode) (cycle : CycleState)
      (given : All (λ p. P p.id) (pending cycle)) where
    broadcast_gathered-Pays :
        (r : Result ExecuteError (List PayoutRecipient × List TreasuryUtxo))
        → Pays P (broadcast_gathered fl consensus script sign_batch node cycle mode r).0
    unfolding broadcast_gathered broadcast_plan
    broadcast_gathered-Pays (err e) = tt
    broadcast_gathered-Pays (ok (recipients, coins)) =
        let rate = fee_rate_of fl consensus script sign_batch node.fee_estimate_sompi_per_gram in
        let plan = plan_batches fl consensus script rate coins recipients in
        mark_first (is_dry_run mode || is_empty plan.batches) P cycle.cycle.cycle_id _
          (broadcast_batches-Pays P rate mode node.accepts (pending cycle) plan.batches _ given)

    broadcast_cycle-Pays :
        (script_of : ℕ → Option ℕ) (rows : List Payout)
        → Pays P (broadcast_cycle fl consensus script sign_batch node script_of rows cycle mode).0
    unfolding broadcast_cycle
    broadcast_cycle-Pays script_of rows = elim (Bool-cases (is_empty (pending cycle))) [
      | inl e ↦ rw (e, broadcast_cycle) tt
      | inr e ↦ rw (e, broadcast_cycle) (broadcast_gathered-Pays _)
    ]

    -- Wherever it is cut off, a broadcast pays rows of its cycle only that were planned.
    pub broadcast_cycle-new :
        (script_of : ℕ → Option ℕ) (w : Wire) (n : ℕ)
        → let es =
            (broadcast_cycle fl consensus script sign_batch node script_of w.wire_rows cycle
              mode).0 in
          (new : List (List PayoutRecipient × ℕ)) × ((run_effects (take n es) w).sent
            ≡ w.sent ++ new)
          × All (λ s. All P (paid_ids s.0)) new
    broadcast_cycle-new script_of w n =
        let es =
          (broadcast_cycle fl consensus script sign_batch node script_of w.wire_rows cycle
            mode).0 in
        run_effects-sent P (take n es) w
          (Pays-take n P es (broadcast_cycle-Pays script_of w.wire_rows))

  pub broadcast_cycle-WellSent :
      (node : Node fl) (mode : ExecutionMode) (last : ℕ) (cycle : CycleState)
      (script_of : ℕ → Option ℕ) (w : Wire) (n : ℕ)
      → All (λ p. p.id ≤ last) cycle.payouts
      → WellSent w.sent w.wire_rows last
      → let es =
          (broadcast_cycle fl consensus script sign_batch node script_of w.wire_rows cycle
            mode).0 in
        WellSent (run_effects (take n es) w).sent (run_effects (take n es) w).wire_rows last
  unfolding pending
  broadcast_cycle-WellSent node mode last cycle script_of w n given ws =
      let es =
        (broadcast_cycle fl consensus script sign_batch node script_of w.wire_rows cycle mode).0 in
      let planned_given =
        retain-All (λ p. p.id ≤ last) (λ p. is_planned p.status) cycle.payouts given in
      let (rows, paid) =
        run_effects-given last (take n es) w
          (Pays-take n (λ i. i ≤ last) es
            (broadcast_cycle-Pays (λ i. i ≤ last) node mode cycle planned_given script_of
              w.wire_rows))
          ws.rows_given ws.paid_given in
      record {
        covered =
            broadcast_cycle-Covered fl consensus script sign_batch node mode script_of cycle w n
              ws.covered;
        rows_given = rows;
        paid_given = paid;
      }
