-- ===== src/KasPayout/Engine/Ready.antt =====
-- What a tick starts from (`resume_or_plan_kas_cycle` and `plan_kas_cycle` of payout-kas/src/cycle.rs
-- and plan.rs): a row that is planned has been paid by nothing that was sent.
use katpool.Base.{
  ℕ, suc, ◌≤◌, ◌≡◌, refl, subst, sym, inl, inr, true, false, ◌==◌, ◌&&◌, Option, none, some,
  Option-cases, List, [], ◌∷◌, ◌++◌, All, retain-All, ok, Bool-cases, >>=-eq-ok, ok_inj, arith, any,
}
use katpool.Base.Int.{ℤ, pos, pos_part, ltb_ℤ}
use katpool.Base.Bag.{sort_by-All}
use katpool.Mass.Types.{PayoutRecipient}
use katpool.KasPayout.Rows.{kas, PayoutKind, PayoutCycle, Payout, window_key}
use katpool.KasPayout.Repo.{list_for_cycle}
use katpool.KasPayout.Cycle.{
  CycleState, is_planned, Db, with_rows, create_cycle, find_cycle_by_idempotency_key,
  KasEligibleWallet, list_kas_eligible_wallets, new_payout, ensure_payout, plan_rows,
  PlanKasCycleParams, plan_kas_cycle, resume_found,
}
use katpool.KasPayout.Cycle.Resume.{finish_plan-read}
use katpool.KasPayout.Engine.Tick.{WellSent, fresh-WellSent}
use katpool.KasPayout.Execute.Intent.{NoneOwed, is_among, paid_ids}

abbrev pub Sent : Type 0
Sent = List (List PayoutRecipient × ℕ)

abbrev pub DbWellSent : Sent → Db → Type 0
DbWellSent sent db = WellSent sent db.rows db.last_payout_id

create_cycle-rows :
    (kind : PayoutKind) (a b : ℕ) (db : Db) {r : Db × PayoutCycle}
    → create_cycle kind a b db ≡ ok r
    → (r.0.rows ≡ db.rows) × (r.0.last_payout_id ≡ db.last_payout_id)
unfolding create_cycle
create_cycle-rows kind a b db h =
    elim (Option-cases (find_cycle_by_idempotency_key (window_key kind a b) db)) [
      | inl e ↦ ground (arith, h, e)
      | inr (c, e) ↦ ground (arith, h, e)
    ]

ensure_payout-WellSent :
    (cycle_id wallet_id : ℕ) (amount : ℤ) (sent : Sent) (db : Db) {db' : Db}
    → ensure_payout cycle_id wallet_id amount db ≡ ok db'
    → DbWellSent sent db
    → DbWellSent sent db'
unfolding ensure_payout
ensure_payout-WellSent cycle_id wallet_id amount sent db {db'} h w =
    let fresh = new_payout (suc db.last_payout_id) cycle_id wallet_id (pos_part amount) in
    let there = any (λ p. p.of_cycle == cycle_id && p.wallet_id == wallet_id) db.rows in
    elim (Bool-cases (ltb_ℤ (pos 0) amount)) [
      | inr e ↦ absurd (ground (arith, h, e))
      | inl e ↦ elim (Bool-cases there) [
        | inl e' ↦ let q : db ≡ db' = ground (arith, h, e, e') in subst (DbWellSent sent) q w
        | inr e' ↦
            let q : with_rows (db.rows ++ fresh ∷ []) (suc db.last_payout_id) db ≡ db' =
              ground (arith, h, e, e') in
            subst (DbWellSent sent) q (fresh-WellSent sent db.rows db.last_payout_id fresh refl w)
      ]
    ]

plan_rows-WellSent :
    (id : ℕ) (ws : List KasEligibleWallet) (total recipients : ℕ) (sent : Sent) (db : Db)
    {r : Db × ℕ × ℕ}
    → plan_rows id ws total recipients db ≡ ok r
    → DbWellSent sent db
    → DbWellSent sent r.0
unfolding plan_rows
plan_rows-WellSent id [] total recipients sent db h w =
    subst (λ r. DbWellSent sent r.0) (ok_inj h) w
plan_rows-WellSent id (x ∷ ws) total recipients sent db h w =
    let (db1, e, k) = >>=-eq-ok (ensure_payout id x.eligible_id x.payable_sompi db) _ h in
    plan_rows-WellSent id ws _ _ sent db1 k
      (ensure_payout-WellSent id x.eligible_id x.payable_sompi sent db e w)

list_for_cycle-All :
    (P : Payout → Type 0) (id : ℕ) (rows : List Payout)
    → All P rows
    → All P (list_for_cycle id rows)
unfolding list_for_cycle
list_for_cycle-All P id rows all = sort_by-All _ P _ (retain-All P (λ p. p.of_cycle == id) rows all)

-- no transaction that was sent pays the row with this id
abbrev pub Unpaid : Sent → ℕ → Type 0
Unpaid sent i = All (λ s. is_among (paid_ids s.0) i ≡ false) sent

-- the row's id has been given out, and if the row is to be signed, nothing sent pays it
abbrev pub RowReady : Sent → ℕ → Payout → Type 0
RowReady sent last p = (p.id ≤ last) × (is_planned p.status ≡ true → Unpaid sent p.id)

rows-RowReady :
    (sent : Sent) (rows : List Payout) (last : ℕ)
    → WellSent sent rows last
    → All (RowReady sent last) rows
rows-RowReady sent rows last w = both rows w.rows_given (unpaid sent w.covered)
  where
    none_sent : (rows : List Payout) → All (λ p. is_planned p.status ≡ true → Unpaid [] p.id) rows
    none_sent [] = tt
    none_sent (p ∷ ps) = ((λ e. tt), none_sent ps)

    with_one :
        (s : List PayoutRecipient × ℕ) (ss : Sent) (rows : List Payout)
        → NoneOwed (paid_ids s.0) rows
        → All (λ p. is_planned p.status ≡ true → Unpaid ss p.id) rows
        → All (λ p. is_planned p.status ≡ true → Unpaid (s ∷ ss) p.id) rows
    with_one s ss [] owed k = tt
    with_one s ss (p ∷ ps) owed k = (
      (λ e. (
        elim (Bool-cases (is_among (paid_ids s.0) p.id)) [
          | inl m ↦ let f = owed.0 m in absurd (ground (arith, e, f))
          | inr m ↦ m
        ],
        k.0 e,
      )),
      with_one s ss ps owed.1 k.1,
    )

    unpaid :
        (sent : Sent)
        → All (λ s. NoneOwed (paid_ids s.0) rows) sent
        → All (λ p. is_planned p.status ≡ true → Unpaid sent p.id) rows
    unpaid [] c = none_sent rows
    unpaid (s ∷ ss) c = with_one s ss rows c.0 (unpaid ss c.1)

    both :
        (rows : List Payout)
        → All (λ p. p.id ≤ last) rows
        → All (λ p. is_planned p.status ≡ true → Unpaid sent p.id) rows
        → All (RowReady sent last) rows
    both [] g u = tt
    both (p ∷ ps) g u = ((g.0, u.0), both ps g.1 u.1)

-- a database that is well sent, with a cycle of which the rows are ready
abbrev pub Ready : Sent → Db × CycleState → Type 0
Ready sent r = DbWellSent sent r.0 × All (RowReady sent r.0.last_payout_id) r.1.payouts

plan_kas_cycle-Ready :
    (params : PlanKasCycleParams) (sent : Sent) (db : Db) {r : Db × CycleState}
    → plan_kas_cycle params db ≡ ok r
    → DbWellSent sent db
    → Ready sent r
unfolding plan_kas_cycle
plan_kas_cycle-Ready params sent db h w =
    let (created, e, k) =
      >>=-eq-ok (create_cycle kas params.window_start params.window_end db) _ h in
    let (rows, last) = create_cycle-rows kas params.window_start params.window_end db e in
    let w' : DbWellSent sent created.0 = rw (rows, last) w in
    let id = created.1.cycle_id in
    let (pr, e', k') =
      >>=-eq-ok
        (plan_rows id (list_kas_eligible_wallets params.threshold_sompi created.0) 0 0 created.0) _
        k in
    let w'' =
      plan_rows-WellSent id (list_kas_eligible_wallets params.threshold_sompi created.0) 0 0 sent
        created.0 e' w' in
    let (c, f, same) = finish_plan-read id pr.0 pr.1 pr.2 k' in
    subst (Ready sent) (sym same) (
      w'',
      list_for_cycle-All (RowReady sent pr.0.last_payout_id) id pr.0.rows
          (rows-RowReady sent pr.0.rows pr.0.last_payout_id w''),
    )

pub resume_found-Ready :
    (params : PlanKasCycleParams) (found : Option PayoutCycle) (sent : Sent) (db : Db)
    {r : Db × CycleState}
    → resume_found params db found ≡ ok r
    → DbWellSent sent db
    → Ready sent r
unfolding resume_found
resume_found-Ready params (some cycle) sent db h w = subst (Ready sent) (ok_inj h) (
  w,
  list_for_cycle-All (RowReady sent db.last_payout_id) cycle.cycle_id db.rows
      (rows-RowReady sent db.rows db.last_payout_id w),
)
resume_found-Ready params none sent db h w =
    let (p, e, k) = >>=-eq-ok (plan_kas_cycle params db) _ h in
    subst (Ready sent) (ok_inj k) (plan_kas_cycle-Ready params sent db e w)
