-- ===== src/Krc20Payout/Credit/Balance.antt =====
-- What is paid and what is confirmed move together (payout-krc20/src/cycle.rs).
use katpool.Base.{
  ℕ, ◌+◌, ◌≤◌, ◌≡◌, refl, sym, ◌∙◌, ap, subst, ◌==◌, Bool, true, false, not, ◌&&◌, if◌then◌else◌,
  leb, inl, inr, Option, none, some, List, [], ◌∷◌, ◌++◌, any, find?, sum_by, Result, ok, ok_or,
  ok_or-ok, >>=-eq-ok, ok_inj, Result-cases, Bool-cases, arith,
}
use katpool.KasPayout.Rows.{PayoutStatus, confirmed, Payout}
use katpool.KasPayout.Repo.{confirmable, confirm_krc20_payout_once, can_fail, with_status}
use katpool.Accountant.Ledger.{NachoRebate}
use katpool.Krc20Payout.Credit.{
  CreditError, row_not_found, Krc20PendingTransfer, list_completed, get_payout, confirmable,
  confirm_krc20_payout_once, mark_paid, CreditReport, Db, write_credit, credit_one, count_credit,
  credit_all, credit_completed_transfers,
}

abbrev pub paid_of : ℕ → List NachoRebate → ℕ
paid_of wallet = sum_by (λ r. if r.rebate_wallet == wallet then r.paid_sompi else 0)

abbrev pub is_confirmed : PayoutStatus → Bool
is_confirmed s = not (can_fail s)

abbrev pub confirmed_of : ℕ → List Payout → ℕ
confirmed_of wallet =
    sum_by (λ p. if p.wallet_id == wallet && is_confirmed p.status then p.amount_sompi else 0)

abbrev pub rows_of_id : ℕ → List Payout → ℕ
rows_of_id id = sum_by (λ p. if p.id == id then 1 else 0)

-- the id is a key
abbrev pub HasKey : List Payout → Type 0
HasKey payouts = (id : ℕ) → rows_of_id id payouts ≤ 1

mark_paid-paid_of :
    (w wallet delta : ℕ) (rs : List NachoRebate) {out : List NachoRebate}
    → mark_paid wallet delta rs ≡ ok out
    → paid_of w out ≡ paid_of w rs + (if wallet == w then delta else 0)
unfolding mark_paid
mark_paid-paid_of w wallet delta [] h = absurd cc
mark_paid-paid_of w wallet delta (r ∷ rs) {out} h = elim (Bool-cases (r.rebate_wallet == wallet)) [
  | inl here ↦ elim (Bool-cases (leb (r.paid_sompi + delta) r.accrued_sompi)) [
    | inl fits ↦
        let now : record r { paid_sompi = r.paid_sompi + delta } ∷ rs ≡ out =
          ok_inj (sym (rw (here, fits, mark_paid) refl) ∙ h) in
        subst (λ o. paid_of w o ≡ paid_of w (r ∷ rs) + (if wallet == w then delta else 0)) now
          (ground (arith, here))
    | inr above ↦ absurd (ground (arith, here, above, h))
  ]
  | inr other ↦ elim (Result-cases (mark_paid wallet delta rs)) [
    | inl (e, fails) ↦ absurd (ground (arith, other, fails, h))
    | inr (rest, done) ↦
        let now : r ∷ rest ≡ out = ok_inj (sym (rw (other, done, mark_paid) refl) ∙ h) in
        subst (λ o. paid_of w o ≡ paid_of w (r ∷ rs) + (if wallet == w then delta else 0)) now
          (ground (arith, mark_paid-paid_of w wallet delta rs done))
  ]
]

confirm_row : Payout → Payout
confirm_row p = with_status confirmed p.tx_hash p.accepted_daa_score p.failure_reason p

absent :
    (id w : ℕ) (payouts : List Payout)
    → rows_of_id id payouts ≡ 0
    → (confirmed_of w (confirm_krc20_payout_once id payouts).0 ≡ confirmed_of w payouts)
      × (any (confirmable id) payouts ≡ false)
unfolding confirm_krc20_payout_once
absent id w [] h = (refl, refl)
absent id w (p ∷ ps) h = ground (arith, absent id w ps)

same_rows :
    (id i : ℕ) (payouts : List Payout)
    → rows_of_id i (confirm_krc20_payout_once id payouts).0 ≡ rows_of_id i payouts
unfolding confirm_krc20_payout_once
same_rows id i [] = refl
same_rows id i (p ∷ ps) = ground (arith, same_rows id i ps)

confirm-confirmed_of :
    (id w : ℕ) (payouts : List Payout) (row : Payout)
    → rows_of_id id payouts ≤ 1
    → find? (λ p. p.id == id) payouts ≡ some row
    → any (confirmable id) payouts ≡ true
    → confirmed_of w (confirm_krc20_payout_once id payouts).0
      ≡ confirmed_of w payouts + (if row.wallet_id == w then row.amount_sompi else 0)
unfolding confirm_krc20_payout_once
confirm-confirmed_of id w [] row key found changed = absurd cc
confirm-confirmed_of id w (p ∷ ps) row key found changed = elim (Bool-cases (p.id == id)) [
  | inl here ↦
      let gone : rows_of_id id ps ≡ 0 = ground (arith, key, here) in
      let at : p ≡ row = ground (arith, found, here) in
      let (kept, no_other) = absent id w ps gone in
      let open_row : can_fail p.status ≡ true = ground (arith, changed, here, no_other) in
      rw (here, open_row, kept, sym at) (ground (arith, open_row))
  | inr other ↦ ground (arith, other, confirm-confirmed_of id w ps row)
]

-- the two sums of a wallet move by the same
abbrev pub MovesTogether : Db → Db → Type 0
MovesTogether before after =
    (w : ℕ)
    → paid_of w after.rebates + confirmed_of w before.payouts
      ≡ paid_of w before.rebates + confirmed_of w after.payouts

abbrev committed_with :
    ℕ → ℕ → Db → List Payout → List NachoRebate → Result CreditError (Db × Option ℕ)
committed_with id amount db payouts rebates =
    ok (record { payouts = payouts; rebates = rebates; audit = db.audit ++ (id ∷ []) }, some amount)

write_credit-MovesTogether :
    (id : ℕ) (db : Db) (row : Payout) {after : Db} {outcome : Option ℕ}
    → HasKey db.payouts
    → find? (λ p. p.id == id) db.payouts ≡ some row
    → write_credit row.wallet_id row.amount_sompi id
        (confirm_krc20_payout_once id db.payouts).0
        db
        (any (confirmable id) db.payouts)
      ≡ ok (after, outcome)
    → MovesTogether db after × HasKey after.payouts
write_credit-MovesTogether id db row {after} {outcome} key found h =
    elim (Bool-cases (any (confirmable id) db.payouts)) [
      | inr settled ↦
          let rolled_back : ◌≡◌ {A = Result CreditError (Db × Option ℕ)} (ok (db, none))
              (ok (after, outcome)) =
            subst
              (λ c.
                write_credit row.wallet_id row.amount_sompi id
                  (confirm_krc20_payout_once id db.payouts).0 db c
                ≡ ok (after, outcome))
              settled h in
          subst (λ d. MovesTogether db d × HasKey d.payouts) (ap (λ x. x.0) (ok_inj rolled_back))
            ((λ w. refl), key)
      | inl changed ↦
          let payouts = (confirm_krc20_payout_once id db.payouts).0 in
          let (rebates, paid, committed) =
            >>=-eq-ok (mark_paid row.wallet_id row.amount_sompi db.rebates)
              (committed_with id row.amount_sompi db payouts)
              (subst
                (λ c.
                  write_credit row.wallet_id row.amount_sompi id
                    (confirm_krc20_payout_once id db.payouts).0 db c
                  ≡ ok (after, outcome))
                changed h) in
          subst (λ d. MovesTogether db d × HasKey d.payouts) (ap (λ x. x.0) (ok_inj committed))
            (
              (λ w. omega (
                arith,
                mark_paid-paid_of w row.wallet_id row.amount_sompi db.rebates paid,
                confirm-confirmed_of id w db.payouts row (key id) found changed,
              )),
              λ i. subst (λ n. n ≤ 1) (sym (same_rows id i db.payouts)) (key i),
            )
    ]

credit_one-MovesTogether :
    (id : ℕ) (db : Db) {after : Db} {outcome : Option ℕ}
    → HasKey db.payouts
    → credit_one id db ≡ ok (after, outcome)
    → MovesTogether db after × HasKey after.payouts
unfolding credit_one get_payout confirm_krc20_payout_once
credit_one-MovesTogether id db {after} {outcome} key h =
    let (row, got, wrote) =
      >>=-eq-ok (ok_or (find? (λ p. p.id == id) db.payouts) row_not_found)
        (λ row.
          write_credit row.wallet_id row.amount_sompi id (confirm_krc20_payout_once id db.payouts).0
            db (any (confirmable id) db.payouts))
        h in
    write_credit-MovesTogether id db row key (ok_or-ok _ row_not_found got) wrote

credit_all-MovesTogether :
    (ts : List Krc20PendingTransfer) (report : CreditReport) (db : Db)
    → HasKey db.payouts
    → MovesTogether db (credit_all ts report db).0
unfolding credit_all
credit_all-MovesTogether [] report db key w = refl
credit_all-MovesTogether (t ∷ rest) report db key w =
    elim (Result-cases (credit_one t.payout_id db)) [
      | inl (e, fails) ↦ rw (fails, credit_all) refl
      | inr ((after, outcome), done) ↦
          let (moves, key') = credit_one-MovesTogether t.payout_id db key done in
          rw (done, credit_all)
            (omega (
              arith,
              moves w,
              credit_all-MovesTogether rest (count_credit outcome report) after key' w,
            ))
    ]

-- Each confirmed payout is paid once. Over a pass, also one that ends in an error, what a wallet has been
-- paid grows by just the amounts of its payouts that become confirmed, whichever transfers have completed
-- and however often they have been seen before; for payouts with distinct ids.
pub credit_completed_transfers-MovesTogether :
    (limit : ℕ) (transfers : List Krc20PendingTransfer) (db : Db) (wallet : ℕ)
    → HasKey db.payouts
    → let after = (credit_completed_transfers limit transfers db).0 in
      paid_of wallet after.rebates + confirmed_of wallet db.payouts
      ≡ paid_of wallet db.rebates + confirmed_of wallet after.payouts
unfolding credit_completed_transfers
credit_completed_transfers-MovesTogether limit transfers db wallet key =
    credit_all-MovesTogether (list_completed limit transfers) _ db key wallet
