-- ===== src/KasPayout/Engine/Tick.antt =====
-- What the steps of a tick keep (`confirm_cycle_with_utxo_reader`, `reconcile_cycle_status` and
-- `broadcast_cycle` as `run_locked` of payout-kas/src/engine.rs calls them).
use katpool.Base.{
  ℕ, suc, ◌≤◌, ◌≡◌, refl, subst, sym, inl, inr, Bool, true, false, ◌==◌, List, [], ◌∷◌, ◌++◌, All,
  All-map, All-append, Bool-cases, arith,
}
use katpool.Mass.Types.{PayoutRecipient}
use katpool.KasPayout.Rows.{Payout, update_where}
use katpool.KasPayout.Repo.{
  mark_payout_submitted, mark_payout_accepted, mark_payout_confirmed, mark_payout_failed,
  confirm_krc20_payout_once, record_krc20_commit_hash, record_krc20_reveal_hash,
}
use katpool.KasPayout.Repo.Lifecycle.{
  Update, to_submitted, to_accepted, to_confirmed, to_failed, to_credited, to_committed,
  to_revealed, apply_update, apply_updates,
}
use katpool.KasPayout.Cycle.{is_planned}
use katpool.KasPayout.Execute.Intent.{NoneOwed, is_among, paid_ids}

-- What was sent, for the payout table with the last id that its sequence has given out: no row that a
-- sent transaction pays is still to be signed, and the ids in the table, and those that sent
-- transactions pay, have been given out.
pub record WellSent (sent : List (List PayoutRecipient × ℕ)) (rows : List Payout) (last : ℕ)
    : Type 0 where
  pub covered : All (λ s. NoneOwed (paid_ids s.0) rows) sent
  pub rows_given : All (λ p. p.id ≤ last) rows
  pub paid_given : All (λ s. All (λ i. i ≤ last) (paid_ids s.0)) sent

-- A statement that moves rows neither back to `planned` nor to another id.
update_where-WellSent :
    (test : Payout → Bool) (set : Payout → Payout)
    → ((p : Payout) → (set p).id ≡ p.id)
    → ((p : Payout) → is_planned p.status ≡ false → is_planned (set p).status ≡ false)
    → (sent : List (List PayoutRecipient × ℕ)) (rows : List Payout) (last : ℕ)
    → WellSent sent rows last
    → WellSent sent (update_where test set rows) last
update_where-WellSent test set same gone sent rows last w = record {
  covered = All-map (λ s k. owed (paid_ids s.0) rows k) sent w.covered;
  rows_given = given rows w.rows_given;
  paid_given = w.paid_given;
}
  where
    owed :
        (ids : List ℕ) (rows : List Payout)
        → NoneOwed ids rows
        → NoneOwed ids (update_where test set rows)
    owed ids [] k = tt
    owed ids (p ∷ ps) k = (
      elim (Bool-cases (test p)) [
        | inl e ↦ rw (e) (λ m. gone p (k.0 (subst (λ i. is_among ids i ≡ true) (same p) m)))
        | inr e ↦ rw (e) k.0
      ],
      owed ids ps k.1,
    )

    given :
        (rows : List Payout)
        → All (λ p. p.id ≤ last) rows
        → All (λ p. p.id ≤ last) (update_where test set rows)
    given [] k = tt
    given (p ∷ ps) k = (
      elim (Bool-cases (test p)) [
        | inl e ↦ rw (e) (subst (λ i. i ≤ last) (sym (same p)) k.0)
        | inr e ↦ rw (e) k.0
      ],
      given ps k.1,
    )

apply_update-WellSent :
    (u : Update) (sent : List (List PayoutRecipient × ℕ)) (rows : List Payout) (last : ℕ)
    → WellSent sent rows last
    → WellSent sent (apply_update u rows) last
unfolding mark_payout_submitted mark_payout_accepted mark_payout_confirmed mark_payout_failed
    confirm_krc20_payout_once record_krc20_commit_hash record_krc20_reveal_hash
apply_update-WellSent (to_submitted i h) = update_where-WellSent _ _ (λ p. refl) (λ p k. refl)
apply_update-WellSent (to_accepted i h) = update_where-WellSent _ _ (λ p. refl) (λ p k. refl)
apply_update-WellSent (to_confirmed i) = update_where-WellSent _ _ (λ p. refl) (λ p k. refl)
apply_update-WellSent (to_failed i h) = update_where-WellSent _ _ (λ p. refl) (λ p k. refl)
apply_update-WellSent (to_credited i) = update_where-WellSent _ _ (λ p. refl) (λ p k. refl)
apply_update-WellSent (to_committed i h) = update_where-WellSent _ _ (λ p. refl) (λ p k. k)
apply_update-WellSent (to_revealed i h) = update_where-WellSent _ _ (λ p. refl) (λ p k. k)

pub apply_updates-WellSent :
    (us : List Update) (sent : List (List PayoutRecipient × ℕ)) (rows : List Payout) (last : ℕ)
    → WellSent sent rows last
    → WellSent sent (apply_updates us rows) last
apply_updates-WellSent [] sent rows last w = w
apply_updates-WellSent (u ∷ us) sent rows last w =
    apply_updates-WellSent us sent (apply_update u rows) last
      (apply_update-WellSent u sent rows last w)

among-fresh : (n : ℕ) (ids : List ℕ) → All (λ i. i ≤ n) ids → is_among ids (suc n) ≡ false
among-fresh n [] h = refl
among-fresh n (i ∷ ids) h =
    let e : (suc n == i) ≡ false = let k = h.0 in ground arith in rw (e) (among-fresh n ids h.1)

-- A new row has an id that no sent transaction pays.
pub fresh-WellSent :
    (sent : List (List PayoutRecipient × ℕ)) (rows : List Payout) (last : ℕ) (p : Payout)
    → p.id ≡ suc last
    → WellSent sent rows last
    → WellSent sent (rows ++ p ∷ []) (suc last)
fresh-WellSent sent rows last p e w = record {
  covered = both sent w.covered w.paid_given;
  rows_given =
      All-append (λ q. q.id ≤ suc last) rows (p ∷ [])
        (All-map (λ q k. omega arith) rows w.rows_given) (omega (arith, e), tt);
  paid_given = All-map (λ s k. All-map (λ i k. omega arith) (paid_ids s.0) k) sent w.paid_given;
}
  where
    both :
        (sent : List (List PayoutRecipient × ℕ))
        → All (λ s. NoneOwed (paid_ids s.0) rows) sent
        → All (λ s. All (λ i. i ≤ last) (paid_ids s.0)) sent
        → All (λ s. NoneOwed (paid_ids s.0) (rows ++ p ∷ [])) sent
    both [] c g = tt
    both (s ∷ ss) c g = (
      All-append (λ q. is_among (paid_ids s.0) q.id ≡ true → is_planned q.status ≡ false) rows
          (p ∷ []) c.0
          (
            (λ m.
                let out : is_among (paid_ids s.0) p.id ≡ false =
                  subst (λ i. is_among (paid_ids s.0) i ≡ false) (sym e)
                    (among-fresh last (paid_ids s.0) g.0) in
                absurd (ground (arith, m, out))),
            tt,
          ),
      both ss c.1 g.1,
    )
