-- ===== src/KasPayout/Repo/Lifecycle.antt =====
-- The lifecycle of a payout row under the updates of crates/katpool-db/src/repo/payout.rs.
use katpool.Base.{
  ℕ, ◌≡◌, refl, ◌∙◌, ◌⊎◌, inl, inr, Bool, true, false, List, [], ◌∷◌, Option, none, some,
  Bool-cases, arith,
}
use katpool.KasPayout.Rows.{Payout, confirmed, failed, update_where}
use katpool.KasPayout.Repo.{
  can_submit, coalesce, mark_payout_submitted, mark_payout_accepted, mark_payout_confirmed,
  mark_payout_failed, confirm_krc20_payout_once, record_krc20_commit_hash, record_krc20_reveal_hash,
}

-- The statements that update a payout row, of either kind of cycle.
pub data Update : Type 0 where
  to_submitted : ℕ → ℕ → Update
  to_accepted : ℕ → ℕ → Update
  to_confirmed : ℕ → Update
  to_failed : ℕ → ℕ → Update
  to_credited : ℕ → Update
  to_committed : ℕ → ℕ → Update
  to_revealed : ℕ → ℕ → Update

abbrev pub apply_update : Update → List Payout → List Payout
apply_update (to_submitted id h) = mark_payout_submitted id h
apply_update (to_accepted id daa) = mark_payout_accepted id daa
apply_update (to_confirmed id) = mark_payout_confirmed id
apply_update (to_failed id reason) = mark_payout_failed id reason
apply_update (to_credited id) = λ ps. (confirm_krc20_payout_once id ps).0
apply_update (to_committed id h) = record_krc20_commit_hash id h
apply_update (to_revealed id h) = record_krc20_reveal_hash id h

abbrev pub apply_updates : List Update → List Payout → List Payout
apply_updates [] ps = ps
apply_updates (u ∷ us) ps = apply_updates us (apply_update u ps)

-- What the later row of a payout owes to the earlier one: the same payout of the same amount; a
-- confirmation is final, and a failure but for the crediting of a completed transfer; an accepting height
-- stays; and a row that has left `planned` and `submitted` stays away from them and keeps its hash.
pub record Later (p q : Payout) : Type 0 where
  pub same_id : q.id ≡ p.id
  pub same_cycle : q.of_cycle ≡ p.of_cycle
  pub same_wallet : q.wallet_id ≡ p.wallet_id
  pub same_amount : q.amount_sompi ≡ p.amount_sompi
  pub confirmed_final : p.status ≡ confirmed → q.status ≡ confirmed
  pub failed_or_confirmed : p.status ≡ failed → (q.status ≡ failed) ⊎ (q.status ≡ confirmed)
  pub height_stays : (d : ℕ) → p.accepted_daa_score ≡ some d → q.accepted_daa_score ≡ some d
  pub hash_stays : can_submit p.status ≡ false → q.tx_hash ≡ p.tx_hash
  pub never_back : can_submit p.status ≡ false → can_submit q.status ≡ false

abbrev pub AllLater : List Payout → List Payout → Type 0
AllLater [] [] = Unit
AllLater (p ∷ ps) (q ∷ qs) = Later p q × AllLater ps qs
AllLater _ _ = ⊥

Later-refl : (p : Payout) → Later p p
Later-refl p = record {
  same_id = refl;
  same_cycle = refl;
  same_wallet = refl;
  same_amount = refl;
  confirmed_final = λ h. h;
  failed_or_confirmed = λ h. inl h;
  height_stays = λ d h. h;
  hash_stays = λ h. refl;
  never_back = λ h. h;
}

Later-trans : {p q r : Payout} → Later p q → Later q r → Later p r
Later-trans a b = record {
  same_id = b.same_id ∙ a.same_id;
  same_cycle = b.same_cycle ∙ a.same_cycle;
  same_wallet = b.same_wallet ∙ a.same_wallet;
  same_amount = b.same_amount ∙ a.same_amount;
  confirmed_final = λ h. b.confirmed_final (a.confirmed_final h);
  failed_or_confirmed = λ h. elim (a.failed_or_confirmed h) [
    | inl k ↦ b.failed_or_confirmed k
    | inr k ↦ inr (b.confirmed_final k)
  ];
  height_stays = λ d h. b.height_stays d (a.height_stays d h);
  hash_stays = λ h. b.hash_stays (a.never_back h) ∙ a.hash_stays h;
  never_back = λ h. b.never_back (a.never_back h);
}

AllLater-trans : (ps qs rs : List Payout) → AllLater ps qs → AllLater qs rs → AllLater ps rs
AllLater-trans [] [] [] h k = tt
AllLater-trans (p ∷ ps) (q ∷ qs) (r ∷ rs) h k =
    (Later-trans h.0 k.0, AllLater-trans ps qs rs h.1 k.1)
AllLater-trans [] (q ∷ qs) _ h k = absurd h
AllLater-trans (p ∷ ps) [] _ h k = absurd h
AllLater-trans (p ∷ ps) (q ∷ qs) [] h k = absurd k
AllLater-trans [] [] (r ∷ rs) h k = absurd k

update_where-AllLater :
    (test : Payout → Bool) (set : Payout → Payout)
    → ((p : Payout) → test p ≡ true → Later p (set p))
    → (ps : List Payout) → AllLater ps (update_where test set ps)
update_where-AllLater test set step [] = tt
update_where-AllLater test set step (p ∷ ps) = elim (Bool-cases (test p)) [
  | inl e ↦ (rw (e) (step p e), update_where-AllLater test set step ps)
  | inr e ↦ (rw (e) (Later-refl p), update_where-AllLater test set step ps)
]

AllLater-refl : (ps : List Payout) → AllLater ps ps
AllLater-refl [] = tt
AllLater-refl (p ∷ ps) = (Later-refl p, AllLater-refl ps)

coalesce-stays : (o : Option ℕ) (x d : ℕ) → o ≡ some d → coalesce o x ≡ some d
coalesce-stays none x d h = cc
coalesce-stays (some a) x d h = h

apply_update-AllLater : (u : Update) (ps : List Payout) → AllLater ps (apply_update u ps)
unfolding mark_payout_submitted mark_payout_accepted mark_payout_confirmed mark_payout_failed
    confirm_krc20_payout_once record_krc20_commit_hash record_krc20_reveal_hash
apply_update-AllLater (to_submitted i h) ps =
    update_where-AllLater _ _
      (λ p e. record {
        same_id = refl;
        same_cycle = refl;
        same_wallet = refl;
        same_amount = refl;
        confirmed_final = λ k. absurd (ground arith);
        failed_or_confirmed = λ k. absurd (ground arith);
        height_stays = λ d k. k;
        hash_stays = λ k. absurd (ground arith);
        never_back = λ k. absurd (ground arith);
      })
      ps
apply_update-AllLater (to_accepted i daa) ps =
    update_where-AllLater _ _
      (λ p e. record {
        same_id = refl;
        same_cycle = refl;
        same_wallet = refl;
        same_amount = refl;
        confirmed_final = λ k. absurd (ground arith);
        failed_or_confirmed = λ k. absurd (ground arith);
        height_stays = λ d k. coalesce-stays p.accepted_daa_score daa d k;
        hash_stays = λ k. refl;
        never_back = λ k. refl;
      })
      ps
apply_update-AllLater (to_confirmed i) ps =
    update_where-AllLater _ _
      (λ p e. record {
        same_id = refl;
        same_cycle = refl;
        same_wallet = refl;
        same_amount = refl;
        confirmed_final = λ k. refl;
        failed_or_confirmed = λ k. absurd (ground arith);
        height_stays = λ d k. k;
        hash_stays = λ k. refl;
        never_back = λ k. refl;
      })
      ps
apply_update-AllLater (to_failed i reason) ps =
    update_where-AllLater _ _
      (λ p e. record {
        same_id = refl;
        same_cycle = refl;
        same_wallet = refl;
        same_amount = refl;
        confirmed_final = λ k. absurd (ground arith);
        failed_or_confirmed = λ k. inl refl;
        height_stays = λ d k. k;
        hash_stays = λ k. refl;
        never_back = λ k. refl;
      })
      ps
apply_update-AllLater (to_credited i) ps =
    update_where-AllLater _ _
      (λ p e. record {
        same_id = refl;
        same_cycle = refl;
        same_wallet = refl;
        same_amount = refl;
        confirmed_final = λ k. refl;
        failed_or_confirmed = λ k. inr refl;
        height_stays = λ d k. k;
        hash_stays = λ k. refl;
        never_back = λ k. refl;
      })
      ps
apply_update-AllLater (to_committed i h) ps =
    update_where-AllLater _ _
      (λ p e. record {
        same_id = refl;
        same_cycle = refl;
        same_wallet = refl;
        same_amount = refl;
        confirmed_final = λ k. k;
        failed_or_confirmed = λ k. inl k;
        height_stays = λ d k. k;
        hash_stays = λ k. refl;
        never_back = λ k. k;
      })
      ps
apply_update-AllLater (to_revealed i h) ps =
    update_where-AllLater _ _
      (λ p e. record {
        same_id = refl;
        same_cycle = refl;
        same_wallet = refl;
        same_amount = refl;
        confirmed_final = λ k. k;
        failed_or_confirmed = λ k. inl k;
        height_stays = λ d k. k;
        hash_stays = λ k. refl;
        never_back = λ k. k;
      })
      ps

-- Whatever sequence of update statements reaches the table, of KAS and of KRC-20 payouts, no row is added
-- or lost, and of each row: its payout, cycle, wallet and amount stay; a confirmation is final; a failed
-- row stays failed or is confirmed; a recorded accepting height stays; and a row that has left `planned`
-- and `submitted` never returns to them and keeps its transaction hash.
pub apply_updates-AllLater :
    (us : List Update) (ps : List Payout) → AllLater ps (apply_updates us ps)
apply_updates-AllLater [] ps = AllLater-refl ps
apply_updates-AllLater (u ∷ us) ps =
    AllLater-trans ps (apply_update u ps) (apply_updates us (apply_update u ps))
      (apply_update-AllLater u ps) (apply_updates-AllLater us (apply_update u ps))
