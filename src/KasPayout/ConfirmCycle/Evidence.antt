-- ===== src/KasPayout/ConfirmCycle/Evidence.antt =====
-- What stands behind each update of a confirmation pass (`confirm_cycle` of
-- payout-kas/src/execute.rs).
use katpool.Base.{
  ℕ, ◌≤◌, ◌≡◌, refl, inl, inr, Bool, true, false, ◌||◌, if◌then◌else◌, Option, none, some, List, [],
  ◌∷◌, All, All-append, All-map, is_empty, Result, ok, Result-cases, Option-cases, Bool-cases, leb,
  leb→le, >>=-eq-ok, ok_inj, subst,
}
use katpool.Base.Picked.{Picked, take_it, pass_it, Picked-nil}
use katpool.Base.Word.{add_sat_u64}
use katpool.Mass.Types.{TreasuryUtxo}
use katpool.KasPayout.Rows.{Payout}
use katpool.KasPayout.Repo.Lifecycle.{
  Update, to_submitted, to_accepted, to_confirmed, to_failed, to_credited, to_committed,
  to_revealed,
}
use katpool.KasPayout.Cycle.{CycleState}
use katpool.KasPayout.Confirm.{
  ConfirmationState, pending_in_mempool, accepted_on_chain, confirmed_by_depth, unknown, or_else,
  classify_confirmation, kas_payout_confirmation_daa,
}
use katpool.KasPayout.Execute.{ExecuteError}
use katpool.KasPayout.ConfirmCycle.{
  is_some, ConfirmReport, change_daa, in_flight_of, write_state, count_state, state_of,
  confirm_rows, confirm_cycle, no_report,
}

-- An accepting height of the payout: recorded earlier, or seen on a coin that its transaction made.
abbrev pub AcceptedAt : List TreasuryUtxo → Payout → ℕ → Type 0
AcceptedAt coins p d =
    (txid : ℕ) × (p.tx_hash ≡ some txid)
    × (or_else p.accepted_daa_score (change_daa txid coins) ≡ some d)

-- A row of the list that the update is about, with an accepting height that has the depth it needs.
abbrev pub AcceptedRow : ℕ → List TreasuryUtxo → List Payout → ℕ → ℕ → Type 0
AcceptedRow virtual_daa coins rows id depth =
    (p : Payout) × Picked (p ∷ []) rows
    × (p.id ≡ id)
    × (d : ℕ) × AcceptedAt coins p d
    × (add_sat_u64 d depth ≤ virtual_daa)

abbrev pub Justified : ℕ → List TreasuryUtxo → List Payout → Update → Type 0
Justified virtual_daa coins rows (to_confirmed id) =
    AcceptedRow virtual_daa coins rows id kas_payout_confirmation_daa
Justified virtual_daa coins rows (to_accepted id daa) =
    (p : Payout) × Picked (p ∷ []) rows × (p.id ≡ id) × (d : ℕ) × AcceptedAt coins p d
Justified virtual_daa coins rows _ = ⊥

module _ (mempool : ℕ → Result ExecuteError Bool) (virtual_daa : ℕ)
    (coins : List TreasuryUtxo) where
  -- What a state says of the accepting height.
  abbrev Shows : ConfirmationState → Option ℕ → Type 0
  Shows confirmed_by_depth height =
      (d : ℕ) × (height ≡ some d) × (add_sat_u64 d kas_payout_confirmation_daa ≤ virtual_daa)
  Shows accepted_on_chain height = (d : ℕ) × (height ≡ some d)
  Shows pending_in_mempool height = Unit
  Shows unknown height = Unit

  by_depth :
      (deep : Bool) (d : ℕ)
      → (deep ≡ true → add_sat_u64 d kas_payout_confirmation_daa ≤ virtual_daa)
      → Shows (if deep then confirmed_by_depth else accepted_on_chain) (some d)
  by_depth true d h = (d, refl, h refl)
  by_depth false d h = (d, refl)

  classify-Shows :
      (seen : Bool) (on_chain recorded : Option ℕ)
      → Shows
          (classify_confirmation (record {
            virtual_daa_score = virtual_daa;
            in_mempool = seen;
            change_block_daa_score = on_chain;
            recorded_accept_daa = recorded;
          }))
          (or_else recorded on_chain)
  unfolding classify_confirmation
  classify-Shows seen on_chain (some d) =
      by_depth (leb (add_sat_u64 d kas_payout_confirmation_daa) virtual_daa) d (λ e. leb→le _ _ e)
  classify-Shows seen (some d) none =
      by_depth (leb (add_sat_u64 d kas_payout_confirmation_daa) virtual_daa) d (λ e. leb→le _ _ e)
  classify-Shows true none none = tt
  classify-Shows false none none = tt

  later-row :
      (p : Payout) (ps : List Payout) (u : Update)
      → Justified virtual_daa coins ps u
      → Justified virtual_daa coins (p ∷ ps) u
  later-row p ps (to_confirmed id) (q, k, e, d, a, deep) = (q, pass_it k, e, d, a, deep)
  later-row p ps (to_accepted id daa) (q, k, e, d, a) = (q, pass_it k, e, d, a)
  later-row p ps (to_submitted id h) k = k
  later-row p ps (to_failed id reason) k = k
  later-row p ps (to_credited id) k = k
  later-row p ps (to_committed id h) k = k
  later-row p ps (to_revealed id h) k = k

  state_of-Shows :
      (p : Payout) (txid : ℕ) {state : ConfirmationState}
      → state_of mempool virtual_daa coins p txid ≡ ok state
      → Shows state (or_else p.accepted_daa_score (change_daa txid coins))
  unfolding state_of
  state_of-Shows p txid h =
      let height = or_else p.accepted_daa_score (change_daa txid coins) in
      let (seen, asked, e) =
        >>=-eq-ok
          (if is_some (change_daa txid coins) || is_some p.accepted_daa_score
            then ok false
            else mempool txid)
          _ h in
      subst (λ s. Shows s height) (ok_inj e)
        (classify-Shows seen (change_daa txid coins) p.accepted_daa_score)

  write_state-Justified :
      (p : Payout) (ps : List Payout) (txid : ℕ) (height : Option ℕ) (state : ConfirmationState)
      → p.tx_hash ≡ some txid
      → Shows state (or_else p.accepted_daa_score (change_daa txid coins))
      → All (Justified virtual_daa coins (p ∷ ps)) (write_state p.id height state)
  write_state-Justified p ps txid height pending_in_mempool h k = tt
  write_state-Justified p ps txid height unknown h k = tt
  write_state-Justified p ps txid height accepted_on_chain h (d, e) =
      ((p, take_it (Picked-nil ps), refl, d, (txid, h, e)), tt)
  write_state-Justified p ps txid height confirmed_by_depth h (d, e, deep) =
      ((p, take_it (Picked-nil ps), refl, d, (txid, h, e), deep), tt)

  confirm_rows-Justified :
      (rows : List Payout) (report : ConfirmReport)
      → All
          (Justified virtual_daa coins rows)
          (confirm_rows mempool virtual_daa coins rows report).0
  unfolding confirm_rows
  confirm_rows-Justified [] report = tt
  confirm_rows-Justified (p ∷ ps) report = elim (Option-cases (p.tx_hash)) [
    | inl e ↦ simp (e, confirm_rows) (All-map (later-row p ps) _ (confirm_rows-Justified ps report))
    | inr (txid, e) ↦ elim (Result-cases (state_of mempool virtual_daa coins p txid)) [
      | inl (failure, k) ↦ simp (e, k, confirm_rows) tt
      | inr (state, k) ↦
          simp (e, k, confirm_rows)
            (All-append (Justified virtual_daa coins (p ∷ ps))
              (write_state p.id (or_else (change_daa txid coins) p.accepted_daa_score) state) _
              (write_state-Justified p ps txid
                (or_else (change_daa txid coins) p.accepted_daa_score) state e
                (state_of-Shows p txid k))
              (All-map (later-row p ps) _ (confirm_rows-Justified ps (count_state state report))))
    ]
  ]

-- A confirmation pass never fails a row and never sends one back to `submitted`. It accepts only a
-- row of the cycle that is on the wire and whose transaction has a known accepting height, and
-- confirms one only when that height is at least the confirmation depth below the node's score. This
-- holds of every update that was written, also when the pass ends in an error.
pub confirm_cycle-Justified :
    (mempool : ℕ → Result ExecuteError Bool) (virtual_daa : ℕ) (coins : List TreasuryUtxo)
    (cycle : CycleState)
    → All
        (Justified virtual_daa coins (in_flight_of cycle))
        (confirm_cycle mempool (ok virtual_daa) (ok coins) cycle).0
unfolding confirm_cycle
confirm_cycle-Justified mempool virtual_daa coins cycle =
    elim (Bool-cases (is_empty (in_flight_of cycle))) [
      | inl e ↦ rw (e, confirm_cycle) tt
      | inr e ↦
          rw (e, confirm_cycle)
            (confirm_rows-Justified mempool virtual_daa coins (in_flight_of cycle) no_report)
    ]
