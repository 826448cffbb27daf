-- ===== src/KasPayout/ConfirmCycle.antt =====
-- The confirmation pass (`confirm_cycle` of payout-kas/src/execute.rs): the updates that it writes,
-- in their order, and its report or the error that stops it.
pub mod Evidence
use katpool.Base.{
  ℕ, ◌+◌, ◌==◌, Bool, true, false, ◌&&◌, ◌||◌, if◌then◌else◌, leb, Option, none, some, List, [],
  ◌∷◌, ◌++◌, retain, is_empty, Result, ok, err, ◌>>=◌,
}
use katpool.Base.Word.{i64_max}
use katpool.Mass.Types.{TreasuryUtxo}
use katpool.KasPayout.Rows.{Payout}
use katpool.KasPayout.Repo.Lifecycle.{Update, to_accepted, to_confirmed}
use katpool.KasPayout.Cycle.{CycleState, is_in_flight}
use katpool.KasPayout.Confirm.{
  ConfirmationState, pending_in_mempool, accepted_on_chain, confirmed_by_depth, unknown, or_else,
  classify_confirmation,
}
use katpool.KasPayout.Execute.{ExecuteError}

abbrev pub is_some : Option ℕ → Bool
is_some none = false
is_some (some a) = true

pub record ConfirmReport : Type 0 where
  pub report_accepted : ℕ
  pub report_confirmed : ℕ
  pub report_pending : ℕ
  pub report_unknown : ℕ

abbrev pub no_report : ConfirmReport
no_report = record {
  report_accepted = 0;
  report_confirmed = 0;
  report_pending = 0;
  report_unknown = 0;
}

-- the map from txids to the heights of the coins that they created; a later entry replaces one
unfoldable pub change_daa : ℕ → List TreasuryUtxo → Option ℕ
change_daa txid [] = none
change_daa txid (c ∷ cs) =
    or_else (change_daa txid cs)
      (if c.outpoint.transaction_id == txid then some c.entry.block_daa_score else none)

-- on the wire, with a transaction
unfoldable pub in_flight_of : CycleState → List Payout
in_flight_of cycle = retain (λ p. is_in_flight p.status && is_some p.tx_hash) cycle.payouts

-- `i64::try_from(v).ok()`, or 0
abbrev pub height_column : Option ℕ → ℕ
height_column none = 0
height_column (some v) = if leb v i64_max then v else 0

-- what a state writes for a row, and its place in the report
abbrev pub write_state : ℕ → Option ℕ → ConfirmationState → List Update
write_state id height pending_in_mempool = []
write_state id height unknown = []
write_state id height accepted_on_chain = to_accepted id (height_column height) ∷ []
write_state id height confirmed_by_depth = to_confirmed id ∷ []

abbrev pub count_state : ConfirmationState → ConfirmReport → ConfirmReport
count_state state r = record {
  report_accepted = r.report_accepted + elim state [ accepted_on_chain ↦ 1 | _ ↦ 0 ];
  report_confirmed = r.report_confirmed + elim state [ confirmed_by_depth ↦ 1 | _ ↦ 0 ];
  report_pending = r.report_pending + elim state [ pending_in_mempool ↦ 1 | _ ↦ 0 ];
  report_unknown = r.report_unknown + elim state [ unknown ↦ 1 | _ ↦ 0 ];
}

module _ (transaction_in_mempool : ℕ → Result ExecuteError Bool) (virtual_daa : ℕ)
    (coins : List TreasuryUtxo) where
  -- the state of one row: the mempool is only asked when no accepting height is known
  unfoldable pub state_of : Payout → ℕ → Result ExecuteError ConfirmationState
  unfolding change_daa classify_confirmation
  state_of p txid =
      let on_chain = change_daa txid coins in
      let known = is_some on_chain || is_some p.accepted_daa_score in
      (if known then ok false else transaction_in_mempool txid) >>= λ in_mempool. ok (
        classify_confirmation (record {
          virtual_daa_score = virtual_daa;
          in_mempool = in_mempool;
          change_block_daa_score = on_chain;
          recorded_accept_daa = p.accepted_daa_score;
        }))

  unfoldable pub confirm_rows :
      List Payout → ConfirmReport → List Update × Result ExecuteError ConfirmReport
  unfolding state_of
  confirm_rows [] report = ([], ok report)
  confirm_rows (p ∷ ps) report = elim (p.tx_hash) [
    | none ↦ confirm_rows ps report
    | some txid ↦ elim (state_of p txid) [
      | err e ↦ ([], err e)
      | ok state ↦
          let rest = confirm_rows ps (count_state state report) in
          (
            write_state p.id (or_else (change_daa txid coins) p.accepted_daa_score) state ++ rest.0,
            rest.1,
          )
    ]
  ]

unfoldable pub confirm_cycle :
    (ℕ → Result ExecuteError Bool)
    → Result ExecuteError ℕ
    → Result ExecuteError (List TreasuryUtxo)
    → CycleState
    → List Update × Result ExecuteError ConfirmReport
unfolding in_flight_of confirm_rows
confirm_cycle mempool virtual_daa_score treasury_utxos cycle =
    if is_empty (in_flight_of cycle) then ([], ok no_report) else elim virtual_daa_score [
      | err e ↦ ([], err e)
      | ok virtual_daa ↦ elim treasury_utxos [
        | err e ↦ ([], err e)
        | ok coins ↦ confirm_rows mempool virtual_daa coins (in_flight_of cycle) no_report
      ]
    ]
