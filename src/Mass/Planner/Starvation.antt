-- ===== src/Mass/Planner/Starvation.antt =====
-- How far the planner widens its funding set (`build_one_batch` of
-- crates/katpool-storagemass/src/planner.rs).
use katpool.Base.{
  ℕ, zero, suc, ◌<◌, ◌≡◌, refl, ap, leb, List, [], ◌∷◌, arith, Option, none, max, ◌*◌, All, All-map,
  retain-All, retain,
}
use katpool.Base.Bag.{sort_by-All}
use katpool.Base.Float.{Float}
use katpool.Base.Loop.{iterate}
use katpool.Base.Word.{u64_max}
use katpool.Mass.Types.{TreasuryUtxo, PayoutRecipient}
use katpool.Mass.Fee.{FeeRate}
use katpool.Mass.Evaluator.{Consensus}
use katpool.Mass.Planner.{
  clears_floor, max_outputs_per_input, partition_by_floor, sort_utxos_desc, sort_recipients_desc,
  consider, grow, greedy_recipients_for_inputs, try_from, build_one_batch, plan_step, plan_start,
  plan_loop, plan_batches,
}

iterate-stopped {ℓ} :
    {S : Type ℓ} (step : S → Option S) (s : S) (fuel : ℕ) → step s ≡ none → iterate fuel step s ≡ s
unfolding iterate
iterate-stopped step s zero e = refl
iterate-stopped step s (suc fuel) e = rw (e, iterate) refl

-- An amount that no single coin of the list covers.
abbrev pub Beyond : List TreasuryUtxo → PayoutRecipient → Type 0
Beyond utxos r = All (λ u. (u.entry.amount < r.amount_sompi) × (u.entry.amount < u64_max)) utxos

module _ (fl : Float) (consensus : Consensus) (script : ℕ) (rate : FeeRate fl) where
  consider-nobody :
      (u : TreasuryUtxo) (r : PayoutRecipient)
      → Beyond (u ∷ []) r
      → consider fl consensus script rate (u ∷ []) r [] ≡ []
  unfolding consider
  consider-nobody u r h = let k = h.0 in ground arith

  grow-nobody :
      (u : TreasuryUtxo) (max_outputs : ℕ) (recipients : List PayoutRecipient)
      → All (Beyond (u ∷ [])) recipients
      → grow fl consensus script rate (u ∷ []) max_outputs recipients [] ≡ []
  unfolding grow
  grow-nobody u m [] h = refl
  grow-nobody u m (r ∷ rs) h =
      let passed = consider-nobody u r h.0 in
      let rest = grow-nobody u m rs h.1 in rw (passed, rest) (ground arith)

  greedy-nobody :
      (u : TreasuryUtxo) (recipients : List PayoutRecipient)
      → All (Beyond (u ∷ [])) recipients
      → greedy_recipients_for_inputs fl consensus script rate (u ∷ []) recipients ≡ none
  unfolding greedy_recipients_for_inputs
  greedy-nobody u rs h = rw (grow-nobody u (max (1 * max_outputs_per_input) 1) rs h) refl

  -- A first coin that covers no payable amount ends the search: the second is never tried.
  build_one_batch-nobody :
      (u : TreasuryUtxo) (us : List TreasuryUtxo) (recipients : List PayoutRecipient)
      → All (Beyond (u ∷ [])) recipients
      → build_one_batch fl consensus script rate (u ∷ us) recipients ≡ none
  unfolding build_one_batch try_from
  build_one_batch-nobody u us rs h = rw (greedy-nobody u rs h, build_one_batch, try_from) refl

  plan_step-nobody :
      (utxos : List TreasuryUtxo) (recipients : List PayoutRecipient)
      → All (Beyond utxos) recipients
      → plan_step fl consensus script rate
          (record { utxos = utxos; payable = recipients; batches = [] })
        ≡ none
  unfolding plan_step
  plan_step-nobody [] rs h = ground arith
  plan_step-nobody (u ∷ us) rs h =
      rw (build_one_batch-nobody u us rs (All-map (λ r k. (k.0, tt)) rs h), plan_step)
        (ground arith)

  Beyond-sorted :
      (utxos : List TreasuryUtxo) (recipients : List PayoutRecipient)
      → All (Beyond utxos) recipients
      → All
          (Beyond (sort_utxos_desc utxos))
          (sort_recipients_desc (partition_by_floor recipients).0)
  unfolding sort_utxos_desc sort_recipients_desc partition_by_floor
  Beyond-sorted utxos rs h =
      let coins =
        All-map
          (λ r k.
            sort_by-All (λ a b. leb b.entry.amount a.entry.amount)
              (λ u. (u.entry.amount < r.amount_sompi) × (u.entry.amount < u64_max)) utxos k)
          rs h in
      sort_by-All (λ a b. leb b.amount_sompi a.amount_sompi) (Beyond (sort_utxos_desc utxos))
        (retain clears_floor rs) (retain-All (Beyond (sort_utxos_desc utxos)) clears_floor rs coins)

  -- When every amount exceeds every single coin, and each coin is below the u64 limit, no batch is
  -- planned, however much the coins hold together: the funding set is never widened beyond its first
  -- coin.
  pub plan_batches-starves :
      (utxos : List TreasuryUtxo) (recipients : List PayoutRecipient)
      → All (Beyond utxos) recipients
      → (plan_batches fl consensus script rate utxos recipients).batches ≡ []
  unfolding plan_batches plan_loop plan_start
  plan_batches-starves utxos rs h =
      let stop = plan_step-nobody _ _ (Beyond-sorted utxos rs h) in
      ap (λ s. s.batches)
        (iterate-stopped (plan_step fl consensus script rate)
          (plan_start fl consensus script rate utxos rs) _ stop)
