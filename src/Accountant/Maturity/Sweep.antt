-- ===== src/Accountant/Maturity/Sweep.antt =====
-- What sweeps do to the rewards (accountant/src/maturity.rs).
use katpool.Base.{
  ℕ, suc, ◌≡◌, refl, sym, ◌∙◌, inl, inr, false, not, ltb, Option, List, [], ◌∷◌, ◌++◌, any, Result,
  ok, err, Bool-cases, Option-cases, arith,
}
use katpool.Base.Float.{Float}
use katpool.Base.Int.{pos}
use katpool.Base.Word.{i64_of_u64}
use katpool.Accountant.Fee.{WalletTier, FeeConfig}
use katpool.Accountant.Ledger.{
  CoinbaseReward, Share, same_outpoint, ensure_reward, lock_for_allocation, list_unallocated,
}
use katpool.Accountant.Engine.Effects.{is_allocated}
use katpool.Accountant.Engine.Once.{
  Evolves, Evolves-refl, Evolves-trans, allocate_coinbase_reward-Evolves,
}
use katpool.Accountant.Maturity.{
  KaspadError, KaspadClient, CoinbaseUtxo, MaturityConfig, SweepStats, no_stats, is_mature, Pool,
  with_rewards, record_reward, discover, discover_all, allocate_reward, allocate_all, sweep_utxos,
  sweep_rewards, sweep_at, run_once, run_loop, credit, count_allocation, sweep_blocks,
}

is_allocated-append :
    (id : ℕ) (rs : List CoinbaseReward) (r : CoinbaseReward)
    → r.allocated ≡ false
    → is_allocated id (rs ++ r ∷ []) ≡ is_allocated id rs
unfolding is_allocated lock_for_allocation
is_allocated-append id [] r h = ground arith
is_allocated-append id (q ∷ rs) r h = ground (arith, is_allocated-append id rs r h)

is_allocated-ensure :
    (id next txid index amount daa : ℕ) (rs : List CoinbaseReward)
    → is_allocated id (ensure_reward next txid index amount daa rs).0 ≡ is_allocated id rs
unfolding ensure_reward
is_allocated-ensure id next txid index amount daa rs =
    elim (Bool-cases (any (same_outpoint txid index) rs)) [
      | inl e ↦ rw e refl
      | inr e ↦ rw e (is_allocated-append id rs _ refl)
    ]

module _ (fl : Float) where
  with_rewards-Evolves :
      (p : Pool fl) (rewards : List CoinbaseReward)
      → ((id : ℕ) → is_allocated id rewards ≡ is_allocated id p.ledger.books.rewards)
      → Evolves fl p.ledger.books (with_rewards fl rewards p).ledger.books
  with_rewards-Evolves p rewards same = record {
    stays = λ id h. same id ∙ h;
    frozen = λ id h. refl;
    owed = λ wallet. refl;
    no_rows = λ n id h. n id (sym (same id) ∙ h);
  }

  discover-Evolves :
      (cfg : MaturityConfig) (daa : ℕ) (utxo : CoinbaseUtxo) (p : Pool fl) (s : SweepStats)
      → Evolves fl p.ledger.books (discover fl cfg daa utxo (p, s)).0.ledger.books
  unfolding discover record_reward
  discover-Evolves cfg daa utxo p s =
      elim (Bool-cases (not (is_mature daa utxo.block_daa_score cfg.coinbase_maturity))) [
        | inl e ↦ rw e (Evolves-refl fl p.ledger.books)
        | inr e ↦ elim (Bool-cases (ltb utxo.block_daa_score cfg.coinbase_min_daa_score)) [
          | inl e' ↦ rw (e, e') (Evolves-refl fl p.ledger.books)
          | inr e' ↦ elim (Option-cases (i64_of_u64 utxo.amount_sompi)) [
            | inl big ↦ rw (e, e', big) (Evolves-refl fl p.ledger.books)
            | inr (amount, fits) ↦
                rw (e, e', fits)
                  (with_rewards-Evolves p _ (λ id.
                    is_allocated-ensure id (suc p.last_reward_id) utxo.transaction_id utxo.index
                      amount utxo.block_daa_score p.ledger.books.rewards))
          ]
        ]
      ]

  discover_all-Evolves :
      (cfg : MaturityConfig) (daa : ℕ) (utxos : List CoinbaseUtxo) (out : Pool fl × SweepStats)
      → Evolves fl out.0.ledger.books (discover_all fl cfg daa utxos out).0.ledger.books
  unfolding discover_all
  discover_all-Evolves cfg daa [] out = Evolves-refl fl out.0.ledger.books
  discover_all-Evolves cfg daa (utxo ∷ utxos) out =
      Evolves-trans fl (discover-Evolves cfg daa utxo out.0 out.1)
        (discover_all-Evolves cfg daa utxos (discover fl cfg daa utxo out))

  module _ (fee : FeeConfig) (address_of : ℕ → Option ℕ) (classify : ℕ → Option WalletTier)
      (cfg : MaturityConfig) where
    allocate_all-Evolves :
        (pending : List CoinbaseReward) (p : Pool fl) (s : SweepStats)
        → Evolves fl p.ledger.books
            (allocate_all fl fee address_of classify cfg pending (p, s)).0.ledger.books
    unfolding allocate_all allocate_reward
    allocate_all-Evolves [] p s = Evolves-refl fl p.ledger.books
    allocate_all-Evolves (reward ∷ pending) p s =
        let (l, r) = allocate_reward fl fee address_of classify cfg reward p.ledger in
        Evolves-trans fl
          (allocate_coinbase_reward-Evolves fl fee address_of classify reward.id
            (pos reward.amount_sompi) _ reward.block_daa_score p.ledger)
          (allocate_all-Evolves pending (record p { ledger = l }) (count_allocation fl r s))

    sweep_rewards-Evolves :
        (daa : ℕ) (utxos : Result KaspadError (List CoinbaseUtxo)) (p : Pool fl) (s : SweepStats)
        → Evolves fl p.ledger.books
            (sweep_rewards fl fee address_of classify cfg daa utxos (p, s)).0.ledger.books
    unfolding sweep_rewards sweep_utxos
    sweep_rewards-Evolves daa (err e) p s = Evolves-refl fl p.ledger.books
    sweep_rewards-Evolves daa (ok utxos) p s =
        let found = discover_all fl cfg daa utxos (p, s) in
        Evolves-trans fl (discover_all-Evolves cfg daa utxos (p, s)) (
          allocate_all-Evolves (list_unallocated cfg.batch_size found.0.ledger.books.rewards)
            found.0 found.1)

    sweep_at-Evolves :
        (node : KaspadClient) (score : Result KaspadError ℕ) (p : Pool fl)
        → Evolves fl p.ledger.books
            (sweep_at fl fee address_of classify cfg node score p).0.ledger.books
    unfolding sweep_at
    sweep_at-Evolves node (err e) p = Evolves-refl fl p.ledger.books
    sweep_at-Evolves node (ok daa) p =
        let (blocks, s) = sweep_blocks cfg node daa p.blocks no_stats in
        sweep_rewards-Evolves daa node.pool_coinbase_utxos (record p { blocks = blocks }) s

    -- Over any number of sweeps, whatever the node answers and whatever is credited between them: an
    -- allocated reward stays allocated and keeps its rows, so that no reward is handed out twice; each
    -- wallet has accrued exactly what the rows added since say; and a reward that is not allocated has no
    -- rows, as long as that held before.
    pub run_loop-Evolves :
        (ticks : List (KaspadClient × List (Share fl))) (p : Pool fl)
        → Evolves fl p.ledger.books (run_loop fl fee address_of classify cfg ticks p).ledger.books
    unfolding run_loop run_once
    run_loop-Evolves [] p = Evolves-refl fl p.ledger.books
    run_loop-Evolves ((node, shares) ∷ ticks) p =
        Evolves-trans fl
          (sweep_at-Evolves node node.virtual_daa_score
            (credit fl fee address_of classify cfg shares p))
          (run_loop-Evolves ticks
            (run_once fl fee address_of classify cfg node
              (credit fl fee address_of classify cfg shares p)).0)
