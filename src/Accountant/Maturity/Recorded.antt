-- ===== src/Accountant/Maturity/Recorded.antt =====
-- Which coins become rewards (accountant/src/maturity.rs).
use katpool.Base.{
  ℕ, suc, ◌-◌, ◌≤◌, ◌≡◌, refl, ◌∙◌, subst, inl, inr, true, false, ◌||◌, ◌==◌, ltb, Option, some,
  List, [], ◌∷◌, ◌++◌, All, All-append, any, Result, ok, err, Bool-cases, Option-cases, arith,
}
use katpool.Base.Float.{Float}
use katpool.Base.Int.{pos}
use katpool.Base.Word.{i64_max, i64_of_u64}
use katpool.Accountant.Fee.{WalletTier, FeeConfig}
use katpool.Accountant.Ledger.{
  CoinbaseReward, same_outpoint, ensure_reward, mark_allocated, list_unallocated,
}
use katpool.Accountant.Engine.Once.{allocate_coinbase_reward-rule}
use katpool.Accountant.Maturity.{
  KaspadError, KaspadClient, CoinbaseUtxo, MaturityConfig, SweepStats, is_mature, Pool,
  record_reward, discover, discover_all, allocate_reward, allocate_all, sweep_utxos,
  count_allocation, sweep_rewards, sweep_at, sweep_blocks, no_stats, run_once,
}

-- no outpoint stands twice
abbrev pub DistinctOutpoints : List CoinbaseReward → Type 0
DistinctOutpoints [] = Unit
DistinctOutpoints (r ∷ rs) =
    (any (same_outpoint r.outpoint_transaction_id r.outpoint_index) rs ≡ false)
    × DistinctOutpoints rs

-- Of a reward's coin: its outpoint, its amount and the score of its block.
abbrev pub CoinPredicate : Type 1
CoinPredicate = ℕ → ℕ → ℕ → ℕ → Type 0

abbrev pub Of : CoinPredicate → CoinbaseReward → Type 0
Of Q r = Q r.outpoint_transaction_id r.outpoint_index r.amount_sompi r.block_daa_score

-- the rewards are of coins as they should be, and of no coin twice
pub record IsRecorded (Q : CoinPredicate) (rewards : List CoinbaseReward) : Type 0 where
  pub justified : All (Of Q) rewards
  pub distinct : DistinctOutpoints rewards

any-mark :
    (txid index id : ℕ) (rs : List CoinbaseReward)
    → any (same_outpoint txid index) (mark_allocated id rs) ≡ any (same_outpoint txid index) rs
unfolding mark_allocated
any-mark txid index id [] = refl
any-mark txid index id (r ∷ rs) = ground (arith, any-mark txid index id rs)

mark_allocated-justified :
    (Q : CoinPredicate) (id : ℕ) (rs : List CoinbaseReward)
    → All (Of Q) rs
    → All (Of Q) (mark_allocated id rs)
unfolding mark_allocated
mark_allocated-justified Q id [] h = tt
mark_allocated-justified Q id (r ∷ rs) h = elim (Bool-cases (r.id == id)) [
  | inl e ↦ (rw e h.0, mark_allocated-justified Q id rs h.1)
  | inr e ↦ (rw e h.0, mark_allocated-justified Q id rs h.1)
]

mark_allocated-distinct :
    (id : ℕ) (rs : List CoinbaseReward)
    → DistinctOutpoints rs
    → DistinctOutpoints (mark_allocated id rs)
unfolding mark_allocated
mark_allocated-distinct id [] h = tt
mark_allocated-distinct id (r ∷ rs) h = elim (Bool-cases (r.id == id)) [
  | inl e ↦ (
    rw e (any-mark r.outpoint_transaction_id r.outpoint_index id rs ∙ h.0),
    mark_allocated-distinct id rs h.1,
  )
  | inr e ↦ (
    rw e (any-mark r.outpoint_transaction_id r.outpoint_index id rs ∙ h.0),
    mark_allocated-distinct id rs h.1,
  )
]

mark_allocated-IsRecorded :
    {Q : CoinPredicate} (id : ℕ) (rs : List CoinbaseReward)
    → IsRecorded Q rs
    → IsRecorded Q (mark_allocated id rs)
mark_allocated-IsRecorded {Q} id rs h = record {
  justified = mark_allocated-justified Q id rs h.justified;
  distinct = mark_allocated-distinct id rs h.distinct;
}

any-append :
    (txid index : ℕ) (rs : List CoinbaseReward) (r : CoinbaseReward)
    → any (same_outpoint txid index) (rs ++ r ∷ [])
      ≡ (any (same_outpoint txid index) rs || same_outpoint txid index r)
any-append txid index [] r = ground arith
any-append txid index (q ∷ rs) r = ground (arith, any-append txid index rs r)

append-distinct :
    (rs : List CoinbaseReward) (r : CoinbaseReward)
    → DistinctOutpoints rs
    → any (same_outpoint r.outpoint_transaction_id r.outpoint_index) rs ≡ false
    → DistinctOutpoints (rs ++ r ∷ [])
append-distinct [] r h k = (refl, tt)
append-distinct (q ∷ rs) r h k = (
  any-append q.outpoint_transaction_id q.outpoint_index rs r ∙ ground (arith, h.0, k),
  append-distinct rs r h.1 (ground (arith, k)),
)

ensure_reward-IsRecorded :
    {Q : CoinPredicate} (next txid index amount daa : ℕ) (rs : List CoinbaseReward)
    → Q txid index amount daa
    → IsRecorded Q rs
    → IsRecorded Q (ensure_reward next txid index amount daa rs).0
unfolding ensure_reward
ensure_reward-IsRecorded {Q} next txid index amount daa rs good h =
    elim (Bool-cases (any (same_outpoint txid index) rs)) [
      | inl e ↦ rw e h
      | inr e ↦ rw e (record {
        justified = All-append (Of Q) rs _ h.justified (good, tt);
        distinct = append-distinct rs _ h.distinct e;
      })
    ]

-- a coin that is mature, not below the cutover's floor and of an i64 amount has the predicate
abbrev pub Recordable : CoinPredicate → MaturityConfig → ℕ → CoinbaseUtxo → Type 0
Recordable Q cfg daa u =
    is_mature daa u.block_daa_score cfg.coinbase_maturity ≡ true
    → cfg.coinbase_min_daa_score ≤ u.block_daa_score
    → u.amount_sompi ≤ i64_max
    → Q u.transaction_id u.index u.amount_sompi u.block_daa_score

i64_of_u64-some : (a b : ℕ) → i64_of_u64 a ≡ some b → (a ≤ i64_max) × (a ≡ b)
i64_of_u64-some a b h = ground arith

module _ (fl : Float) {Q : CoinPredicate} where
  discover-IsRecorded :
      (cfg : MaturityConfig) (daa : ℕ) (u : CoinbaseUtxo) (p : Pool fl) (s : SweepStats)
      → Recordable Q cfg daa u
      → IsRecorded Q p.ledger.books.rewards
      → IsRecorded Q (discover fl cfg daa u (p, s)).0.ledger.books.rewards
  unfolding discover record_reward
  discover-IsRecorded cfg daa u p s good h =
      elim (Bool-cases (is_mature daa u.block_daa_score cfg.coinbase_maturity)) [
        | inr e ↦ rw e h
        | inl e ↦ elim (Bool-cases (ltb u.block_daa_score cfg.coinbase_min_daa_score)) [
          | inl e' ↦ rw (e, e') h
          | inr e' ↦ elim (Option-cases (i64_of_u64 u.amount_sompi)) [
            | inl big ↦ rw (e, e', big) h
            | inr (amount, fits) ↦
                let (small, same) = i64_of_u64-some u.amount_sompi amount fits in
                rw (e, e', fits)
                  (ensure_reward-IsRecorded (suc p.last_reward_id) u.transaction_id u.index amount
                    u.block_daa_score p.ledger.books.rewards
                    (subst (λ a. Q u.transaction_id u.index a u.block_daa_score) same
                      (good e (ground arith) small))
                    h)
          ]
        ]
      ]

  discover_all-IsRecorded :
      (cfg : MaturityConfig) (daa : ℕ) (utxos : List CoinbaseUtxo) (out : Pool fl × SweepStats)
      → All (Recordable Q cfg daa) utxos
      → IsRecorded Q out.0.ledger.books.rewards
      → IsRecorded Q (discover_all fl cfg daa utxos out).0.ledger.books.rewards
  unfolding discover_all
  discover_all-IsRecorded cfg daa [] out good h = h
  discover_all-IsRecorded cfg daa (u ∷ utxos) out good h =
      discover_all-IsRecorded cfg daa utxos (discover fl cfg daa u out) good.1
        (discover-IsRecorded cfg daa u out.0 out.1 good.0 h)

  module _ (fee : FeeConfig) (address_of : ℕ → Option ℕ) (classify : ℕ → Option WalletTier)
      (cfg : MaturityConfig) where
    allocate_all-IsRecorded :
        (pending : List CoinbaseReward) (p : Pool fl) (s : SweepStats)
        → IsRecorded Q p.ledger.books.rewards
        → IsRecorded Q
            (allocate_all fl fee address_of classify cfg pending (p, s)).0.ledger.books.rewards
    unfolding allocate_all allocate_reward
    allocate_all-IsRecorded [] p s h = h
    allocate_all-IsRecorded (reward ∷ pending) p s h =
        let (l, r) = allocate_reward fl fee address_of classify cfg reward p.ledger in
        allocate_all-IsRecorded pending (record p { ledger = l }) (count_allocation fl r s)
          (allocate_coinbase_reward-rule fl
            (λ b b'. IsRecorded Q b.rewards → IsRecorded Q b'.rewards) (λ b k. k)
            (λ id new accruals audit b r' found open' mine sums k.
              mark_allocated-IsRecorded id b.rewards k)
            fee address_of classify reward.id (pos reward.amount_sompi)
            (reward.block_daa_score - cfg.window_daa_span) reward.block_daa_score p.ledger h)

    sweep_rewards-IsRecorded :
        (daa : ℕ) (utxos : Result KaspadError (List CoinbaseUtxo)) (p : Pool fl) (s : SweepStats)
        → ((us : List CoinbaseUtxo) → utxos ≡ ok us → All (Recordable Q cfg daa) us)
        → IsRecorded Q p.ledger.books.rewards
        → IsRecorded Q
            (sweep_rewards fl fee address_of classify cfg daa utxos (p, s)).0.ledger.books.rewards
    unfolding sweep_rewards sweep_utxos
    sweep_rewards-IsRecorded daa (err e) p s good h = h
    sweep_rewards-IsRecorded daa (ok utxos) p s good h =
        let found = discover_all fl cfg daa utxos (p, s) in
        allocate_all-IsRecorded (list_unallocated cfg.batch_size found.0.ledger.books.rewards)
          found.0 found.1 (discover_all-IsRecorded cfg daa utxos (p, s) (good utxos refl) h)

    sweep_at-IsRecorded :
        (node : KaspadClient) (score : Result KaspadError ℕ) (p : Pool fl)
        → ((daa : ℕ) (us : List CoinbaseUtxo)
            → score ≡ ok daa
            → node.pool_coinbase_utxos ≡ ok us
            → All (Recordable Q cfg daa) us)
        → IsRecorded Q p.ledger.books.rewards
        → IsRecorded Q (sweep_at fl fee address_of classify cfg node score p).0.ledger.books.rewards
    unfolding sweep_at
    sweep_at-IsRecorded node (err e) p good h = h
    sweep_at-IsRecorded node (ok daa) p good h =
        let (blocks, s) = sweep_blocks cfg node daa p.blocks no_stats in
        sweep_rewards-IsRecorded daa node.pool_coinbase_utxos (record p { blocks = blocks }) s
          (λ us e. good daa us refl e) h

    -- A sweep records no outpoint twice and only what is mature, at or above the cutover's floor and of an
    -- i64 amount: whatever holds of every reward before and of each such coin that the node lists holds of
    -- every reward after, with the outpoints still distinct.
    pub run_once-IsRecorded :
        (node : KaspadClient) (p : Pool fl)
        → ((daa : ℕ) (us : List CoinbaseUtxo)
            → node.virtual_daa_score ≡ ok daa
            → node.pool_coinbase_utxos ≡ ok us
            → All (Recordable Q cfg daa) us)
        → IsRecorded Q p.ledger.books.rewards
        → IsRecorded Q (run_once fl fee address_of classify cfg node p).0.ledger.books.rewards
    unfolding run_once
    run_once-IsRecorded node p good h = sweep_at-IsRecorded node node.virtual_daa_score p good h
