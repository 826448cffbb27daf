-- ===== src/Accountant/Maturity.antt =====
-- The maturity tracker (accountant/src/maturity.rs): one sweep over the submitted blocks and over the
-- coins that are credited to the pool. The node's answers are arguments; an answer that fails is an
-- error. An error that the loop only logs and counts leaves the tables.
pub mod Sweep
pub mod Recorded
pub mod Colour
use katpool.Base.{
  ℕ, suc, ◌+◌, ◌-◌, Bool, true, false, not, if◌then◌else◌, ltb, leb, Option, none, some, List, [],
  ◌∷◌, ◌++◌, Result, ok, err, ◌>>=◌,
}
use katpool.Base.Float.{Float}
use katpool.Base.Int.{pos}
use katpool.Base.Word.{add_sat_u64, i64_of_u64}
use katpool.Accountant.Fee.{WalletTier, FeeConfig}
use katpool.Accountant.Allocation.{AllocationEngineError}
use katpool.Accountant.Ledger.{
  Share, CoinbaseReward, EnsureOutcome, inserted, already_existed, ensure_reward, list_unallocated,
}
use katpool.Accountant.Engine.{
  Books, Ledger, with_books, AllocationOutcome, allocated, already_allocated,
  no_contributing_wallets, allocate_coinbase_reward,
}
use katpool.Accountant.Blocks
use katpool.Accountant.Blocks.{Block, list_submitted}

pub data KaspadError : Type 0 where
  transport malformed : KaspadError

pub data BlockColor : Type 0 where
  blue red not_yet_merged : BlockColor

pub record CoinbaseUtxo : Type 0 where
  pub transaction_id : ℕ
  pub index : ℕ
  pub amount_sompi : ℕ
  pub block_daa_score : ℕ

-- what one sweep asks of the node
pub record KaspadClient : Type 0 where
  pub virtual_daa_score : Result KaspadError ℕ
  pub block_color : ℕ → Result KaspadError BlockColor
  pub pool_coinbase_utxos : Result KaspadError (List CoinbaseUtxo)

pub record MaturityConfig : Type 0 where
  pub coinbase_maturity : ℕ
  pub window_daa_span : ℕ
  pub batch_size : ℕ
  pub coinbase_min_daa_score : ℕ

pub record SweepStats : Type 0 where
  pub confirmed_blue : ℕ
  pub orphaned : ℕ
  pub blocks_waiting : ℕ
  pub rewards_discovered : ℕ
  pub rewards_allocated : ℕ
  pub rewards_empty : ℕ
  pub errors : ℕ
  pub rewards_skipped_below_floor : ℕ

abbrev pub no_stats : SweepStats
no_stats = record {
  confirmed_blue = 0;
  orphaned = 0;
  blocks_waiting = 0;
  rewards_discovered = 0;
  rewards_allocated = 0;
  rewards_empty = 0;
  errors = 0;
  rewards_skipped_below_floor = 0;
}

pub data BlockOutcome : Type 0 where
  confirmed orphan still_waiting : BlockOutcome

-- The depth is computed with a checked subtraction.
unfoldable pub is_mature : ℕ → ℕ → ℕ → Bool
is_mature virtual_daa_score block_daa_score coinbase_maturity =
    if leb block_daa_score virtual_daa_score
    then leb coinbase_maturity (virtual_daa_score - block_daa_score)
    else false

-- the `match` of `process_submitted` on the node's answer
unfoldable pub resolve :
    MaturityConfig
    → ℕ
    → Block
    → Result KaspadError BlockColor
    → List Block
    → List Block × Result KaspadError BlockOutcome
resolve cfg daa blk (err e) blocks = (blocks, err e)
resolve cfg daa blk (ok blue) blocks =
    (Blocks.mark_confirmed_blue blk.hash none blocks, ok confirmed)
resolve cfg daa blk (ok red) blocks = (Blocks.mark_orphaned blk.hash blocks, ok orphan)
resolve cfg daa blk (ok not_yet_merged) blocks =
    if leb (add_sat_u64 blk.daa_score cfg.coinbase_maturity) daa
    then (Blocks.mark_orphaned blk.hash blocks, ok orphan)
    else (blocks, ok still_waiting)

unfoldable pub process_submitted :
    MaturityConfig
    → KaspadClient
    → ℕ
    → Block
    → List Block
    → List Block × Result KaspadError BlockOutcome
unfolding resolve
process_submitted cfg node daa blk blocks = resolve cfg daa blk (node.block_color blk.hash) blocks

abbrev pub count_block : Result KaspadError BlockOutcome → SweepStats → SweepStats
count_block (ok confirmed) s = record s { confirmed_blue = s.confirmed_blue + 1 }
count_block (ok orphan) s = record s { orphaned = s.orphaned + 1 }
count_block (ok still_waiting) s = record s { blocks_waiting = s.blocks_waiting + 1 }
count_block (err e) s = record s { errors = s.errors + 1 }

-- the loop of `sweep_blocks` over the blocks that were listed
unfoldable pub sweep_listed :
    MaturityConfig
    → KaspadClient
    → ℕ
    → List Block
    → List Block × SweepStats
    → List Block × SweepStats
unfolding process_submitted
sweep_listed cfg node daa [] out = out
sweep_listed cfg node daa (blk ∷ active) (blocks, stats) =
    let (blocks', r) = process_submitted cfg node daa blk blocks in
    sweep_listed cfg node daa active (blocks', count_block r stats)

unfoldable pub sweep_blocks :
    MaturityConfig → KaspadClient → ℕ → List Block → SweepStats → List Block × SweepStats
unfolding sweep_listed
sweep_blocks cfg node daa blocks stats =
    sweep_listed cfg node daa (list_submitted cfg.batch_size blocks) (blocks, stats)

module _ (fl : Float) where
  pub record Pool : Type 0 where
    pub ledger : Ledger fl
    pub blocks : List Block
    pub last_reward_id : ℕ

  abbrev pub with_rewards : List CoinbaseReward → Pool → Pool
  with_rewards rewards p = record p {
    ledger = with_books fl (record (p.ledger.books) { rewards = rewards }) p.ledger;
    last_reward_id = suc p.last_reward_id;
  }

  abbrev pub count_ensured : EnsureOutcome → SweepStats → SweepStats
  count_ensured inserted s = record s { rewards_discovered = s.rewards_discovered + 1 }
  count_ensured already_existed s = s

  -- the sequence gives out an id on a conflict too
  unfoldable pub record_reward : CoinbaseUtxo → Option ℕ → Pool × SweepStats → Pool × SweepStats
  record_reward utxo none (p, s) = (p, record s { errors = s.errors + 1 })
  record_reward utxo (some amount) (p, s) =
      let (rewards, outcome) =
        ensure_reward (suc p.last_reward_id) utxo.transaction_id utxo.index amount
          utxo.block_daa_score p.ledger.books.rewards in
      (with_rewards rewards p, count_ensured outcome s)

  -- the first loop of `sweep_rewards`, at one coin
  unfoldable pub discover :
      MaturityConfig → ℕ → CoinbaseUtxo → Pool × SweepStats → Pool × SweepStats
  unfolding record_reward
  discover cfg daa utxo (p, s) =
      if not (is_mature daa utxo.block_daa_score cfg.coinbase_maturity)
      then (p, s)
      else if ltb utxo.block_daa_score cfg.coinbase_min_daa_score
      then (p, record s { rewards_skipped_below_floor = s.rewards_skipped_below_floor + 1 })
      else record_reward utxo (i64_of_u64 utxo.amount_sompi) (p, s)

  unfoldable pub discover_all :
      MaturityConfig → ℕ → List CoinbaseUtxo → Pool × SweepStats → Pool × SweepStats
  discover_all cfg daa [] out = out
  discover_all cfg daa (utxo ∷ utxos) out = discover_all cfg daa utxos (discover cfg daa utxo out)

  abbrev pub count_allocation :
      Result AllocationEngineError AllocationOutcome → SweepStats → SweepStats
  count_allocation (ok (allocated n t residue)) s = record s {
    rewards_allocated = s.rewards_allocated + 1;
  }
  count_allocation (ok (no_contributing_wallets r)) s = record s {
    rewards_empty = s.rewards_empty + 1;
  }
  count_allocation (ok already_allocated) s = s
  count_allocation (err e) s = record s { errors = s.errors + 1 }

  module _ (fee : FeeConfig) (address_of : ℕ → Option ℕ) (classify : ℕ → Option WalletTier)
      (cfg : MaturityConfig) where
    -- the window of a reward ends at its block
    unfoldable pub allocate_reward :
        CoinbaseReward → Ledger fl → Ledger fl × Result AllocationEngineError AllocationOutcome
    allocate_reward reward l =
        allocate_coinbase_reward fl fee address_of classify reward.id (pos reward.amount_sompi)
          (reward.block_daa_score - cfg.window_daa_span) reward.block_daa_score l

    unfoldable pub allocate_all : List CoinbaseReward → Pool × SweepStats → Pool × SweepStats
    unfolding allocate_reward
    allocate_all [] out = out
    allocate_all (reward ∷ pending) (p, s) =
        let (l, r) = allocate_reward reward p.ledger in
        allocate_all pending (record p { ledger = l }, count_allocation r s)

    -- `sweep_rewards` behind the node's answer
    unfoldable pub sweep_utxos : ℕ → List CoinbaseUtxo → Pool × SweepStats → Pool × SweepStats
    unfolding discover_all allocate_all
    sweep_utxos daa utxos out =
        let found = discover_all cfg daa utxos out in
        allocate_all (list_unallocated cfg.batch_size found.0.ledger.books.rewards) found

    -- the pool as it is left, and the counters or the error
    unfoldable pub sweep_rewards :
        ℕ
        → Result KaspadError (List CoinbaseUtxo)
        → Pool × SweepStats
        → Pool × Result KaspadError SweepStats
    unfolding sweep_utxos
    sweep_rewards daa (err e) (p, s) = (p, err e)
    sweep_rewards daa (ok utxos) out = let (p, s) = sweep_utxos daa utxos out in (p, ok s)

    unfoldable pub sweep_at :
        KaspadClient → Result KaspadError ℕ → Pool → Pool × Result KaspadError SweepStats
    unfolding sweep_blocks sweep_rewards
    sweep_at node (err e) p = (p, err e)
    sweep_at node (ok daa) p =
        let (blocks, s) = sweep_blocks cfg node daa p.blocks no_stats in
        sweep_rewards daa node.pool_coinbase_utxos (record p { blocks = blocks }, s)

    unfoldable pub run_once : KaspadClient → Pool → Pool × Result KaspadError SweepStats
    unfolding sweep_at
    run_once node p = sweep_at node node.virtual_daa_score p

    -- the shares that the consumer has credited in the meantime
    abbrev pub credit : List (Share fl) → Pool → Pool
    credit shares p = record p {
      ledger = record {
        shares = p.ledger.shares ++ shares;
        windows = p.ledger.windows;
        books = p.ledger.books;
      };
    }

    -- `run_loop` over what the node answers sweep by sweep, each with the shares credited before it; an
    -- error is retried with the next
    unfoldable pub run_loop : List (KaspadClient × List (Share fl)) → Pool → Pool
    unfolding run_once
    run_loop [] p = p
    run_loop ((node, shares) ∷ ticks) p = run_loop ticks (run_once node (credit shares p)).0
