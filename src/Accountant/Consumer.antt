-- ===== src/Accountant/Consumer.antt =====
-- The accountant's consumer of the bridge's events (accountant/src/consumer.rs), with the upserts of
-- crates/katpool-db/src/repo/{wallet, worker, share, share_reject}.rs. An address and a name are numbers. A
-- statement fails when `down` says so; a transaction that fails leaves no trace but a gap in the ids. The
-- sessions of connections, which no share or block depends on, are not modelled.
pub mod Wallets
pub mod Credits
pub mod Found
use katpool.Base.{
  ℕ, ◌+◌, ◌==◌, ==_iff, Bool, true, not, ◌&&◌, ◌≡◌, ◌↔◌, Option, none, some, List, [], ◌∷◌, ◌++◌,
  Result, ok, err, ◌>>=◌, ◌>>◌, guard, arith,
}
use katpool.Base.Float.{Float}
use katpool.Base.Table.{Key, ℕ_key, lookup, insert}
use katpool.Bridge.Submit.{
  PoolEvent, share_credited, share_rejected, block_found, block_accepted, ShareRejectReason,
}
use katpool.Accountant.Ledger.{Share}
use katpool.Accountant.Blocks.{Block, find_by_hash, ensure_block, mark_submitted}

pub data EventError : Type 0 where
  wallet_ensure worker_ensure share_insert share_reject_insert block_ensure block_mark_submitted :
      EventError
  orphan_block_accepted : ℕ → EventError

-- where a statement can fail
pub data DbStage : Type 0 where
  begin_tx wallet_statement worker_statement write_statement commit_tx : DbStage

pub pair_eq_iff : (a b : ℕ × ℕ) → ((a.0 == b.0 && a.1 == b.1) ≡ true) ↔ (a ≡ b)
pair_eq_iff a b = ground (arith, ==_iff a.0 b.0, ==_iff a.1 b.1)

abbrev pub worker_key : Key (ℕ × ℕ)
worker_key = record { same = λ a b. a.0 == b.0 && a.1 == b.1; same_iff = pair_eq_iff }

-- a row of `wallet`: the address and the id; the unique address is the key
abbrev pub Wallets : Type 0
Wallets = List (ℕ × ℕ)

abbrev pub ensure_known : ℕ → Wallets → ℕ → Option ℕ → Wallets × ℕ
ensure_known address wallets fresh (some id) = (wallets, id)
ensure_known address wallets fresh none = (insert address fresh wallets, fresh)

-- `wallet::ensure`, with the id that the sequence gives
unfoldable pub ensure_wallet : ℕ → ℕ → Wallets → Wallets × ℕ
ensure_wallet address fresh wallets = ensure_known address wallets fresh (lookup address wallets)

-- a row of `worker`: the wallet's id and the name, and the id
abbrev pub Workers : Type 0
Workers = List ((ℕ × ℕ) × ℕ)

abbrev pub ensure_known_worker : ℕ × ℕ → Workers → ℕ → Option ℕ → Workers × ℕ
ensure_known_worker key workers fresh (some id) = (workers, id)
ensure_known_worker key workers fresh none = (insert ⦃key = worker_key⦄ key fresh workers, fresh)

-- `worker::ensure`
unfoldable pub ensure_worker : ℕ → ℕ → ℕ → Workers → Workers × ℕ
ensure_worker wallet_id name fresh workers =
    ensure_known_worker (wallet_id, name) workers fresh
      (lookup ⦃key = worker_key⦄ (wallet_id, name) workers)

pub record ShareReject : Type 0 where
  pub reject_wallet : ℕ
  pub reject_worker : ℕ
  pub reason : ShareRejectReason

module _ (fl : Float) where
  open fl use {F}

  -- the tables, with the last ids of the sequences of `wallet` and `worker`
  pub record Tables : Type 0 where
    pub wallets : Wallets
    pub wallet_seq : ℕ
    pub workers : Workers
    pub worker_seq : ℕ
    pub shares : List (Share fl)
    pub share_workers : List ℕ
    pub rejects : List ShareReject
    pub blocks : List Block

  -- `wallet::ensure` and `worker::ensure`, with the ids found; each takes an id of its sequence
  unfoldable pub ensure_identity : ℕ → ℕ → Tables → Tables × (ℕ × ℕ)
  unfolding ensure_wallet ensure_worker
  ensure_identity address name t =
      let (wallets, wallet_id) = ensure_wallet address (t.wallet_seq + 1) t.wallets in
      let (workers, worker_id) = ensure_worker wallet_id name (t.worker_seq + 1) t.workers in
      (
        record t {
          wallets = wallets;
          wallet_seq = t.wallet_seq + 1;
          workers = workers;
          worker_seq = t.worker_seq + 1;
        },
        (wallet_id, worker_id),
      )

  unfoldable pub insert_credited : ℕ × ℕ → F → ℕ → Tables → Tables
  insert_credited ids difficulty daa_score t = record t {
    shares =
        t.shares
        ++ (record { share_wallet = ids.0; difficulty = difficulty; daa_score = daa_score } ∷ []);
    share_workers = t.share_workers ++ (ids.1 ∷ []);
  }

  unfoldable pub insert_reject : ℕ × ℕ → ShareRejectReason → Tables → Tables
  insert_reject ids reason t = record t {
    rejects =
        t.rejects
        ++ (record { reject_wallet = ids.0; reject_worker = ids.1; reason = reason } ∷ []);
  }

  -- The transaction that three handlers share: the wallet, the worker, then the handler's own write. A
  -- transaction that does not begin or commit is an error of that write.
  unfoldable pub in_transaction :
      (DbStage → Bool)
      → EventError
      → ℕ
      → ℕ
      → (ℕ × ℕ → Tables → Tables)
      → Tables
      → Result EventError Tables
  unfolding ensure_identity
  in_transaction down failure address name write t = do
    guard (not (down begin_tx)) failure
    guard (not (down wallet_statement)) wallet_ensure
    guard (not (down worker_statement)) worker_ensure
    let (known, ids) = ensure_identity address name t
    guard (not (down write_statement)) failure
    guard (not (down commit_tx)) failure
    ok (write ids known)

  unfoldable pub handle_share_credited :
      (DbStage → Bool) → ℕ → ℕ → F → ℕ → Tables → Result EventError Tables
  unfolding in_transaction insert_credited
  handle_share_credited down address name difficulty daa_score =
      in_transaction down share_insert address name
        (λ ids. insert_credited ids difficulty daa_score)

  unfoldable pub handle_share_rejected :
      (DbStage → Bool) → ℕ → ℕ → ShareRejectReason → Tables → Result EventError Tables
  unfolding in_transaction insert_reject
  handle_share_rejected down address name reason =
      in_transaction down share_reject_insert address name (λ ids. insert_reject ids reason)

  unfoldable pub handle_block_found :
      (DbStage → Bool) → ℕ → ℕ → ℕ → ℕ → Tables → Result EventError Tables
  unfolding in_transaction ensure_block
  handle_block_found down address name hash daa_score =
      in_transaction down block_ensure address name
        (λ ids t. record t { blocks = (ensure_block hash daa_score t.blocks).0 })

  abbrev pub accept_found : (DbStage → Bool) → ℕ → Tables → Option Block → Result EventError Tables
  accept_found down hash t none = err (orphan_block_accepted hash)
  accept_found down hash t (some b) = do
    guard (not (down write_statement)) block_mark_submitted
    ok (record t { blocks = mark_submitted hash t.blocks })

  unfoldable pub handle_block_accepted : (DbStage → Bool) → ℕ → Tables → Result EventError Tables
  unfolding find_by_hash mark_submitted
  handle_block_accepted down hash t = do
    guard (not (down begin_tx)) block_mark_submitted
    accept_found down hash t (find_by_hash hash t.blocks)

  unfoldable pub handle : (DbStage → Bool) → PoolEvent fl → Tables → Result EventError Tables
  unfolding handle_share_credited handle_share_rejected handle_block_found handle_block_accepted
  handle down (share_credited wallet worker difficulty daa_score) =
      handle_share_credited down wallet worker difficulty daa_score
  handle down (share_rejected wallet worker reason) =
      handle_share_rejected down wallet worker reason
  handle down (block_found wallet worker hash daa_score) =
      handle_block_found down wallet worker hash daa_score
  handle down (block_accepted hash) = handle_block_accepted down hash

  -- an error is logged and counted
  abbrev pub logged : Tables → Result EventError Tables → Tables
  logged t (ok after) = after
  logged t (err e) = t

  unfoldable pub handle_event : (DbStage → Bool) → PoolEvent fl → Tables → Tables
  unfolding handle
  handle_event down event t = logged t (handle down event t)

  -- what `recv` gives, with the statements that fail while it is handled
  pub data Received : Type 0 where
    received : (DbStage → Bool) → PoolEvent fl → Received
    lagged : ℕ → Received
    closed : Received

  -- `run`, behind the sweep of sessions: each result in turn, until the channel is closed
  unfoldable pub consume : List Received → Tables → Tables
  unfolding handle_event
  consume [] t = t
  consume (received down event ∷ rest) t = consume rest (handle_event down event t)
  consume (lagged n ∷ rest) t = consume rest t
  consume (closed ∷ rest) t = t
