-- ===== src/Lib.antt =====
-- The money path of the katpool mining pool: what counts as a share, what a share of a block is worth,
-- how the pool's coins are turned into payout transactions, and how a payout cycle survives a restart.
--
-- How the parts interact. The stratum bridge admits connections by their address, takes the miners'
-- submissions, and emits a credit for each share. The accountant's consumer records the credits and
-- blocks. Once the maturity tracker has seen a reward's coin mature, the accountant splits each
-- wallet's share of it into a pool fee, a NACHO accrual and a net payout. A payout cycle of a DAA
-- window selects the wallets whose allocated sum less what is confirmed as paid reaches a threshold,
-- and freezes one row for each. The executor hands the rows that are still planned to the mass-aware planner with the treasury's mature coins,
-- signs each batch, records the intent and sends it; confirmation then advances the rows, and the
-- cycle's status is folded from them. The consolidation planner merges small treasury coins.
--
-- The files, with the code that they model:
--   Base          Boolean tests, lists, results, integers and machine words, floats as an interface,
--                 loops on fuel, lists up to order, maps as tables: what the other modules share.
--   Bridge        Jobs: bridge/src/mining_state.rs and `calculate_target` of hasher.rs; Jobs/Ring
--                 proves. Duplicates: `DuplicateSubmitGuard` of share_handler.rs; Nonce and Submit:
--                 `handle_submit` of share_handler.rs, cut where it returns early; Submit/Search,
--                 Credit, Refused and Replay prove. AntiAbuse: anti_abuse.rs; AntiAbuse/Tickets and
--                 Contract prove.
--   Accountant    Fee: `FeeConfig::{new, from_lookup, parse_bps}` and `compute_allocation` of
--                 accountant/src/config.rs; Fee/Laws and Fee/Env prove. Allocation: the division of
--                 a reward in `allocate_coinbase_reward` of accountant/src/allocation.rs;
--                 Allocation/Conservation proves. Ledger: the tables and statements of
--                 crates/katpool-db/src/repo/{coinbase_reward, share_allocation, nacho_rebate,
--                 share_window, share}.rs and accountant/src/window.rs. Engine: the transaction of
--                 allocation.rs; Engine/Effects, Once and Exact prove. Blocks: repo/block.rs.
--                 Maturity: accountant/src/maturity.rs; Maturity/Sweep, Recorded and Colour prove.
--                 Consumer: accountant/src/consumer.rs and the upserts of repo/{wallet, worker,
--                 share, share_reject, block}.rs; Consumer/Wallets, Credits and Found prove.
--   Mass          crates/katpool-storagemass/src: Types (types.rs), Fee (fee.rs), Evaluator
--                 (evaluator.rs, tx_build.rs), Planner (planner.rs), Consolidation
--                 (consolidation.rs). Planner/Batch, Removal, Invariant, Partition and Starvation
--                 prove, as do Consolidation/Search and Consolidation/Batches.
--   KasPayout     Rows and Repo: the payout rows and statements of
--                 crates/katpool-db/src/repo/payout.rs; Cycle: payout-kas/src/cycle.rs and plan.rs;
--                 Confirm: confirm.rs, window.rs and the spend cap of engine.rs; Execute: the
--                 broadcast, the exact fee and the confirmation pass of execute.rs; Engine: the
--                 checks and the tick of engine.rs. Their children prove.
--   Krc20Payout   Rebate: the floor price and the conversion of payout-krc20/src/rebate.rs;
--                 Rebate/Floor and Rebate/Decimal prove. Credit: `credit_completed_transfers` of
--                 payout-krc20/src/cycle.rs; Credit/Balance and Credit/Stuck prove.
--   Tests         the model run on small inputs, and each theorem at one.
--
-- How state and operations correspond. A function keeps the name of the Rust function, a record that
-- of the struct. Rust's `&mut` becomes a value returned; a table is the list of its rows and an
-- `UPDATE … WHERE` a map over it; a database transaction that fails returns no database. A loop with
-- an early return is a step that gives `none` at its exit, run on fuel. Where the planner keeps
-- indices of recipients, the model keeps the recipients. A broadcast returns its effects in their
-- order, so that a crash is a prefix of them; what it sends is kept as the payouts of each signed
-- batch. Where the database fails in a tick is a parameter of the tick (`Stops`).
--
-- Numbers. An amount in sompi is a native number; u64 saturation and i64 overflow are written out
-- where the source has them, and a plain u64 sum, which panics or wraps in Rust, is not reduced: the
-- theorems that depend on it suppose the treasury to be below the u64 limit, which the coin supply
-- is far below. Floats are an interface with one law, that a value below the float of an integer
-- truncates to at most that integer; every operation may round as it likes.
--
-- Fuel. The planner's loop runs one round for each payable recipient (`plan_loop-stops`); the search
-- for a funding set one for each coin, the bound of its `while`; the binary search one for each
-- length in its range, and its theorems show that it ends on a met range; `chunks` one for each coin;
-- the loop over jobs of a submission 300 rounds, the size of the ring (`search-IsSound`).
--
-- Parameters. kaspa's mass calculator, output size and block limit (`Consensus`), `f64` (`Float`),
-- signing, the proof of work and the hash of a header, the node's answers (`Node`) and the address parser are not the repository's code and are
-- arguments of what uses them.
--
-- Not modelled: timestamps, which nothing modelled decides on; the audit log's payloads; metrics,
-- logging, HTTP, gRPC and SQL connections; advisory locks; the rest of the KRC-20 payout; of the
-- accountant's consumer the sessions and the drain at shutdown; of the stratum bridge its sockets,
-- the variable difficulty and the printing of statistics.
pub mod Accountant
pub mod Base
pub mod Bridge
pub mod KasPayout
pub mod Krc20Payout
pub mod Mass
pub mod Tests
