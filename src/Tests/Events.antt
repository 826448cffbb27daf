-- ===== src/Tests/Events.antt =====
-- The consumer on a few events, and the theorems at them.
use katpool.Base.{ℕ, ◌≡◌, Bool, true, false, Option, none, some, List, [], ◌∷◌, ◌++◌}
use katpool.Base.Table.{ℕ_key, lookup}
use katpool.Bridge.Submit.{PoolEvent, share_credited, block_found, block_accepted}
use katpool.Accountant.Ledger.{Share}
use katpool.Accountant.Consumer.{
  DbStage, write_statement, Tables, Received, received, lagged, closed, consume,
}
use katpool.Accountant.Consumer.Wallets.{IsKeyed}
use katpool.Accountant.Consumer.Credits.{RecordedAs, consume-recorded}
use katpool.Accountant.Consumer.Found.{rows_with, consume-rows_with}
use katpool.Tests.FixedPoint.{fixed_point}

abbrev up : DbStage → Bool
up stage = false

abbrev no_write : DbStage → Bool
no_write write_statement = true
no_write _ = false

abbrev credit : ℕ → ℕ → PoolEvent fixed_point
credit address daa_score = share_credited address 4 2_000_000 daa_score

abbrev announcement : PoolEvent fixed_point
announcement = block_found 8 4 77 1_500

abbrev acceptance : PoolEvent fixed_point
acceptance = block_accepted 77

abbrev events : List (Received fixed_point)
events =
    received up (credit 8 1_500)
    ∷ received no_write (credit 5 1_501)
    ∷ lagged 3
    ∷ received up announcement
    ∷ received up acceptance
    ∷ received up announcement
    ∷ received up (credit 8 1_502)
    ∷ closed
    ∷ received up (credit 5 1_503)
    ∷ []

abbrev empty : Tables fixed_point
empty = record {
  wallets = [];
  wallet_seq = 0;
  workers = [];
  worker_seq = 0;
  shares = [];
  share_workers = [];
  rejects = [];
  blocks = [];
}

none-some : (id : ℕ) → ◌≡◌ {A = Option ℕ} none (some id) → ⊥
none-some id h = cc

empty-IsKeyed : IsKeyed [] 0
unfolding lookup
empty-IsKeyed = record {
  below = λ a i h. absurd (none-some i h);
  one_each = λ a b i h h'. absurd (none-some i h);
}

consume-recorded_example :
    (added : List (Share fixed_point)) × ((consume fixed_point events empty).shares ≡ [] ++ added)
    × RecordedAs fixed_point
        (consume fixed_point events empty).wallets
        added
        ((8, 2_000_000, 1_500) ∷ (8, 2_000_000, 1_502) ∷ [])
    × IsKeyed
        (consume fixed_point events empty).wallets
        (consume fixed_point events empty).wallet_seq
consume-recorded_example = consume-recorded fixed_point events empty empty-IsKeyed

consume-rows_with_example : rows_with 77 (consume fixed_point events empty).blocks ≡ 1
consume-rows_with_example = consume-rows_with fixed_point 77 events empty
