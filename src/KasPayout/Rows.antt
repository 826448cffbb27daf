-- ===== src/KasPayout/Rows.antt =====
-- The rows of the payout tables (crates/katpool-db/src/repo/payout.rs) and the statements that the
-- queries are made of. The columns with timestamps are left out: no code decides on them. A text
-- that is only compared is a number. Amounts have a CHECK that they are positive.
use katpool.Base.{ℕ, ◌==◌, Bool, true, false, ◌&&◌, if◌then◌else◌, Option, List, map}

pub data PayoutKind : Type 0 where
  kas : PayoutKind
  krc20_nacho : PayoutKind

abbrev pub kind_eq : PayoutKind → PayoutKind → Bool
kind_eq kas kas = true
kind_eq krc20_nacho krc20_nacho = true
kind_eq _ _ = false

pub data PayoutCycleStatus : Type 0 where
  cycle_planned : PayoutCycleStatus
  broadcasting : PayoutCycleStatus
  partially_settled : PayoutCycleStatus
  settled : PayoutCycleStatus
  cycle_failed : PayoutCycleStatus

unfoldable pub is_success : PayoutCycleStatus → Bool
is_success settled = true
is_success partially_settled = true
is_success _ = false

pub data PayoutStatus : Type 0 where
  planned : PayoutStatus
  submitted : PayoutStatus
  accepted : PayoutStatus
  confirmed : PayoutStatus
  failed : PayoutStatus

-- `kas-<start>-<end>` and `krc20-<start>-<end>`; the importer tags its cycles `<kind>-legacy-<hash>`
pub data IdempotencyKey : Type 0 where
  window_key : PayoutKind → ℕ → ℕ → IdempotencyKey
  legacy_key : PayoutKind → ℕ → IdempotencyKey

abbrev pub key_eq : IdempotencyKey → IdempotencyKey → Bool
key_eq (window_key k a b) (window_key k' a' b') = kind_eq k k' && a == a' && b == b'
key_eq (legacy_key k h) (legacy_key k' h') = kind_eq k k' && h == h'
key_eq _ _ = false

pub record PayoutCycle : Type 0 where
  pub cycle_id : ℕ
  pub kind : PayoutKind
  pub cycle_status : PayoutCycleStatus
  pub daa_start : ℕ
  pub daa_end : ℕ
  pub total_sompi : ℕ
  pub total_recipients : ℕ
  pub idempotency_key : IdempotencyKey

pub record Payout : Type 0 where
  pub id : ℕ
  pub of_cycle : ℕ
  pub wallet_id : ℕ
  pub amount_sompi : ℕ
  pub status : PayoutStatus
  pub tx_hash : Option ℕ
  pub krc20_commit_hash : Option ℕ
  pub krc20_reveal_hash : Option ℕ
  pub accepted_daa_score : Option ℕ
  pub failure_reason : Option ℕ

-- `UPDATE … SET … WHERE …`
abbrev pub update_where {ℓ} : {A : Type ℓ} → (A → Bool) → (A → A) → List A → List A
update_where test set rows = map (λ row. if test row then set row else row) rows
