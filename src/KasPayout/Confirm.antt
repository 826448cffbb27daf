-- ===== src/KasPayout/Confirm.antt =====
-- The confirmation and maturity policy, the cycle's window and the spend cap
-- (payout-kas/src/confirm.rs, window.rs and engine.rs).
use native.Mathlib.Nat.{div-add-mod', div-eq_of_lt-le, mod-lt, mul_comm}
use katpool.Base.{
  ℕ, ◌+◌, ◌*◌, ◌/◌, ◌≤◌, ◌<◌, ◌≡◌, refl, ap, Bool-cases, Bool, false, if◌then◌else◌, leb, le→leb,
  Option, none, some, min, max, arith, ◌↔◌, ◌⊎◌, inl, inr,
}
use katpool.Base.Int.{ℤ, ltb_ℤ}
use katpool.Base.Word.{u64_max, add_sat_u64, mul_sat_u64}

abbrev pub kas_payout_confirmation_daa : ℕ
kas_payout_confirmation_daa = 100

abbrev pub non_coinbase_maturity_daa : ℕ
non_coinbase_maturity_daa = 10

abbrev pub coinbase_maturity_daa : ℕ
coinbase_maturity_daa = 1000

pub data ConfirmationState : Type 0 where
  pending_in_mempool : ConfirmationState
  accepted_on_chain : ConfirmationState
  confirmed_by_depth : ConfirmationState
  unknown : ConfirmationState

pub record ConfirmationInputs : Type 0 where
  pub virtual_daa_score : ℕ
  pub in_mempool : Bool
  pub change_block_daa_score : Option ℕ
  pub recorded_accept_daa : Option ℕ

abbrev pub or_else : Option ℕ → Option ℕ → Option ℕ
or_else none b = b
or_else (some a) b = some a

unfoldable pub classify_confirmation : ConfirmationInputs → ConfirmationState
classify_confirmation inputs =
    elim (or_else inputs.recorded_accept_daa inputs.change_block_daa_score) [
      | some daa ↦
          if leb (add_sat_u64 daa kas_payout_confirmation_daa) inputs.virtual_daa_score
          then confirmed_by_depth
          else accepted_on_chain
      | none ↦ if inputs.in_mempool then pending_in_mempool else unknown
    ]

unfoldable pub is_spendable : ℕ → Bool → ℕ → Bool
is_spendable block_daa_score is_coinbase virtual_daa_score =
    let needed = if is_coinbase then coinbase_maturity_daa else non_coinbase_maturity_daa in
    leb (add_sat_u64 block_daa_score needed) virtual_daa_score

-- half-open, `[start, end)`
unfoldable pub cycle_window : ℕ → ℕ → ℕ × ℕ
cycle_window virtual_daa_score span =
    let width = max span 1 in
    let start = mul_sat_u64 (virtual_daa_score / width) width in (start, add_sat_u64 start width)

unfoldable pub over_spend_cap : ℤ → Option ℤ → Bool
over_spend_cap total none = false
over_spend_cap total (some cap) = ltb_ℤ cap total

-- An accepting height, once recorded, decides alone: the state is confirmed when the node's score is at
-- least 100 above it (or at the u64 limit where that is lower) and accepted before, whatever this pass
-- sees of the mempool and of the change coin. A later pass, at a score no lower, never takes a
-- confirmation back.
pub classify_confirmation-recorded :
    (i j : ConfirmationInputs) {d : ℕ}
    → i.recorded_accept_daa ≡ some d
    → j.recorded_accept_daa ≡ some d
    → i.virtual_daa_score ≤ j.virtual_daa_score
    → (((min (d + 100) u64_max ≤ i.virtual_daa_score)
          × (classify_confirmation i ≡ confirmed_by_depth)
          × (classify_confirmation j ≡ confirmed_by_depth))
        ⊎ ((i.virtual_daa_score < min (d + 100) u64_max)
            × (classify_confirmation i ≡ accepted_on_chain)))
unfolding classify_confirmation
classify_confirmation-recorded i j {d} h k le =
    elim (Bool-cases (leb (add_sat_u64 d kas_payout_confirmation_daa) i.virtual_daa_score)) [
      | inl deep ↦ rw (h, k) (ground arith)
      | inr shallow ↦ rw (h, k) (ground arith)
    ]

bucket : (a n : ℕ) → 1 ≤ n → (a / n * n ≤ a) × (a < a / n * n + n)
bucket a n pos = let e = div-add-mod' a n in let l = mod-lt a pos in (omega arith, omega arith)

same_bucket : (a b n : ℕ) → 1 ≤ n → a / n * n ≤ b → b < a / n * n + n → b / n ≡ a / n
same_bucket a b n pos le lt =
    div-eq_of_lt-le n (omega (arith, mul_comm n (a / n))) (grind (arith, mul_comm n (a / n)))

window-fits :
    (start width : ℕ)
    → start + width ≤ u64_max
    → let start' = if leb start u64_max then start else u64_max in
      ◌≡◌ {A = ℕ × ℕ} (start', add_sat_u64 start' width) (start, start + width)
window-fits start width h =
    rw (le→leb start u64_max (omega arith), le→leb (start + width) u64_max h) refl

cycle_window-eq :
    (a span : ℕ)
    → a + max span 1 ≤ u64_max
    → let n = max span 1 in cycle_window a span ≡ (a / n * n, a / n * n + n)
unfolding cycle_window
cycle_window-eq a span h =
    let (lo, hi) = bucket a (max span 1) (omega arith) in window-fits _ (max span 1) (omega arith)

-- For a score whose window ends below the u64 limit: the score lies in its window, and a score has
-- the same window as another exactly when it lies in that window, so that every tick of a window
-- finds the same cycle.
pub cycle_window-stable :
    (a b span : ℕ)
    → a + max span 1 ≤ u64_max
    → b + max span 1 ≤ u64_max
    → let (start, end) = cycle_window a span in
      (start ≤ a) × (a < end) × ((start ≤ b) × (b < end) ↔ (cycle_window b span ≡ (start, end)))
cycle_window-stable a b span ha hb =
    let n = max span 1 in
    let pos : 1 ≤ n = omega arith in
    let (lo, hi) = bucket a n pos in
    let (lo', hi') = bucket b n pos in
    rw (cycle_window-eq a span ha, cycle_window-eq b span hb)
      (
        lo,
        hi,
        (
          λ h. ap (λ q. (q * n, q * n + n)) (same_bucket a b n pos h.0 h.1),
          λ e. let start = ap (λ w. w.0) e in (omega arith, omega arith),
        ),
      )
