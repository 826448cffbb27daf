-- ===== src/KasPayout/Cycle/Status.antt =====
-- The status of a cycle against its recipients (`derive_cycle_status` of payout-kas/src/cycle.rs).
use katpool.Base.{
  suc, ◌+◌, ◌≤◌, ◌≡◌, refl, Bool, true, false, ◌==◌, ltb, if◌then◌else◌, List, [], ◌∷◌, length, any,
  arith, Bool-cases, inl, inr,
}
use katpool.KasPayout.Rows.{
  PayoutCycleStatus, cycle_planned, broadcasting, partially_settled, settled, cycle_failed,
  PayoutStatus, planned, submitted, accepted, confirmed, failed, Payout,
}
use katpool.KasPayout.Cycle.{
  is_planned, is_in_flight, is_confirmed, is_failed, tally, from_payouts, derive_cycle_status,
}

abbrev pub some_row : (PayoutStatus → Bool) → List Payout → Bool
some_row test = any (λ p. test p.status)

abbrev pub every_row : (PayoutStatus → Bool) → List Payout → Bool
every_row test [] = true
every_row test (p ∷ ps) = if test p.status then every_row test ps else false

-- The status read off the recipients themselves.
abbrev pub expected_status : List Payout → PayoutCycleStatus
expected_status payouts =
    if every_row is_planned payouts
    then cycle_planned
    else if every_row is_confirmed payouts
    then settled
    else if some_row is_confirmed payouts
    then partially_settled
    else if every_row is_failed payouts
    then cycle_failed
    else broadcasting

tally-le-length : (test : PayoutStatus → Bool) (ps : List Payout) → tally test ps ≤ length ps
tally-le-length test [] = omega arith
tally-le-length test (p ∷ ps) = ground (arith, tally-le-length test ps)

every_row-tally :
    (test : PayoutStatus → Bool) (ps : List Payout)
    → every_row test ps ≡ (tally test ps == length ps)
every_row-tally test [] = refl
every_row-tally test (p ∷ ps) =
    let e = every_row-tally test ps in
    let le = tally-le-length test ps in
    elim (Bool-cases (test p.status)) [
      | inl h ↦ rw (h, e) (ground arith)
      | inr h ↦ rw (h) (ground arith)
    ]

some_row-tally :
    (test : PayoutStatus → Bool) (ps : List Payout) → some_row test ps ≡ ltb 0 (tally test ps)
some_row-tally test [] = refl
some_row-tally test (p ∷ ps) =
    let e = some_row-tally test ps in
    elim (Bool-cases (test p.status)) [
      | inl h ↦ rw (h) (ground arith)
      | inr h ↦ rw (h, e) (ground arith)
    ]

-- Each row is counted exactly once.
counts-total :
    (ps : List Payout)
    → tally is_planned ps + tally is_in_flight ps + tally is_confirmed ps + tally is_failed ps
      ≡ length ps
counts-total [] = refl
counts-total (p ∷ ps) =
    let e = counts-total ps in
    elim (p.status)
      as (λ s.
        (if is_planned s then 1 else 0)
          + tally is_planned ps
          + ((if is_in_flight s then 1 else 0) + tally is_in_flight ps)
          + ((if is_confirmed s then 1 else 0) + tally is_confirmed ps)
          + ((if is_failed s then 1 else 0) + tally is_failed ps)
        ≡ suc (length ps)) [
          | planned ↦ omega arith
          | submitted ↦ omega arith
          | accepted ↦ omega arith
          | confirmed ↦ omega arith
          | failed ↦ omega arith
        ]

-- The status folded from the counts is the one that the recipients call for: planned when none has
-- moved, settled when all are confirmed, partially settled when some are, failed when all have
-- failed, and broadcasting otherwise.
pub derive_cycle_status-expected :
    (ps : List Payout) → derive_cycle_status (from_payouts ps) ≡ expected_status ps
unfolding derive_cycle_status from_payouts
derive_cycle_status-expected ps =
    let total = counts-total ps in
    rw
      (
        every_row-tally is_planned ps,
        every_row-tally is_confirmed ps,
        every_row-tally is_failed ps,
        some_row-tally is_confirmed ps,
      )
      (ground arith)
