-- ===== src/Mass/Planner/Partition.antt =====
-- Where each recipient ends up (`plan_batches` of crates/katpool-storagemass/src/planner.rs): in one
-- batch, among the unpaid or below the floor.
use katpool.Base.{
  ℕ, ◌+◌, ◌<◌, ◌≡◌, some, List, [], ◌∷◌, ◌++◌, arith, leb, sum_by, sum_by-append, sum_by-retain,
  sum_by-split, length,
}
use katpool.Base.Bag.{SameItems, sort_by-SameItems}
use katpool.Base.Float.{Float}
use katpool.Base.Loop.{iterate_inv}
use katpool.Base.Word.{u64_max}
use katpool.Mass.Types.{TreasuryUtxo, PayoutRecipient, PlannedBatch, input_sum}
use katpool.Mass.Fee.{FeeRate}
use katpool.Mass.Evaluator.{Consensus}
use katpool.Mass.Planner.{
  clears_floor, partition_by_floor, sort_recipients_desc, remove_paid, Planning, after_batch,
  plan_step, plan_start, plan_loop, plan_batches,
}
use katpool.Mass.Planner.Removal.{DistinctIds, has_id, remove_paid-exact, remove_paid-sum}
use katpool.Mass.Planner.Invariant.{Kept, plan_step-Round, plan_step-Kept, plan_start-Kept}

-- The payouts of all the batches.
abbrev pub all_payouts : List PlannedBatch → List PayoutRecipient
all_payouts [] = []
all_payouts (b ∷ bs) = b.payouts ++ all_payouts bs

all_payouts-append :
    (f : PayoutRecipient → ℕ) (bs cs : List PlannedBatch)
    → sum_by f (all_payouts (bs ++ cs)) ≡ sum_by f (all_payouts bs) + sum_by f (all_payouts cs)
all_payouts-append f [] cs = omega arith
all_payouts-append f (b ∷ bs) cs =
    let e = all_payouts-append f bs cs in
    let a = sum_by-append f b.payouts (all_payouts (bs ++ cs)) in
    let c = sum_by-append f b.payouts (all_payouts bs) in omega arith

module _ (fl : Float) (consensus : Consensus) (script : ℕ) (rate : FeeRate fl) where
  module _ (treasury : ℕ) (small : treasury < u64_max) (payable : List PayoutRecipient) where
    record Shared (s : Planning) : Type 0 where
      kept : Kept fl consensus script rate treasury s
      distinct : DistinctIds s.payable
      items : SameItems (all_payouts s.batches ++ s.payable) payable

    plan_step-Shared :
        (s t : Planning) → Shared s → plan_step fl consensus script rate s ≡ some t → Shared t
    unfolding after_batch remove_paid
    plan_step-Shared s t h e =
        let (b, sound, k, i, e') =
          plan_step-Round fl consensus script rate s (omega (arith, h.kept.funds)) e in
        record {
          kept = plan_step-Kept fl consensus script rate treasury small s t h.kept e;
          distinct = rw (e') (λ i. omega (arith, remove_paid-sum (has_id i) k, h.distinct i));
          items = rw (e') (λ f.
              let a = sum_by-append f (all_payouts s.batches) s.payable in
              let c =
                sum_by-append f (all_payouts (s.batches ++ b ∷ []))
                  (remove_paid s.payable b.payouts) in
              let d = all_payouts-append f s.batches (b ∷ []) in
              let g = sum_by-append f b.payouts [] in
              omega (arith, h.items f, remove_paid-exact f k h.distinct));
        }

  module _ (utxos : List TreasuryUtxo) (recipients : List PayoutRecipient)
      (small : input_sum utxos < u64_max) (distinct : DistinctIds recipients) where
    start-Shared :
        Shared
          (input_sum utxos)
          small
          (partition_by_floor recipients).0
          (plan_start fl consensus script rate utxos recipients)
    unfolding plan_start sort_recipients_desc partition_by_floor
    start-Shared =
        let e =
          sort_by-SameItems (λ a b. leb b.amount_sompi a.amount_sompi)
            (partition_by_floor recipients).0 in
        record {
          kept = plan_start-Kept fl consensus script rate utxos recipients;
          distinct = λ i.
              omega
                (arith, e (has_id i), sum_by-retain (has_id i) clears_floor recipients, distinct i);
          items = λ f. omega (arith, e f);
        }

    -- For a treasury below the u64 limit and recipients with distinct ids: nobody is lost, invented,
    -- altered or paid twice. The payouts of the batches, the unpaid and those below the floor are
    -- together the recipients, each as often as it was asked for, up to order.
    pub plan_batches-partitions :
        let r = plan_batches fl consensus script rate utxos recipients in
        SameItems (all_payouts r.batches ++ r.unpaid ++ r.deferred_below_floor) recipients
    unfolding plan_batches plan_loop partition_by_floor
    plan_batches-partitions f =
        let start = plan_start fl consensus script rate utxos recipients in
        let shared =
          iterate_inv (plan_step fl consensus script rate) (Shared (input_sum utxos) small _)
            (plan_step-Shared (input_sum utxos) small _) (length start.payable) start
            start-Shared in
        let r = plan_batches fl consensus script rate utxos recipients in
        let a = sum_by-append f (all_payouts r.batches ++ r.unpaid) r.deferred_below_floor in
        let c = sum_by-append f (all_payouts r.batches) r.unpaid in
        omega (arith, shared.items f, sum_by-split f clears_floor recipients)
