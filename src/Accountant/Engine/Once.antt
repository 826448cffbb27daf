-- ===== src/Accountant/Engine/Once.antt =====
-- A reward is allocated once, and the accruals are what the allocations say
-- (accountant/src/allocation.rs).
use katpool.Base.{
  ℕ, ◌+◌, ◌≡◌, refl, ap, sym, ◌∙◌, subst, inl, inr, true, false, not, ◌==◌, ==_iff, if◌then◌else◌,
  Option, some, List, [], ◌∷◌, ◌++◌, sum_by-append, All, Result, ok, err, >>=-eq-ok, ok_inj, ok_or,
  map_err-ok, ok_or-ok, ◌||◌, map_err, Bool-cases, arith,
}
use mathlib.Core.List.{append-nil}
use katpool.Base.Float.{Float}
use katpool.Base.Int.{ℤ, pos, negsuc, pos_part}
use katpool.Accountant.Fee.{WalletTier, FeeConfig, Allocation}
use katpool.Accountant.Allocation.{
  DbError, AllocationEngineError, db, unknown_reward, ShareWindow, allocate_portions, divide_reward,
}
use katpool.Accountant.Ledger.{
  CoinbaseReward, lock_for_allocation, mark_allocated, NachoRebate, ShareRollup, close_window,
  ShareAllocation, insert_batch,
}
use katpool.Accountant.Engine
use katpool.Accountant.Engine.Effects.{
  allocated_of, is_allocated, is_allocated-mark_other, is_allocated-mark, accrued, accrual_of,
  rows_of, insert_batch-eq, accrue_all-accrued, new_rows-reward, rows_of-append, rows_of-other,
}

err_ok : {E A : Type 0} {e : E} {a : A} → ◌≡◌ {A = Result E A} (err e) (ok a) → ⊥
err_ok h = cc

module _ (fl : Float) where
  open fl use {F, zero_f, le_f, is_finite}

  -- no row stands for a reward that is not allocated
  abbrev pub NoRows : Engine.Books fl → Type 0
  NoRows b = (id : ℕ) → is_allocated id b.rewards ≡ false → rows_of fl id b.allocations ≡ []

  -- What later books owe to earlier ones: an allocated reward stays so with the same rows; each wallet
  -- has accrued what its new rows say; and a reward that is not allocated still has no rows.
  pub record Evolves (b b' : Engine.Books fl) : Type 0 where
    pub stays : (id : ℕ) → is_allocated id b.rewards ≡ true → is_allocated id b'.rewards ≡ true
    pub frozen :
        (id : ℕ)
        → is_allocated id b.rewards ≡ true
        → rows_of fl id b'.allocations ≡ rows_of fl id b.allocations
    pub owed :
        (wallet : ℕ)
        → accrued wallet b'.accruals + accrual_of fl wallet b.allocations
          ≡ accrued wallet b.accruals + accrual_of fl wallet b'.allocations
    pub no_rows : NoRows b → NoRows b'

  pub Evolves-refl : (b : Engine.Books fl) → Evolves b b
  Evolves-refl b = record {
    stays = λ id h. h;
    frozen = λ id h. refl;
    owed = λ wallet. refl;
    no_rows = λ n. n;
  }

  pub Evolves-trans : {a b c : Engine.Books fl} → Evolves a b → Evolves b c → Evolves a c
  Evolves-trans f g = record {
    stays = λ id h. g.stays id (f.stays id h);
    frozen = λ id h. g.frozen id (f.stays id h) ∙ f.frozen id h;
    owed = λ wallet. omega (arith, f.owed wallet, g.owed wallet);
    no_rows = λ n. g.no_rows (f.no_rows n);
  }

  -- the books after a reward is stamped, with the rows and accruals given
  abbrev pub stamped :
      ℕ
      → List (ShareAllocation fl)
      → List NachoRebate
      → List Engine.AuditEntry
      → Engine.Books fl
      → Engine.Books fl
  stamped id rows accruals audit b = record {
    rewards = mark_allocated id b.rewards;
    allocations = rows;
    accruals = accruals;
    audit = audit;
  }

  other_than :
      (id other : ℕ) (b : Engine.Books fl)
      → is_allocated id b.rewards ≡ false
      → is_allocated other b.rewards ≡ true
      → (id == other) ≡ false
  other_than id other b open' shut = elim (Bool-cases (id == other)) [
    | inl e ↦ cc (subst (λ i. is_allocated i b.rewards ≡ false) ((==_iff id other).0 e) open')
    | inr e ↦ e
  ]

  stamped-allocated :
      (id : ℕ) (b : Engine.Books fl) (r : CoinbaseReward)
      → lock_for_allocation id b.rewards ≡ some r
      → is_allocated id (mark_allocated id b.rewards) ≡ true
  stamped-allocated id b r found = elim (is_allocated-mark id b.rewards) [
    | inl none_there ↦ cc
    | inr h ↦ h
  ]

  stamped-Evolves :
      (id : ℕ) (new : List (ShareAllocation fl)) (accruals : List NachoRebate)
      (audit : List Engine.AuditEntry) (b : Engine.Books fl) (r : CoinbaseReward)
      → lock_for_allocation id b.rewards ≡ some r
      → is_allocated id b.rewards ≡ false
      → All (λ q. q.coinbase_reward_id ≡ id) new
      → ((w : ℕ) → accrued w accruals ≡ accrued w b.accruals + accrual_of fl w new)
      → Evolves b (stamped id (b.allocations ++ new) accruals audit b)
  stamped-Evolves id new accruals audit b r found open' mine sums = record {
    stays =
        λ other h. is_allocated-mark_other id other b.rewards (other_than id other b open' h) ∙ h;
    frozen = λ other h.
        rows_of-append fl other b.allocations new
        ∙ ap (λ t. rows_of fl other b.allocations ++ t)
            (rows_of-other fl id other new (other_than id other b open' h) mine)
        ∙ append-nil _;
    owed = λ w. omega (
      arith,
      sums w,
      sum_by-append (λ r. if r.row_wallet == w then pos_part r.split.nacho_accrual_sompi else 0)
          b.allocations new,
    );
    no_rows = λ n other h. elim (Bool-cases (id == other)) [
      | inl e ↦ cc (
          subst (λ i. is_allocated i (mark_allocated id b.rewards) ≡ true) ((==_iff id other).0 e)
            (stamped-allocated id b r found))
      | inr e ↦
          rows_of-append fl other b.allocations new
          ∙ ap (λ t. t ++ rows_of fl other new)
              (n other (sym (is_allocated-mark_other id other b.rewards e) ∙ h))
          ∙ rows_of-other fl id other new e mine
    ];
  }

  -- A relation that holds of equal books, and of books and the same with a reward stamped, holds of the
  -- books before and after every call.
  module _ (R : Engine.Books fl → Engine.Books fl → Type 0) (R_refl : (b : Engine.Books fl) → R b b)
      (R_stamp : (id : ℕ) (new : List (ShareAllocation fl)) (accruals : List NachoRebate)
          (audit : List Engine.AuditEntry) (b : Engine.Books fl) (r : CoinbaseReward)
        → lock_for_allocation id b.rewards ≡ some r
        → is_allocated id b.rewards ≡ false
        → All (λ q. q.coinbase_reward_id ≡ id) new
        → ((w : ℕ) → accrued w accruals ≡ accrued w b.accruals + accrual_of fl w new)
        → R b (stamped id (b.allocations ++ new) accruals audit b)) where
    -- what a call does to the books, when it commits
    Step :
        Engine.Books fl
        → Result AllocationEngineError (Engine.Books fl × Engine.AllocationOutcome)
        → Type 0
    Step b r = (b' : Engine.Books fl) (o : Engine.AllocationOutcome) → r ≡ ok (b', o) → R b b'

    gate-rule :
        (id : ℕ) (b : Engine.Books fl)
        (fresh : Result AllocationEngineError (Engine.Books fl × Engine.AllocationOutcome))
        → ((r : CoinbaseReward)
            → lock_for_allocation id b.rewards ≡ some r
            → is_allocated id b.rewards ≡ false
            → Step b fresh)
        → Step b (Engine.gate fl id b fresh)
    unfolding Engine.gate Step is_allocated
    gate-rule id b fresh step b' o h =
        let (r, e, k) =
          >>=-eq-ok (ok_or (lock_for_allocation id b.rewards) (unknown_reward id)) _ h in
        let found = ok_or-ok (lock_for_allocation id b.rewards) (unknown_reward id) e in
        elim (Bool-cases r.allocated) [
          | inl done ↦ subst (R b) (ap (λ p. p.0) (ok_inj (rw done at k))) (R_refl b)
          | inr fresh_one ↦
              step r found (ap allocated_of found ∙ fresh_one) b' o (rw fresh_one at k)
        ]

    fresh-rule :
        (id : ℕ) (total : F) (ws : List (ShareWindow fl)) (allocations : List Allocation)
        (residue : ℤ) (b : Engine.Books fl) (r : CoinbaseReward)
        → lock_for_allocation id b.rewards ≡ some r
        → is_allocated id b.rewards ≡ false
        → Step b (Engine.write_fresh fl id total ws allocations residue b)
    unfolding Engine.write_fresh Step
    fresh-rule id total ws allocations residue b r found open' b' o h =
        let new = Engine.new_rows fl id total ws allocations in
        let (rows, e1, h1) = >>=-eq-ok (map_err db (insert_batch fl new b.allocations)) _ h in
        let (accruals, e2, h2) =
          >>=-eq-ok (map_err db (Engine.accrue_all fl ws allocations b.accruals)) _ h1 in
        let rows_eq = insert_batch-eq fl new b.allocations (map_err-ok db _ e1) in
        let step =
          R_stamp id new accruals (b.audit ++ Engine.reward_allocated id ∷ []) b r found open'
            (new_rows-reward fl id total ws allocations)
            (λ w.
              accrue_all-accrued fl w id total ws allocations b.accruals (map_err-ok db _ e2)) in
        subst (R b)
          (ap (λ t. stamped id t accruals (b.audit ++ Engine.reward_allocated id ∷ []) b)
              (sym rows_eq)
            ∙ ap (λ p. p.0) (ok_inj h2))
          step

    retain-rule :
        (id reward : ℕ) (b : Engine.Books fl) (r : CoinbaseReward)
        → lock_for_allocation id b.rewards ≡ some r
        → is_allocated id b.rewards ≡ false
        → Step b (ok (Engine.retain_reward fl id reward b))
    unfolding Step
    retain-rule id reward b r found open' b' o h =
        subst (R b)
          (ap (λ t. stamped id t b.accruals (b.audit ++ Engine.reward_allocated_empty id ∷ []) b)
              (append-nil b.allocations)
            ∙ ap (λ p. p.0) (ok_inj h))
          (R_stamp id [] b.accruals _ b r found open' tt (λ w. omega arith))

    module _ (fee : FeeConfig) (address_of : ℕ → Option ℕ) (classify : ℕ → Option WalletTier) where
      rows-rule :
          (id reward : ℕ) (ws : List (ShareWindow fl)) (b : Engine.Books fl)
          → Step b (Engine.allocate_rows fl fee address_of classify id reward ws b)
      unfolding Engine.allocate_rows Step
      rows-rule id reward ws b b' o h =
          let total = Engine.weight_sum fl zero_f ws in
          elim (Bool-cases (not (is_finite total) || le_f total zero_f)) [
            | inl e ↦ absurd (err_ok (rw e at h))
            | inr e ↦
                let (allocations, _, k) =
                  >>=-eq-ok
                    (allocate_portions fee address_of classify (divide_reward fl reward total ws)) _
                    (rw e at h) in
                unfold Step in gate-rule id b _ (fresh-rule id total ws allocations _ b) b' o k
          ]

      closed-rule :
          (id reward : ℕ) (ws : List (ShareWindow fl)) (b : Engine.Books fl)
          → Step b (Engine.allocate_closed fl fee address_of classify id reward ws b)
      unfolding Engine.allocate_closed Engine.finalise_empty
      closed-rule id reward [] b = gate-rule id b _ (retain-rule id reward b)
      closed-rule id reward (w ∷ ws) b = rows-rule id reward (w ∷ ws) b

      commit-rule :
          (l : Engine.Ledger fl)
          (r : Result AllocationEngineError (Engine.Books fl × Engine.AllocationOutcome))
          → Step l.books r
          → R l.books (Engine.commit fl fee address_of classify l r).0.books
      unfolding Engine.commit Step
      commit-rule l (err e) step = R_refl l.books
      commit-rule l (ok (b, outcome)) step = step b outcome refl

      after-rule :
          (id reward daa_start daa_end : ℕ) (l : Engine.Ledger fl)
          (windows : Result DbError (List (ShareRollup fl)))
          → R l.books
              (Engine.allocate_after_close fl fee address_of classify id reward daa_start daa_end l
                windows).0.books
      unfolding Engine.allocate_after_close
      after-rule id reward daa_start daa_end l (err e) = R_refl l.books
      after-rule id reward daa_start daa_end l (ok windows) =
          commit-rule (Engine.with_windows fl windows l) _ (closed-rule id reward _ l.books)

      pub allocate_coinbase_reward-rule :
          (id : ℕ) (reward : ℤ) (daa_start daa_end : ℕ) (l : Engine.Ledger fl)
          → R l.books
              (Engine.allocate_coinbase_reward fl fee address_of classify id reward daa_start
                daa_end l).0.books
      unfolding Engine.allocate_coinbase_reward
      allocate_coinbase_reward-rule id (negsuc n) daa_start daa_end l = R_refl l.books
      allocate_coinbase_reward-rule id (pos reward) daa_start daa_end l =
          after-rule id reward daa_start daa_end l
            (close_window fl daa_start daa_end l.shares l.windows)

  module _ (fee : FeeConfig) (address_of : ℕ → Option ℕ) (classify : ℕ → Option WalletTier) where
    -- Whatever a call of the allocation returns, an error included, an allocated reward keeps its rows,
    -- each wallet has accrued exactly what the new rows say, and a reward that is not allocated has no
    -- rows as long as that held before.
    pub allocate_coinbase_reward-Evolves :
        (id : ℕ) (reward : ℤ) (daa_start daa_end : ℕ) (l : Engine.Ledger fl)
        → Evolves l.books
            (Engine.allocate_coinbase_reward fl fee address_of classify id reward daa_start daa_end
              l).0.books
    allocate_coinbase_reward-Evolves id reward daa_start daa_end l =
        allocate_coinbase_reward-rule Evolves Evolves-refl stamped-Evolves fee address_of classify
          id reward daa_start daa_end l
