-- ===== src/Mass/Consolidation/Search.antt =====
-- The binary search for the input ceiling (`max_inputs_that_fit` of
-- crates/katpool-storagemass/src/consolidation.rs).
use katpool.Base.{
  ℕ, zero, suc, ◌+◌, ◌-◌, ◌/◌, ◌≤◌, ◌<◌, ◌≡◌, ◌↔◌, refl, sym, ◌∙◌, ◌⊎◌, inl, inr, subst, ltb,
  ltb→lt, ◌==◌, List, length, arith, none, some, Option-cases, Bool-cases, min,
}
use katpool.Mass.Types.{TreasuryUtxo, TxMass}
use katpool.Mass.Evaluator.{Consensus}
use katpool.Mass.Consolidation.{fits_prefix, search_prefix, max_inputs_that_fit}

zero_add : (k : ℕ) → 0 + k ≡ k
zero_add k = omega arith

suc_add : (d k : ℕ) → suc d + k ≡ suc (d + k)
suc_add d k = omega arith

module _ (consensus : Consensus) (script : ℕ) (utxos : List TreasuryUtxo) where
  abbrev pub Fits : ℕ → Type 0
  Fits n = (m : TxMass) × (fits_prefix consensus script utxos n ≡ some m)

  -- A length that fits, within the bound, and that no one-longer prefix within it extends.
  pub record IsCeiling (bound n : ℕ) : Type 0 where
    pub fits : Fits n
    pub within : n ≤ bound
    pub stuck : (n ≡ bound) ⊎ (fits_prefix consensus script utxos (suc n) ≡ none)

  above : (lo hi : ℕ) → lo < hi → suc (lo + (hi - lo + 1) / 2 - 1) ≡ lo + (hi - lo + 1) / 2
  above lo hi h = omega arith

  -- The two ends have met.
  met :
      (bound lo hi : ℕ)
      → Fits lo
      → hi ≡ lo
      → hi ≤ bound
      → (hi ≡ bound) ⊎ (fits_prefix consensus script utxos (suc hi) ≡ none)
      → IsCeiling bound lo
  met bound lo hi f e le top = record {
    fits = f;
    within = omega arith;
    stuck = subst (λ n. (n ≡ bound) ⊎ (fits_prefix consensus script utxos (suc n) ≡ none)) e top;
  }

  search_prefix-IsCeiling :
      (bound fuel lo hi : ℕ)
      → Fits lo
      → lo ≤ hi
      → hi ≤ bound
      → hi ≤ fuel + lo
      → (hi ≡ bound) ⊎ (fits_prefix consensus script utxos (suc hi) ≡ none)
      → IsCeiling bound (search_prefix consensus script utxos fuel lo hi)
  unfolding search_prefix
  search_prefix-IsCeiling bound zero lo hi f le le' enough top =
      met bound lo hi f (omega arith) le' top
  search_prefix-IsCeiling bound (suc fuel) lo hi f le le' enough top =
      elim (Bool-cases (ltb lo hi)) [
        | inl more ↦
            let less = ltb→lt lo hi more in
            elim (Option-cases (fits_prefix consensus script utxos (lo + (hi - lo + 1) / 2))) [
              | inl e ↦
                  rw (more, e, search_prefix)
                    (search_prefix-IsCeiling bound fuel lo _ f (omega arith) (omega arith)
                      (omega arith) (inr (rw (above lo hi less) e)))
              | inr fit ↦
                  rw (more, fit.1, search_prefix)
                    (search_prefix-IsCeiling bound fuel _ hi fit (omega arith) le' (omega arith)
                      top)
            ]
        | inr done ↦ rw (done, search_prefix) (met bound lo hi f (ground arith) le' top)
      ]

  -- not even one coin: there is none, the cap is 0, or a single coin does not fit
  abbrev pub NoneFit : ℕ → Type 0
  NoneFit bound = (bound ≡ 0) ⊎ (fits_prefix consensus script utxos 1 ≡ none)

  -- The input ceiling: it is 0, and then there is no coin, the cap is 0 or a single coin does not fit the
  -- mempool's limit; or the prefix of that length fits, is within the cap and the coins, and the next
  -- longer prefix is not or does not.
  pub max_inputs_that_fit-IsCeiling :
      (cap : ℕ)
      → ((max_inputs_that_fit consensus script utxos cap ≡ 0) × NoneFit (min cap (length utxos)))
        ⊎ IsCeiling (min cap (length utxos)) (max_inputs_that_fit consensus script utxos cap)
  unfolding max_inputs_that_fit
  max_inputs_that_fit-IsCeiling cap =
      let bound = min cap (length utxos) in
      elim (Bool-cases (bound == 0)) [
        | inl e ↦ rw (e, max_inputs_that_fit) (inl (refl, inl (ground arith)))
        | inr e ↦ elim (Option-cases (fits_prefix consensus script utxos 1)) [
          | inl e' ↦ rw (e, e', max_inputs_that_fit) (inl (refl, inr refl))
          | inr fit ↦
              rw (e, fit.1, max_inputs_that_fit)
                (inr (
                  search_prefix-IsCeiling bound bound 1 bound fit (ground arith) (omega arith)
                    (omega arith) (inl refl)))
        ]
      ]

  heavier-on :
      ((k : ℕ)
        → fits_prefix consensus script utxos k ≡ none
        → fits_prefix consensus script utxos (suc k) ≡ none)
      → (d k : ℕ) → fits_prefix consensus script utxos k ≡ none
      → fits_prefix consensus script utxos (d + k) ≡ none
  heavier-on heavier zero k e = rw (zero_add k) e
  heavier-on heavier (suc d) k e = rw (suc_add d k) (heavier (d + k) (heavier-on heavier d k e))

  none-up-to :
      ((k : ℕ)
        → fits_prefix consensus script utxos k ≡ none
        → fits_prefix consensus script utxos (suc k) ≡ none)
      → (k n : ℕ) → k ≤ n
      → fits_prefix consensus script utxos k ≡ none
      → fits_prefix consensus script utxos n ≡ none
  none-up-to heavier k n le e =
      let d : n - k + k ≡ n = omega arith in
      subst (λ m. fits_prefix consensus script utxos m ≡ none) d (heavier-on heavier (n - k) k e)

  not_both : (n : ℕ) → Fits n → fits_prefix consensus script utxos n ≡ none → ⊥
  not_both n (m, fit) e = let bad = sym fit ∙ e in cc

  -- When a prefix that is too heavy stays so with one more coin, the lengths within the cap and the coins
  -- whose prefix fits are just those up to the ceiling.
  pub max_inputs_that_fit-greatest :
      (cap n : ℕ)
      → ((k : ℕ)
          → fits_prefix consensus script utxos k ≡ none
          → fits_prefix consensus script utxos (suc k) ≡ none)
      → 1 ≤ n
      → n ≤ min cap (length utxos)
      → Fits n ↔ (n ≤ max_inputs_that_fit consensus script utxos cap)
  max_inputs_that_fit-greatest cap n heavier pos le =
      let r = max_inputs_that_fit consensus script utxos cap in
      elim (max_inputs_that_fit-IsCeiling cap) [
        | inl (zero_len, inl e) ↦ absurd (omega arith)
        | inl (zero_len, inr e) ↦ (
          λ fit. absurd (not_both n fit (none-up-to heavier 1 n pos e)),
          λ k. absurd (omega arith),
        )
        | inr c ↦ (
          λ fit. elim (Bool-cases (ltb r n)) [
            | inr within ↦ ground arith
            | inl beyond ↦ elim c.stuck [
              | inl e ↦ absurd (ground arith)
              | inr e ↦ absurd (not_both n fit (none-up-to heavier (suc r) n (ltb→lt r n beyond) e))
            ]
          ],
          λ k. elim (Option-cases (fits_prefix consensus script utxos n)) [
            | inl e ↦ absurd (not_both r c.fits (none-up-to heavier n r k e))
            | inr fit ↦ fit
          ],
        )
      ]
