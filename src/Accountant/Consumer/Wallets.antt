-- ===== src/Accountant/Consumer/Wallets.antt =====
-- The ids of the wallets (crates/katpool-db/src/repo/wallet.rs).
use katpool.Base.{
  ℕ, ◌+◌, ◌≤◌, ◌≡◌, refl, sym, ◌∙◌, ◌⊎◌, inl, inr, ◌==◌, ==_iff, ==_refl, if◌then◌else◌, some,
  Bool-cases, Option-cases, arith,
}
use katpool.Base.Table.{ℕ_key, lookup, insert, lookup-insert}
use katpool.Accountant.Consumer.{Wallets, ensure_wallet}

-- the ids of wallets are ones that the sequence has given, each to one address
pub record IsKeyed (wallets : Wallets) (seq : ℕ) : Type 0 where
  pub below : (address id : ℕ) → lookup address wallets ≡ some id → id ≤ seq
  pub one_each : (a b id : ℕ) → lookup a wallets ≡ some id → lookup b wallets ≡ some id → a ≡ b

-- an address that has an id keeps it
abbrev pub Keeps : Wallets → Wallets → Type 0
Keeps before after =
    (address id : ℕ) → lookup address before ≡ some id → lookup address after ≡ some id

lookup-added :
    (address fresh a i : ℕ) (wallets : Wallets)
    → lookup a (insert address fresh wallets) ≡ some i
    → ((a ≡ address) × (i ≡ fresh)) ⊎ (lookup a wallets ≡ some i)
lookup-added address fresh a i wallets h = elim (Bool-cases (address == a)) [
  | inl e ↦
      let there : (if address == a then some fresh else lookup a wallets) ≡ some i =
        sym (lookup-insert address a fresh wallets) ∙ h in
      inl (sym ((==_iff address a).0 e), ground (arith, there, e))
  | inr e ↦
      let there : (if address == a then some fresh else lookup a wallets) ≡ some i =
        sym (lookup-insert address a fresh wallets) ∙ h in
      inr (ground (arith, there, e))
]

pub ensure_wallet-IsKeyed :
    (address seq : ℕ) (wallets : Wallets)
    → IsKeyed wallets seq
    → let out = ensure_wallet address (seq + 1) wallets in
      IsKeyed out.0 (seq + 1) × Keeps wallets out.0 × (lookup address out.0 ≡ some out.1)
unfolding ensure_wallet
ensure_wallet-IsKeyed address seq wallets k = elim (Option-cases (lookup address wallets)) [
  | inr (id, known) ↦ rw known (
    record { below = λ a i h. ground (arith, k.below a i h); one_each = k.one_each },
    (λ a i h. h),
    known,
  )
  | inl unknown ↦ rw unknown (
    record {
      below = λ a i h. ground (arith, lookup-added address (seq + 1) a i wallets h, k.below a i);
      one_each = λ a b i h h'. ground (
        arith,
        lookup-added address (seq + 1) a i wallets h,
        lookup-added address (seq + 1) b i wallets h',
        k.below a i,
        k.below b i,
        k.one_each a b i,
      );
    },
    (λ a i h. elim (Bool-cases (address == a)) [
      | inl e ↦ absurd (ground (arith, h, unknown, ==_iff address a))
      | inr e ↦ rw (lookup-insert address a (seq + 1) wallets, e) h
    ]),
    lookup-insert address address (seq + 1) wallets ∙ rw (==_refl address) refl,
  )
]
