-- ===== src/Base/Table.antt =====
-- A `HashMap` as an association list, over an interface of keys.
use katpool.Base.Tests.{◌==◌, ==_iff, if◌then◌else◌}
use katpool.Base.Lists.{length}
use Prim.Native.Nat.{ℕ, ◌+◌, ◌≤◌}
use mathlib.Core.Path.{◌≡◌, refl}
use mathlib.Core.Logic.{◌↔◌}
use mathlib.Core.Bool.{Bool, true}
use mathlib.Core.Option.{Option, none, some}
use mathlib.Core.List.{List, [], ◌∷◌}
use native.Mathlib.Omega.{arith}

pub record Key (K : Type 0) : Type 0 where
  pub same : K → K → Bool
  pub same_iff : (a b : K) → (same a b ≡ true) ↔ (a ≡ b)

instance abbrev pub ℕ_key : Key ℕ
ℕ_key = record { same = ◌==◌; same_iff = ==_iff }

module _ {K V : Type 0} ⦃key : Key K⦄ where
  unfoldable pub lookup : K → List (K × V) → Option V
  lookup k [] = none
  lookup k ((j, v) ∷ t) = if key.same j k then some v else lookup k t

  unfoldable pub insert : K → V → List (K × V) → List (K × V)
  insert k v [] = (k, v) ∷ []
  insert k v ((j, w) ∷ t) = if key.same j k then (k, v) ∷ t else (j, w) ∷ insert k v t

  unfoldable pub remove : K → List (K × V) → List (K × V)
  remove k [] = []
  remove k ((j, w) ∷ t) = if key.same j k then remove k t else (j, w) ∷ remove k t

  pub lookup-insert :
      (k j : K) (v : V) (t : List (K × V))
      → lookup j (insert k v t) ≡ (if key.same k j then some v else lookup j t)
  unfolding lookup insert
  lookup-insert k j v [] = refl
  lookup-insert k j v ((i, w) ∷ t) =
      ground (arith, key.same_iff k j, key.same_iff i k, key.same_iff i j, lookup-insert k j v t)

  pub lookup-remove :
      (k j : K) (t : List (K × V))
      → lookup j (remove k t) ≡ (if key.same k j then none else lookup j t)
  unfolding lookup remove
  lookup-remove k j [] = ground arith
  lookup-remove k j ((i, w) ∷ t) =
      ground (arith, key.same_iff k j, key.same_iff i k, key.same_iff i j, lookup-remove k j t)

  -- how often a key stands in the table
  abbrev pub occurs : K → List (K × V) → ℕ
  occurs k [] = 0
  occurs k ((j, w) ∷ t) = if key.same j k then 1 + occurs k t else occurs k t

  pub occurs-insert :
      (k j : K) (v : V) (t : List (K × V))
      → occurs j (insert k v t)
        ≡ (if key.same k j then (if occurs j t == 0 then 1 else occurs j t) else occurs j t)
  unfolding insert
  occurs-insert k j v [] = ground (arith, key.same_iff k j)
  occurs-insert k j v ((i, w) ∷ t) =
      ground (arith, key.same_iff k j, key.same_iff i k, key.same_iff i j, occurs-insert k j v t)

  pub occurs-remove :
      (k j : K) (t : List (K × V))
      → occurs j (remove k t) ≡ (if key.same k j then 0 else occurs j t)
  unfolding remove
  occurs-remove k j [] = ground arith
  occurs-remove k j ((i, w) ∷ t) =
      ground (arith, key.same_iff k j, key.same_iff i k, key.same_iff i j, occurs-remove k j t)

  pub length-insert :
      (k : K) (v : V) (t : List (K × V))
      → length (insert k v t) ≡ (if occurs k t == 0 then 1 + length t else length t)
  unfolding insert
  length-insert k v [] = refl
  length-insert k v ((i, w) ∷ t) = ground (arith, length-insert k v t)

  pub length-remove : (k : K) (t : List (K × V)) → length (remove k t) + occurs k t ≡ length t
  unfolding remove
  length-remove k [] = refl
  length-remove k ((i, w) ∷ t) = ground (arith, length-remove k t)

  pub occurs-none : (k : K) (t : List (K × V)) → lookup k t ≡ none → occurs k t ≡ 0
  unfolding lookup
  occurs-none k [] h = refl
  occurs-none k ((i, w) ∷ t) h = ground (arith, occurs-none k t)

  pub occurs-some : (k : K) (v : V) (t : List (K × V)) → lookup k t ≡ some v → 1 ≤ occurs k t
  unfolding lookup
  occurs-some k v [] h = ground arith
  occurs-some k v ((i, w) ∷ t) h = ground (arith, occurs-some k v t)

pub same_self : {K : Type 0} ⦃key : Key K⦄ (k : K) → key.same k k ≡ true
same_self ⦃key⦄ k = (key.same_iff k k).1 refl
