-- ===== src/Bridge/Duplicates/Fresh.antt =====
-- A key that is not in the guard stays out of it until it is inserted (`DuplicateSubmitGuard` of
-- bridge/src/share_handler.rs).
use katpool.Base.{
  ℕ, ◌≡◌, refl, ◌∙◌, false, inl, inr, ltb, none, List, [], ◌∷◌, length, Bool-cases, Option-cases,
  arith,
}
use katpool.Base.Table.{lookup, remove, lookup-insert, lookup-remove}
use katpool.Bridge.Duplicates.{
  DuplicateSubmitOutcome, SubmitKey, SubmitKey_key, key_eq, DuplicateSubmitGuard, Entries,
  is_expired, prune_expired, prune_excess, prune, get, insert_inflight, set_outcome,
}

-- Pruning never brings a key back.
prune_expired-none :
    (now ttl : ℕ) (key : SubmitKey) (entries : Entries) (order : List SubmitKey)
    → lookup key entries ≡ none
    → lookup key (prune_expired now ttl entries order).0 ≡ none
unfolding prune_expired
prune_expired-none now ttl key entries [] h = h
prune_expired-none now ttl key entries (k ∷ order) h =
    elim (Bool-cases (is_expired now ttl (lookup k entries))) [
      | inl e ↦ rw e (
          prune_expired-none now ttl key (remove k entries) order
            (lookup-remove k key entries ∙ ground (arith, h)))
      | inr e ↦ rw e h
    ]

prune_excess-none :
    (max_entries : ℕ) (key : SubmitKey) (entries : Entries) (order : List SubmitKey)
    → lookup key entries ≡ none
    → lookup key (prune_excess max_entries entries order).0 ≡ none
unfolding prune_excess
prune_excess-none max_entries key entries [] h = h
prune_excess-none max_entries key entries (k ∷ order) h =
    elim (Bool-cases (ltb max_entries (length entries))) [
      | inl e ↦ rw e (
          prune_excess-none max_entries key (remove k entries) order
            (lookup-remove k key entries ∙ ground (arith, h)))
      | inr e ↦ rw e h
    ]

-- the key is not in the guard
abbrev pub IsFresh : SubmitKey → DuplicateSubmitGuard → Type 0
IsFresh key g = lookup key g.entries ≡ none

pub prune-IsFresh :
    (now : ℕ) (key : SubmitKey) (g : DuplicateSubmitGuard)
    → IsFresh key g
    → IsFresh key (prune now g)
unfolding prune
prune-IsFresh now key g h =
    let (entries, order) = prune_expired now g.ttl g.entries g.order in
    prune_excess-none g.max_entries key entries order
      (prune_expired-none now g.ttl key g.entries g.order h)

pub get-IsFresh :
    (now : ℕ) (key : SubmitKey) (g : DuplicateSubmitGuard)
    → IsFresh key g
    → get key now g ≡ (prune now g, none)
unfolding get
get-IsFresh now key g h = rw (prune-IsFresh now key g h) refl

pub insert_inflight-IsFresh :
    (now : ℕ) (other key : SubmitKey) (g : DuplicateSubmitGuard)
    → key_eq other key ≡ false
    → IsFresh key g
    → IsFresh key (insert_inflight other now g)
unfolding insert_inflight
insert_inflight-IsFresh now other key g e h =
    let pruned = prune now g in
    elim (Option-cases (lookup other pruned.entries)) [
      | inl gone ↦
          rw gone (lookup-insert other key _ pruned.entries ∙ rw e (prune-IsFresh now key g h))
      | inr (entry, there) ↦ rw there (prune-IsFresh now key g h)
    ]

pub set_outcome-IsFresh :
    (later : ℕ) (other key : SubmitKey) (outcome : DuplicateSubmitOutcome)
    (g : DuplicateSubmitGuard)
    → key_eq other key ≡ false
    → IsFresh key g
    → IsFresh key (set_outcome other later outcome g)
unfolding set_outcome
set_outcome-IsFresh later other key outcome g e h =
    let pruned = prune later g in
    elim (Option-cases (lookup other pruned.entries)) [
      | inl gone ↦ rw gone (prune-IsFresh later key g h)
      | inr (entry, there) ↦
          rw there (lookup-insert other key _ pruned.entries ∙ rw e (prune-IsFresh later key g h))
    ]
