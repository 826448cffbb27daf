-- ===== src/Bridge/Duplicates.antt =====
-- The guard against submissions that come twice (bridge/src/share_handler.rs). The key is a text of
-- three fields between bars; the last two, a decimal and a hexadecimal number, contain no bar, so that
-- the text and the fields determine each other. An `Instant` is a number, and a duration saturates.
pub mod Fresh
use katpool.Base.{
  ℕ, ◌-◌, ◌==◌, ==_iff, ◌≡◌, ◌↔◌, Bool, true, false, ◌&&◌, if◌then◌else◌, ltb, Option, none, some,
  List, [], ◌∷◌, ◌++◌, length, arith,
}
use katpool.Base.Table.{Key, lookup, insert, remove}

pub data DuplicateSubmitOutcome : Type 0 where
  in_flight accepted stale low_diff bad : DuplicateSubmitOutcome

pub record SubmitKey : Type 0 where
  pub key_worker : ℕ
  pub key_job : ℕ
  pub key_nonce : List ℕ

abbrev pub bytes_eq : List ℕ → List ℕ → Bool
bytes_eq [] [] = true
bytes_eq (a ∷ as') (b ∷ bs) = a == b && bytes_eq as' bs
bytes_eq _ _ = false

bytes_eq_iff : (a b : List ℕ) → (bytes_eq a b ≡ true) ↔ (a ≡ b)
bytes_eq_iff [] [] = ground arith
bytes_eq_iff [] (b ∷ bs) = ground arith
bytes_eq_iff (a ∷ as') [] = ground arith
bytes_eq_iff (a ∷ as') (b ∷ bs) = ground (arith, bytes_eq_iff as' bs)

abbrev pub key_eq : SubmitKey → SubmitKey → Bool
key_eq a b =
    a.key_worker == b.key_worker && (a.key_job == b.key_job && bytes_eq a.key_nonce b.key_nonce)

pub key_eq_iff : (a b : SubmitKey) → (key_eq a b ≡ true) ↔ (a ≡ b)
key_eq_iff a b = ground (arith, bytes_eq_iff a.key_nonce b.key_nonce)

instance abbrev pub SubmitKey_key : Key SubmitKey
SubmitKey_key = record { same = key_eq; same_iff = key_eq_iff }

pub record DuplicateSubmitEntry : Type 0 where
  pub ts : ℕ
  pub outcome : DuplicateSubmitOutcome

abbrev pub Entries : Type 0
Entries = List (SubmitKey × DuplicateSubmitEntry)

pub record DuplicateSubmitGuard : Type 0 where
  pub ttl : ℕ
  pub max_entries : ℕ
  pub entries : Entries
  pub order : List SubmitKey

-- `DuplicateSubmitGuard::new`
unfoldable pub new_guard : ℕ → ℕ → DuplicateSubmitGuard
new_guard ttl max_entries = record {
  ttl = ttl;
  max_entries = max_entries;
  entries = [];
  order = [];
}

abbrev pub is_expired : ℕ → ℕ → Option DuplicateSubmitEntry → Bool
is_expired now ttl none = true
is_expired now ttl (some e) = ltb ttl (now - e.ts)

-- the first loop of `prune`: from the front, as long as that is expired
unfoldable pub prune_expired : ℕ → ℕ → Entries → List SubmitKey → Entries × List SubmitKey
prune_expired now ttl entries [] = (entries, [])
prune_expired now ttl entries (k ∷ order) =
    let rest = prune_expired now ttl (remove k entries) order in
    if is_expired now ttl (lookup k entries) then rest else (entries, k ∷ order)

-- the second loop: from the front, as long as there are too many
unfoldable pub prune_excess : ℕ → Entries → List SubmitKey → Entries × List SubmitKey
prune_excess max_entries entries [] = (entries, [])
prune_excess max_entries entries (k ∷ order) =
    let rest = prune_excess max_entries (remove k entries) order in
    if ltb max_entries (length entries) then rest else (entries, k ∷ order)

abbrev pub with_entries : Entries × List SubmitKey → DuplicateSubmitGuard → DuplicateSubmitGuard
with_entries p g = record { ttl = g.ttl; max_entries = g.max_entries; entries = p.0; order = p.1 }

unfoldable pub prune : ℕ → DuplicateSubmitGuard → DuplicateSubmitGuard
unfolding prune_expired prune_excess
prune now g =
    let (entries, order) = prune_expired now g.ttl g.entries g.order in
    with_entries (prune_excess g.max_entries entries order) g

abbrev pub outcome_of : Option DuplicateSubmitEntry → Option DuplicateSubmitOutcome
outcome_of none = none
outcome_of (some e) = some e.outcome

unfoldable pub get :
    SubmitKey → ℕ → DuplicateSubmitGuard → DuplicateSubmitGuard × Option DuplicateSubmitOutcome
unfolding prune
get key now g = let pruned = prune now g in (pruned, outcome_of (lookup key pruned.entries))

abbrev pub insert_new :
    SubmitKey → ℕ → DuplicateSubmitGuard → Option DuplicateSubmitEntry → DuplicateSubmitGuard
insert_new key now g (some e) = g
insert_new key now g none =
    with_entries
      (insert key (record { ts = now; outcome = in_flight }) g.entries, g.order ++ (key ∷ [])) g

unfoldable pub insert_inflight : SubmitKey → ℕ → DuplicateSubmitGuard → DuplicateSubmitGuard
unfolding prune
insert_inflight key now g =
    let pruned = prune now g in insert_new key now pruned (lookup key pruned.entries)

abbrev pub set_found :
    SubmitKey
    → ℕ
    → DuplicateSubmitOutcome
    → DuplicateSubmitGuard
    → Option DuplicateSubmitEntry
    → DuplicateSubmitGuard
set_found key now outcome g none = g
set_found key now outcome g (some e) =
    with_entries (insert key (record { ts = now; outcome = outcome }) g.entries, g.order) g

unfoldable pub set_outcome :
    SubmitKey → ℕ → DuplicateSubmitOutcome → DuplicateSubmitGuard → DuplicateSubmitGuard
unfolding prune
set_outcome key now outcome g =
    let pruned = prune now g in set_found key now outcome pruned (lookup key pruned.entries)
