-- ===== src/Accountant/Blocks.antt =====
-- The lifecycle of a found block (crates/katpool-db/src/repo/block.rs). The columns with timestamps
-- are left out, and so are the finder, the nonce and the correlation id, which nothing modelled reads; the
-- rows stand in the order of `found_at`. A block hash is a number.
use katpool.Base.{
  ℕ, ◌==◌, Bool, true, false, ◌&&◌, if◌then◌else◌, Option, none, some, List, [], ◌∷◌, ◌++◌, map,
  retain, take, find?,
}

pub data BlockStatus : Type 0 where
  found submitted_to_node confirmed_blue matured orphaned : BlockStatus

pub record Block : Type 0 where
  pub hash : ℕ
  pub daa_score : ℕ
  pub blue_score : Option ℕ
  pub status : BlockStatus
  pub miner_reward_sompi : Option ℕ

-- `UPDATE block SET … WHERE hash = $1 AND …`
abbrev update_block : ℕ → (BlockStatus → Bool) → (Block → Block) → List Block → List Block
update_block hash from set = map (λ b. if b.hash == hash && from b.status then set b else b)

abbrev is_found_or_submitted : BlockStatus → Bool
is_found_or_submitted found = true
is_found_or_submitted submitted_to_node = true
is_found_or_submitted _ = false

abbrev pub is_submitted_or_blue : BlockStatus → Bool
is_submitted_or_blue submitted_to_node = true
is_submitted_or_blue confirmed_blue = true
is_submitted_or_blue _ = false

abbrev is_blue_or_matured : BlockStatus → Bool
is_blue_or_matured confirmed_blue = true
is_blue_or_matured matured = true
is_blue_or_matured _ = false

abbrev pub is_not_matured : BlockStatus → Bool
is_not_matured matured = false
is_not_matured _ = true

abbrev pub is_submitted : BlockStatus → Bool
is_submitted submitted_to_node = true
is_submitted _ = false

unfoldable pub mark_submitted : ℕ → List Block → List Block
mark_submitted hash =
    update_block hash is_found_or_submitted (λ b. record b { status = submitted_to_node })

-- COALESCE($2, blue_score)
abbrev or_else : Option ℕ → Option ℕ → Option ℕ
or_else none old = old
or_else (some new) old = some new

unfoldable pub mark_confirmed_blue : ℕ → Option ℕ → List Block → List Block
mark_confirmed_blue hash blue_score =
    update_block hash is_submitted_or_blue
      (λ b. record b { status = confirmed_blue; blue_score = or_else blue_score b.blue_score })

unfoldable pub mark_matured : ℕ → ℕ → List Block → List Block
mark_matured hash reward =
    update_block hash is_blue_or_matured
      (λ b. record b { status = matured; miner_reward_sompi = some reward })

unfoldable pub mark_orphaned : ℕ → List Block → List Block
mark_orphaned hash = update_block hash is_not_matured (λ b. record b { status = orphaned })

-- `list_by_status` at the one status that the tracker asks for
unfoldable pub list_submitted : ℕ → List Block → List Block
list_submitted limit blocks = take limit (retain (λ b. is_submitted b.status) blocks)

pub data EnsureOutcome : Type 0 where
  inserted already_existed : EnsureOutcome

abbrev pub new_block : ℕ → ℕ → Block
new_block hash daa_score = record {
  hash = hash;
  daa_score = daa_score;
  blue_score = none;
  status = found;
  miner_reward_sompi = none;
}

unfoldable pub find_by_hash : ℕ → List Block → Option Block
find_by_hash hash = find? (λ b. b.hash == hash)

abbrev pub ensure_found : ℕ → ℕ → List Block → Option Block → List Block × EnsureOutcome
ensure_found hash daa_score blocks (some b) = (blocks, already_existed)
ensure_found hash daa_score blocks none = (blocks ++ (new_block hash daa_score ∷ []), inserted)

-- `block::ensure`: the unique hash decides
unfoldable pub ensure_block : ℕ → ℕ → List Block → List Block × EnsureOutcome
unfolding find_by_hash
ensure_block hash daa_score blocks = ensure_found hash daa_score blocks (find_by_hash hash blocks)
