-- ===== src/Accountant/Consumer/Found.antt =====
-- A block is recorded once, however often it is announced (accountant/src/consumer.rs).
use katpool.Base.{
  ℕ, ◌≤◌, ◌≡◌, refl, ◌∙◌, ap, inl, inr, Bool, false, ◌&&◌, ◌||◌, ◌==◌, if◌then◌else◌, none, some,
  List, [], ◌∷◌, sum_by, sum_by-append, Bool-cases, Option-cases, arith,
}
use katpool.Base.Float.{Float}
use katpool.Bridge.Submit.{PoolEvent, share_credited, share_rejected, block_found, block_accepted}
use katpool.Accountant.Blocks.{Block, found, find_by_hash, ensure_block, mark_submitted}
use katpool.Accountant.Consumer.{
  EventError, share_insert, share_reject_insert, block_ensure, DbStage, ensure_identity, Tables,
  in_transaction, insert_credited, insert_reject, handle_share_credited, handle_share_rejected,
  handle_block_found, handle_block_accepted, handle, logged, handle_event, Received, received,
  lagged, closed, consume,
}
use katpool.Accountant.Consumer.Credits.{all_up, logged-in_transaction}

abbrev pub has_hash : ℕ → Block → ℕ
has_hash hash b = if b.hash == hash then 1 else 0

-- how many rows a block has
abbrev pub rows_with : ℕ → List Block → ℕ
rows_with hash = sum_by (has_hash hash)

find_by_hash-none :
    (hash : ℕ) (blocks : List Block) → find_by_hash hash blocks ≡ none → rows_with hash blocks ≡ 0
unfolding find_by_hash
find_by_hash-none hash [] h = refl
find_by_hash-none hash (b ∷ bs) h = ground (arith, find_by_hash-none hash bs)

find_by_hash-some :
    (hash : ℕ) (blocks : List Block) (b : Block)
    → find_by_hash hash blocks ≡ some b
    → 1 ≤ rows_with hash blocks
unfolding find_by_hash
find_by_hash-some hash [] b h = absurd cc
find_by_hash-some hash (c ∷ bs) b h = ground (arith, find_by_hash-some hash bs b)

mark_submitted-rows_with :
    (h hash : ℕ) (blocks : List Block)
    → rows_with h (mark_submitted hash blocks) ≡ rows_with h blocks
unfolding mark_submitted
mark_submitted-rows_with h hash [] = refl
mark_submitted-rows_with h hash (b ∷ bs) = ground (arith, mark_submitted-rows_with h hash bs)

ensure_block-rows_with :
    (h hash daa_score : ℕ) (blocks : List Block)
    → rows_with h (ensure_block hash daa_score blocks).0
      ≡ (if hash == h && rows_with h blocks == 0 then 1 else rows_with h blocks)
unfolding ensure_block
ensure_block-rows_with h hash daa_score blocks = elim (Option-cases (find_by_hash hash blocks)) [
  | inl missing ↦
      rw
        (
          missing,
          sum_by-append (has_hash h) blocks (
              record {
                hash = hash;
                daa_score = daa_score;
                blue_score = none;
                status = found;
                miner_reward_sompi = none;
              }
              ∷ []),
        )
        (ground (arith, find_by_hash-none hash blocks missing))
  | inr (b, there) ↦ rw there (ground (arith, find_by_hash-some hash blocks b there))
]

module _ (fl : Float) (h : ℕ) where
  -- the event announces the block, and its transaction does not fail
  abbrev pub announces : (DbStage → Bool) → PoolEvent fl → Bool
  announces down (block_found address name hash daa_score) = hash == h && all_up down
  announces down (share_credited address name difficulty daa_score) = false
  announces down (share_rejected address name reason) = false
  announces down (block_accepted hash) = false

  abbrev pub is_announced : List (Received fl) → Bool
  is_announced [] = false
  is_announced (received down event ∷ rest) = announces down event || is_announced rest
  is_announced (lagged n ∷ rest) = is_announced rest
  is_announced (closed ∷ rest) = false

  abbrev rows_in : Tables fl → ℕ
  rows_in t = rows_with h t.blocks

  kept_rows :
      (down : DbStage → Bool) (failure : EventError) (address name : ℕ)
      (write : ℕ × ℕ → Tables fl → Tables fl) (t : Tables fl)
      → ((ids : ℕ × ℕ) (u : Tables fl) → (write ids u).blocks ≡ u.blocks)
      → rows_in (logged fl t (in_transaction fl down failure address name write t)) ≡ rows_in t
  unfolding ensure_identity
  kept_rows down failure address name write t leaves = elim (Bool-cases (all_up down)) [
    | inl up ↦
        rw (logged-in_transaction fl down failure address name write t, up)
          (ap (rows_with h) (leaves _ _))
    | inr fails ↦ rw (logged-in_transaction fl down failure address name write t, fails) refl
  ]

  handle_event-rows_with :
      (down : DbStage → Bool) (event : PoolEvent fl) (t : Tables fl)
      → rows_in (handle_event fl down event t)
        ≡ (if announces down event && rows_in t == 0 then 1 else rows_in t)
  unfolding handle_event handle handle_share_credited handle_share_rejected handle_block_found
      handle_block_accepted insert_credited insert_reject ensure_identity
  handle_event-rows_with down (share_credited address name difficulty daa_score) t =
      kept_rows down share_insert address name (λ ids. insert_credited fl ids difficulty daa_score)
        t (λ ids u. refl)
  handle_event-rows_with down (share_rejected address name reason) t =
      kept_rows down share_reject_insert address name (λ ids. insert_reject fl ids reason) t
        (λ ids u. refl)
  handle_event-rows_with down (block_found address name hash daa_score) t =
      elim (Bool-cases (all_up down)) [
        | inl up ↦
            rw
              (
                logged-in_transaction fl down block_ensure address name
                    (λ ids u. record u { blocks = (ensure_block hash daa_score u.blocks).0 }) t,
                up,
              )
              (ensure_block-rows_with h hash daa_score t.blocks ∙ ground arith)
        | inr fails ↦
            rw
              (
                logged-in_transaction fl down block_ensure address name
                    (λ ids u. record u { blocks = (ensure_block hash daa_score u.blocks).0 }) t,
                fails,
              )
              (ground arith)
      ]
  handle_event-rows_with down (block_accepted hash) t =
      ground (arith, mark_submitted-rows_with h hash t.blocks)

  -- Whatever the consumer receives until its channel is closed, a block of which there was no row has one
  -- behind it if it was announced in a transaction that did not fail, however often, and none otherwise;
  -- and a block that had rows has as many as before.
  pub consume-rows_with :
      (events : List (Received fl)) (t : Tables fl)
      → rows_with h (consume fl events t).blocks
        ≡ (if is_announced events && rows_with h t.blocks == 0 then 1 else rows_with h t.blocks)
  unfolding consume
  consume-rows_with [] t = refl
  consume-rows_with (lagged n ∷ rest) t = consume-rows_with rest t
  consume-rows_with (closed ∷ rest) t = refl
  consume-rows_with (received down event ∷ rest) t = ground (
    arith,
    consume-rows_with rest (handle_event fl down event t),
    handle_event-rows_with down event t,
  )
