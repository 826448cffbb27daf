-- ===== src/Accountant/Consumer/Credits.antt =====
-- Every credit becomes one share of the right wallet (accountant/src/consumer.rs).
use katpool.Base.{
  ℕ, ◌≡◌, refl, sym, ◌∙◌, ap, inl, inr, Bool, not, ◌&&◌, if◌then◌else◌, some, List, [], ◌∷◌, ◌++◌,
  Bool-cases, arith,
}
use mathlib.Core.List.{append-nil, append_assoc}
use katpool.Base.Float.{Float}
use katpool.Base.Table.{ℕ_key, lookup}
use katpool.Bridge.Submit.{PoolEvent, share_credited, share_rejected, block_found, block_accepted}
use katpool.Accountant.Ledger.{Share}
use katpool.Accountant.Blocks.{ensure_block}
use katpool.Accountant.Consumer.{
  EventError, share_insert, share_reject_insert, block_ensure, DbStage, begin_tx, wallet_statement,
  worker_statement, write_statement, commit_tx, Wallets, ensure_identity, Tables, in_transaction,
  insert_credited, insert_reject, handle_share_credited, handle_share_rejected, handle_block_found,
  handle_block_accepted, handle, logged, handle_event, Received, received, lagged, closed, consume,
}
use katpool.Accountant.Consumer.Wallets.{IsKeyed, Keeps, ensure_wallet-IsKeyed}

-- no statement of the event's transaction fails
abbrev pub all_up : (DbStage → Bool) → Bool
all_up down =
    not (down begin_tx)
    && (not (down wallet_statement)
        && (not (down worker_statement) && (not (down write_statement) && not (down commit_tx))))

module _ (fl : Float) where
  open fl use {F}

  pub logged-in_transaction :
      (down : DbStage → Bool) (failure : EventError) (address name : ℕ)
      (write : ℕ × ℕ → Tables fl → Tables fl) (t : Tables fl)
      → logged fl t (in_transaction fl down failure address name write t) ≡ (
          if all_up down
          then write (ensure_identity fl address name t).1 (ensure_identity fl address name t).0
          else t)
  unfolding in_transaction
  logged-in_transaction down failure address name write t = ground arith

  -- the credit of an event: its address, difficulty and score, unless its transaction fails
  abbrev pub credit_of : (DbStage → Bool) → PoolEvent fl → List (ℕ × F × ℕ)
  credit_of down (share_credited address name difficulty daa_score) =
      if all_up down then (address, difficulty, daa_score) ∷ [] else []
  credit_of down (share_rejected address name reason) = []
  credit_of down (block_found address name hash daa_score) = []
  credit_of down (block_accepted hash) = []

  abbrev pub credits_of : List (Received fl) → List (ℕ × F × ℕ)
  credits_of [] = []
  credits_of (received down event ∷ rest) = credit_of down event ++ credits_of rest
  credits_of (lagged n ∷ rest) = credits_of rest
  credits_of (closed ∷ rest) = []

  -- the shares are those of the credits, one for each and in their order, each of its address's wallet
  abbrev pub RecordedAs : Wallets → List (Share fl) → List (ℕ × F × ℕ) → Type 0
  RecordedAs wallets [] [] = Unit
  RecordedAs wallets (s ∷ ss) ((address, difficulty, daa_score) ∷ rest) =
      (lookup address wallets ≡ some s.share_wallet)
      × (s.difficulty ≡ difficulty)
      × (s.daa_score ≡ daa_score)
      × RecordedAs wallets ss rest
  RecordedAs wallets _ _ = ⊥

  RecordedAs-Keeps :
      (before after : Wallets) (ss : List (Share fl)) (cs : List (ℕ × F × ℕ))
      → Keeps before after
      → RecordedAs before ss cs
      → RecordedAs after ss cs
  RecordedAs-Keeps before after [] [] keeps r = tt
  RecordedAs-Keeps before after (s ∷ ss) ((address, difficulty, daa_score) ∷ rest) keeps r =
      (keeps address s.share_wallet r.0, r.1, r.2, RecordedAs-Keeps before after ss rest keeps r.3)
  RecordedAs-Keeps before after [] (c ∷ cs) keeps r = absurd r
  RecordedAs-Keeps before after (s ∷ ss) [] keeps r = absurd r

  RecordedAs-append :
      (wallets : Wallets) (ss ss' : List (Share fl)) (cs cs' : List (ℕ × F × ℕ))
      → RecordedAs wallets ss cs
      → RecordedAs wallets ss' cs'
      → RecordedAs wallets (ss ++ ss') (cs ++ cs')
  RecordedAs-append wallets [] ss' [] cs' r r' = r'
  RecordedAs-append wallets (s ∷ ss) ss' (c ∷ cs) cs' r r' =
      (r.0, r.1, r.2, RecordedAs-append wallets ss ss' cs cs' r.3 r')
  RecordedAs-append wallets [] ss' (c ∷ cs) cs' r r' = absurd r
  RecordedAs-append wallets (s ∷ ss) ss' [] cs' r r' = absurd r

  -- what a step of the consumer does for a list of credits
  pub record Records (before after : Tables fl) (credits : List (ℕ × F × ℕ)) : Type 0 where
    pub added : List (Share fl)
    pub shares_added : after.shares ≡ before.shares ++ added
    pub recorded : RecordedAs after.wallets added credits
    pub keyed : IsKeyed after.wallets after.wallet_seq
    pub keeps : Keeps before.wallets after.wallets

  -- a step that leaves the shares and the ids of the wallets recorded no credit
  unmoved :
      (before after : Tables fl)
      → IsKeyed before.wallets before.wallet_seq
      → after.shares ≡ before.shares
      → after.wallets ≡ before.wallets
      → after.wallet_seq ≡ before.wallet_seq
      → Records before after []
  unmoved before after k same same_wallets same_seq = record {
    added = [];
    shares_added = same ∙ sym (append-nil before.shares);
    recorded = tt;
    keyed = rw (same_wallets, same_seq) k;
    keeps = λ a i h. rw same_wallets h;
  }

  -- what the upserts leave
  pub record Identified (before : Tables fl) (address : ℕ) (out : Tables fl × (ℕ × ℕ))
      : Type 0 where
    pub same_shares : out.0.shares ≡ before.shares
    pub keyed_after : IsKeyed out.0.wallets out.0.wallet_seq
    pub kept : Keeps before.wallets out.0.wallets
    pub found_id : lookup address out.0.wallets ≡ some out.1.0

  ensure_identity-Identified :
      (address name : ℕ) (t : Tables fl)
      → IsKeyed t.wallets t.wallet_seq
      → Identified t address (ensure_identity fl address name t)
  unfolding ensure_identity
  ensure_identity-Identified address name t k =
      let (keyed', kept', found') = ensure_wallet-IsKeyed address t.wallet_seq t.wallets k in
      record { same_shares = refl; keyed_after = keyed'; kept = kept'; found_id = found' }

  -- a transaction whose write leaves the shares and the wallets
  in_transaction-Records :
      (down : DbStage → Bool) (failure : EventError) (address name : ℕ)
      (write : ℕ × ℕ → Tables fl → Tables fl) (t : Tables fl)
      → IsKeyed t.wallets t.wallet_seq
      → ((ids : ℕ × ℕ) (u : Tables fl)
          → ((write ids u).shares ≡ u.shares)
            × ((write ids u).wallets ≡ u.wallets)
            × ((write ids u).wallet_seq ≡ u.wallet_seq))
      → Records t (logged fl t (in_transaction fl down failure address name write t)) []
  in_transaction-Records down failure address name write t k leaves =
      let (u, ids) = ensure_identity fl address name t in
      let known = ensure_identity-Identified address name t k in
      let (same, same_wallets, same_seq) = leaves ids u in
      elim (Bool-cases (all_up down)) [
        | inl up ↦
            rw (logged-in_transaction down failure address name write t, up)
              (record {
                added = [];
                shares_added = same ∙ known.same_shares ∙ sym (append-nil t.shares);
                recorded = tt;
                keyed = rw (same_wallets, same_seq) known.keyed_after;
                keeps = λ a i h. rw same_wallets (known.kept a i h);
              })
        | inr fails ↦
            rw (logged-in_transaction down failure address name write t, fails)
              (unmoved t t k refl refl refl)
      ]

  credited-Records :
      (down : DbStage → Bool) (address name : ℕ) (difficulty : F) (daa_score : ℕ) (t : Tables fl)
      → IsKeyed t.wallets t.wallet_seq
      → Records t
          (handle_event fl down (share_credited address name difficulty daa_score) t)
          (if all_up down then (address, difficulty, daa_score) ∷ [] else [])
  unfolding handle_event handle handle_share_credited insert_credited
  credited-Records down address name difficulty daa_score t k =
      let (u, ids) = ensure_identity fl address name t in
      let known = ensure_identity-Identified address name t k in
      elim (Bool-cases (all_up down)) [
        | inl up ↦
            rw
              (
                logged-in_transaction down share_insert address name
                    (λ ids. insert_credited fl ids difficulty daa_score) t,
                up,
              )
              (record {
                added =
                    record { share_wallet = ids.0; difficulty = difficulty; daa_score = daa_score }
                    ∷ [];
                shares_added =
                    ap
                      (λ ss.
                        ss
                        ++ record {
                          share_wallet = ids.0;
                          difficulty = difficulty;
                          daa_score = daa_score;
                        }
                          ∷ [])
                      known.same_shares;
                recorded = (known.found_id, refl, refl, tt);
                keyed = known.keyed_after;
                keeps = known.kept;
              })
        | inr fails ↦
            rw
              (
                logged-in_transaction down share_insert address name
                    (λ ids. insert_credited fl ids difficulty daa_score) t,
                fails,
              )
              (unmoved t t k refl refl refl)
      ]

  handle_event-Records :
      (down : DbStage → Bool) (event : PoolEvent fl) (t : Tables fl)
      → IsKeyed t.wallets t.wallet_seq
      → Records t (handle_event fl down event t) (credit_of down event)
  unfolding handle_event handle handle_share_rejected handle_block_found handle_block_accepted
      insert_reject
  handle_event-Records down (share_credited address name difficulty daa_score) t k =
      credited-Records down address name difficulty daa_score t k
  handle_event-Records down (share_rejected address name reason) t k =
      in_transaction-Records down share_reject_insert address name
        (λ ids. insert_reject fl ids reason) t k (λ ids u. (refl, refl, refl))
  handle_event-Records down (block_found address name hash daa_score) t k =
      in_transaction-Records down block_ensure address name
        (λ ids u. record u { blocks = (ensure_block hash daa_score u.blocks).0 }) t k
        (λ ids u. (refl, refl, refl))
  handle_event-Records down (block_accepted hash) t k =
      unmoved t _ k (ground arith) (ground arith) (ground arith)

  consume-Records :
      (events : List (Received fl)) (t : Tables fl)
      → IsKeyed t.wallets t.wallet_seq
      → Records t (consume fl events t) (credits_of events)
  unfolding consume
  consume-Records [] t k = unmoved t t k refl refl refl
  consume-Records (lagged n ∷ rest) t k = consume-Records rest t k
  consume-Records (closed ∷ rest) t k = unmoved t t k refl refl refl
  consume-Records (received down event ∷ rest) t k =
      let one = handle_event-Records down event t k in
      let more = consume-Records rest (handle_event fl down event t) one.keyed in
      record {
        added = one.added ++ more.added;
        shares_added =
            more.shares_added
            ∙ ap (λ ss. ss ++ more.added) one.shares_added
            ∙ append_assoc t.shares one.added more.added;
        recorded =
            RecordedAs-append _ one.added more.added _ _
              (RecordedAs-Keeps _ _ one.added _ more.keeps one.recorded) more.recorded;
        keyed = more.keyed;
        keeps = λ a i h. more.keeps a i (one.keeps a i h);
      }

  -- Whatever the consumer receives until its channel is closed, the shares grow by one for each credit whose
  -- transaction does not fail, in their order and no others: each has the difficulty and the score of its
  -- credit and belongs to the wallet of the credit's address; and two addresses never have the same
  -- wallet. It holds for tables in which that is so of the wallets, with the ids that the sequence has given.
  pub consume-recorded :
      (events : List (Received fl)) (t : Tables fl)
      → IsKeyed t.wallets t.wallet_seq
      → let after = consume fl events t in
        (added : List (Share fl)) × (after.shares ≡ t.shares ++ added)
        × RecordedAs after.wallets added (credits_of events)
        × IsKeyed after.wallets after.wallet_seq
  consume-recorded events t k =
      let r = consume-Records events t k in (r.added, r.shares_added, r.recorded, r.keyed)
