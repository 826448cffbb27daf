-- ===== src/Accountant/Maturity/Colour.antt =====
-- What a sweep decides about the blocks (accountant/src/maturity.rs and
-- crates/katpool-db/src/repo/block.rs).
use katpool.Base.{
  ℕ, ◌≡◌, ◌⊎◌, refl, inl, inr, ◌∙◌, subst, ap, Bool, true, ◌&&◌, ◌==◌, none, List, [], ◌∷◌, map,
  if◌then◌else◌, leb, Result, ok, err, Bool-cases, arith,
}
use katpool.Base.Word.{add_sat_u64}
use katpool.Accountant.Blocks
use katpool.Accountant.Blocks.{
  is_submitted_or_blue, is_not_matured, Block, confirmed_blue, matured, orphaned, submitted_to_node,
  found, list_submitted,
}
use katpool.Accountant.Maturity.{
  KaspadClient, KaspadError, BlockColor, blue, red, not_yet_merged, MaturityConfig, SweepStats,
  resolve, process_submitted, sweep_listed, sweep_blocks, count_block,
}

-- What the later row of a block owes to the earlier one, by the node's colours.
pub record Coloured (node : KaspadClient) (a b : Block) : Type 0 where
  pub same_hash : b.hash ≡ a.hash
  pub same_score : b.daa_score ≡ a.daa_score
  pub same_reward : b.miner_reward_sompi ≡ a.miner_reward_sompi
  pub matured_final : a.status ≡ matured → b.status ≡ matured
  pub orphan_final : a.status ≡ orphaned → b.status ≡ orphaned
  pub not_found_again : b.status ≡ found → a.status ≡ found
  pub submitted_by_bridge : b.status ≡ submitted_to_node → a.status ≡ submitted_to_node
  pub blue_only :
      b.status ≡ confirmed_blue → (a.status ≡ confirmed_blue) ⊎ (node.block_color a.hash ≡ ok blue)
  pub orphan_only :
      b.status ≡ orphaned
      → (a.status ≡ orphaned)
        ⊎ ((node.block_color a.hash ≡ ok red) ⊎ (node.block_color a.hash ≡ ok not_yet_merged))

abbrev pub AllColoured : KaspadClient → List Block → List Block → Type 0
AllColoured node [] [] = Unit
AllColoured node (a ∷ as') (b ∷ bs) = Coloured node a b × AllColoured node as' bs
AllColoured node _ _ = ⊥

module _ (node : KaspadClient) where
  Coloured-refl : (a : Block) → Coloured node a a
  Coloured-refl a = record {
    same_hash = refl;
    same_score = refl;
    same_reward = refl;
    matured_final = λ h. h;
    orphan_final = λ h. h;
    not_found_again = λ h. h;
    submitted_by_bridge = λ h. h;
    blue_only = λ h. inl h;
    orphan_only = λ h. inl h;
  }

  Coloured-trans : {a b c : Block} → Coloured node a b → Coloured node b c → Coloured node a c
  Coloured-trans {a} f g = record {
    same_hash = g.same_hash ∙ f.same_hash;
    same_score = g.same_score ∙ f.same_score;
    same_reward = g.same_reward ∙ f.same_reward;
    matured_final = λ h. g.matured_final (f.matured_final h);
    orphan_final = λ h. g.orphan_final (f.orphan_final h);
    not_found_again = λ h. f.not_found_again (g.not_found_again h);
    submitted_by_bridge = λ h. f.submitted_by_bridge (g.submitted_by_bridge h);
    blue_only = λ h. elim (g.blue_only h) [
      | inl k ↦ f.blue_only k
      | inr k ↦ inr (subst (λ x. node.block_color x ≡ ok blue) f.same_hash k)
    ];
    orphan_only = λ h. elim (g.orphan_only h) [
      | inl k ↦ f.orphan_only k
      | inr (inl k) ↦ inr (inl (subst (λ x. node.block_color x ≡ ok red) f.same_hash k))
      | inr (inr k) ↦ inr (inr (subst (λ x. node.block_color x ≡ ok not_yet_merged) f.same_hash k))
    ];
  }

  AllColoured-refl : (bs : List Block) → AllColoured node bs bs
  AllColoured-refl [] = tt
  AllColoured-refl (b ∷ bs) = (Coloured-refl b, AllColoured-refl bs)

  AllColoured-trans :
      (as' bs cs : List Block)
      → AllColoured node as' bs
      → AllColoured node bs cs
      → AllColoured node as' cs
  AllColoured-trans [] [] [] h k = tt
  AllColoured-trans (a ∷ as') (b ∷ bs) (c ∷ cs) h k =
      (Coloured-trans h.0 k.0, AllColoured-trans as' bs cs h.1 k.1)
  AllColoured-trans [] (b ∷ bs) _ h k = absurd h
  AllColoured-trans (a ∷ as') [] _ h k = absurd h
  AllColoured-trans (a ∷ as') (b ∷ bs) [] h k = absurd k
  AllColoured-trans [] [] (c ∷ cs) h k = absurd k

  update-AllColoured :
      (test : Block → Bool) (set : Block → Block)
      → ((b : Block) → test b ≡ true → Coloured node b (set b))
      → (bs : List Block) → AllColoured node bs (map (λ b. if test b then set b else b) bs)
  update-AllColoured test set step [] = tt
  update-AllColoured test set step (b ∷ bs) = elim (Bool-cases (test b)) [
    | inl e ↦ (rw e (step b e), update-AllColoured test set step bs)
    | inr e ↦ (rw e (Coloured-refl b), update-AllColoured test set step bs)
  ]

  blue-Coloured :
      (hash : ℕ) (b : Block)
      → node.block_color hash ≡ ok blue
      → (b.hash == hash && is_submitted_or_blue b.status) ≡ true
      → Coloured node b (record b { status = confirmed_blue; blue_score = b.blue_score })
  blue-Coloured hash b h e = record {
    same_hash = refl;
    same_score = refl;
    same_reward = refl;
    matured_final = λ k. absurd (ground arith);
    orphan_final = λ k. absurd (ground arith);
    not_found_again = λ k. absurd (ground arith);
    submitted_by_bridge = λ k. absurd (ground arith);
    blue_only = λ k. inr (ap node.block_color (ground arith) ∙ h);
    orphan_only = λ k. absurd (ground arith);
  }

  blue-AllColoured :
      (hash : ℕ) (bs : List Block)
      → node.block_color hash ≡ ok blue
      → AllColoured node bs (Blocks.mark_confirmed_blue hash none bs)
  unfolding Blocks.mark_confirmed_blue
  blue-AllColoured hash bs h = update-AllColoured _ _ (λ b e. blue-Coloured hash b h e) bs

  orphan-Coloured :
      (hash : ℕ) (b : Block)
      → (node.block_color hash ≡ ok red) ⊎ (node.block_color hash ≡ ok not_yet_merged)
      → (b.hash == hash && is_not_matured b.status) ≡ true
      → Coloured node b (record b { status = orphaned })
  orphan-Coloured hash b h e = record {
    same_hash = refl;
    same_score = refl;
    same_reward = refl;
    matured_final = λ k. absurd (ground arith);
    orphan_final = λ k. refl;
    not_found_again = λ k. absurd (ground arith);
    submitted_by_bridge = λ k. absurd (ground arith);
    blue_only = λ k. absurd (ground arith);
    orphan_only = λ k.
        let same : b.hash ≡ hash = ground arith in
        inr (elim h [
          | inl c ↦ inl (ap node.block_color same ∙ c)
          | inr c ↦ inr (ap node.block_color same ∙ c)
        ]);
  }

  orphan-AllColoured :
      (hash : ℕ) (bs : List Block)
      → (node.block_color hash ≡ ok red) ⊎ (node.block_color hash ≡ ok not_yet_merged)
      → AllColoured node bs (Blocks.mark_orphaned hash bs)
  unfolding Blocks.mark_orphaned
  orphan-AllColoured hash bs h = update-AllColoured _ _ (λ b e. orphan-Coloured hash b h e) bs

  resolve-AllColoured :
      (cfg : MaturityConfig) (daa : ℕ) (blk : Block) (answer : Result KaspadError BlockColor)
      (bs : List Block)
      → node.block_color blk.hash ≡ answer
      → AllColoured node bs (resolve cfg daa blk answer bs).0
  unfolding resolve
  resolve-AllColoured cfg daa blk (err e) bs h = AllColoured-refl bs
  resolve-AllColoured cfg daa blk (ok blue) bs h = blue-AllColoured blk.hash bs h
  resolve-AllColoured cfg daa blk (ok red) bs h = orphan-AllColoured blk.hash bs (inl h)
  resolve-AllColoured cfg daa blk (ok not_yet_merged) bs h =
      elim (Bool-cases (leb (add_sat_u64 blk.daa_score cfg.coinbase_maturity) daa)) [
        | inl e ↦ rw e (orphan-AllColoured blk.hash bs (inr h))
        | inr e ↦ rw e (AllColoured-refl bs)
      ]

  sweep_listed-AllColoured :
      (cfg : MaturityConfig) (daa : ℕ) (active : List Block) (bs : List Block) (s : SweepStats)
      → AllColoured node bs (sweep_listed cfg node daa active (bs, s)).0
  unfolding sweep_listed process_submitted
  sweep_listed-AllColoured cfg daa [] bs s = AllColoured-refl bs
  sweep_listed-AllColoured cfg daa (blk ∷ active) bs s =
      let (bs', r) = process_submitted cfg node daa blk bs in
      AllColoured-trans bs bs' (sweep_listed cfg node daa active (bs', count_block r s)).0
        (resolve-AllColoured cfg daa blk (node.block_color blk.hash) bs refl)
        (sweep_listed-AllColoured cfg daa active bs' (count_block r s))

  -- A sweep keeps every block in its place with its hash, score and reward. It confirms only what the
  -- node calls blue and orphans only what it calls red or not yet merged; a matured or orphaned block
  -- stays so, and none returns to an earlier status.
  pub sweep_blocks-AllColoured :
      (cfg : MaturityConfig) (daa : ℕ) (bs : List Block) (s : SweepStats)
      → AllColoured node bs (sweep_blocks cfg node daa bs s).0
  unfolding sweep_blocks
  sweep_blocks-AllColoured cfg daa bs s =
      sweep_listed-AllColoured cfg daa (list_submitted cfg.batch_size bs) bs s
