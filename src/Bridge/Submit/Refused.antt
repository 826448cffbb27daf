-- ===== src/Bridge/Submit/Refused.antt =====
-- A submission that ends in an error (`handle_submit` of bridge/src/share_handler.rs).
use katpool.Base.{
  ℕ, ◌≡◌, ◌≢◌, refl, ◌⊎◌, inl, inr, true, false, ltb, Option, none, some, List, [], ◌∷◌, ◌++◌,
  Bool-cases, Option-cases, arith,
}
use katpool.Base.Float.{Float}
use katpool.Bridge.Jobs.{Job, max_jobs, get_job}
use katpool.Bridge.Nonce.{strip_0x, final_nonce, from_str_radix_16}
use katpool.Bridge.Duplicates.{
  SubmitKey, DuplicateSubmitOutcome, DuplicateSubmitGuard, insert_inflight,
}
use katpool.Bridge.Submit.{
  BlockSubmitAnswer, accepted_by_node, rejected_by_node, duplicate_block, other_failure,
  SubmitEvent, Verdict, found_block, found_share, no_share, underflow, exhausted, search,
  StratumContext, ShareHandler, ShareRejectReason, pool_target_of, handle_submit, settle_block,
  conclude, SubmitError, refused, credit, emit_rejected, submit_checked, share_rejected,
  missing_job, malformed_frame,
}

module _ (fl : Float) (pow_value : Job → ℕ → ℕ) (block_hash : Job → ℕ → ℕ)
    (submit_block : Job → ℕ → BlockSubmitAnswer) (ctx : StratumContext fl) where
  settle_block-replies :
      (key : SubmitKey) (later : ℕ) (job : Job) (nonce : ℕ) (answer : BlockSubmitAnswer)
      (h : ShareHandler fl) (e : SubmitError)
      → (settle_block fl pow_value block_hash submit_block ctx key later job nonce answer h).1
        ≢ refused e
  unfolding settle_block credit
  settle_block-replies key later job nonce accepted_by_node h e = cc
  settle_block-replies key later job nonce rejected_by_node h e = cc
  settle_block-replies key later job nonce duplicate_block h e = cc
  settle_block-replies key later job nonce other_failure h e = cc

  conclude-replies :
      (key : SubmitKey) (later nonce : ℕ) (v : Verdict) (h : ShareHandler fl) (e : SubmitError)
      → (conclude fl pow_value block_hash submit_block ctx key later nonce v h).1 ≢ refused e
  unfolding conclude credit
  conclude-replies key later nonce (found_block job) h e =
      settle_block-replies key later job nonce (submit_block job nonce) _ e
  conclude-replies key later nonce (found_share job) h e = cc
  conclude-replies key later nonce (no_share true job) h e = cc
  conclude-replies key later nonce (no_share false job) h e = cc
  conclude-replies key later nonce underflow h e = cc
  conclude-replies key later nonce exhausted h e = cc

  submit_checked-replies :
      (key : SubmitKey) (now later job_id nonce : ℕ) (job : Job) (h : ShareHandler fl)
      (looked_up : DuplicateSubmitGuard × Option DuplicateSubmitOutcome) (e : SubmitError)
      → (submit_checked fl pow_value block_hash submit_block ctx key now later job_id job nonce h
          looked_up).1
        ≢ refused e
  unfolding submit_checked
  submit_checked-replies key now later job_id nonce job h (pruned, some outcome) e = cc
  submit_checked-replies key now later job_id nonce job h (pruned, none) e =
      conclude-replies key later nonce
        (search pow_value ctx.mining (pool_target_of fl ctx.stratum_diff) nonce job_id max_jobs
          job_id job false)
        (record h { guard = insert_inflight key now pruned }) e

  -- a handler that is the same but for one rejection reported, or none
  pub record IsUntouched (before after : ShareHandler fl) : Type 0 where
    pub same_stats : after.stats ≡ before.stats
    pub same_overall : after.overall ≡ before.overall
    pub same_guard : after.guard ≡ before.guard
    pub reported :
        (after.events ≡ before.events)
        ⊎ ((reason : ShareRejectReason) × (after.events
              ≡ before.events ++ (share_rejected ctx.wallet ctx.worker reason ∷ [])))

  untouched : (h : ShareHandler fl) → IsUntouched h h
  untouched h = record {
    same_stats = refl;
    same_overall = refl;
    same_guard = refl;
    reported = inl refl;
  }

  emit_rejected-IsUntouched :
      (reason : ShareRejectReason) (h : ShareHandler fl)
      → IsUntouched h (emit_rejected fl ctx reason h)
  unfolding emit_rejected
  emit_rejected-IsUntouched reason h = record {
    same_stats = ground arith;
    same_overall = ground arith;
    same_guard = ground arith;
    reported = elim (Bool-cases ctx.names_valid) [
      | inl valid ↦ inr (reason, rw valid refl)
      | inr invalid ↦ inl (rw invalid refl)
    ];
  }

  -- A submission that is refused with an error touches nothing: neither the worker's statistics nor the
  -- overall ones nor the guard, and it reports at most one rejection and no credit. It is one with fewer
  -- than three parameters, without an id or of a job that is not stored, or without a nonce that reads as
  -- a number.
  pub handle_submit-refused :
      (now later : ℕ) (event : SubmitEvent) (h : ShareHandler fl) (e : SubmitError)
      → let out = handle_submit fl pow_value block_hash submit_block ctx now later event h in
        out.1 ≡ refused e
        → IsUntouched h out.0
          × ((ltb event.param_count 3 ≡ true)
              ⊎ (event.job_id_param ≡ none)
              ⊎ ((id : ℕ) × (event.job_id_param ≡ some id) × (get_job id ctx.mining ≡ none))
              ⊎ (event.nonce_param ≡ none)
              ⊎ ((raw : List ℕ) × (event.nonce_param ≡ some raw)
                  × (from_str_radix_16 (final_nonce ctx.extranonce (strip_0x raw)) ≡ none)))
  unfolding handle_submit
  handle_submit-refused now later event h e = elim (Bool-cases (ltb event.param_count 3)) [
    | inl few ↦ λ _. (rw few (emit_rejected-IsUntouched malformed_frame h), inl few)
    | inr enough ↦ elim (Option-cases event.job_id_param) [
      | inl no_id ↦ λ _. (rw (enough, no_id) (untouched h), inr (inl no_id))
      | inr (id, named) ↦ elim (Option-cases (get_job id ctx.mining)) [
        | inl gone ↦ λ _. (
          rw (enough, named, gone) (emit_rejected-IsUntouched missing_job h),
          inr (inr (inl (id, named, gone))),
        )
        | inr (job, stored) ↦ elim (Option-cases event.nonce_param) [
          | inl no_nonce ↦ λ _.
              (rw (enough, named, stored, no_nonce) (untouched h), inr (inr (inr (inl no_nonce))))
          | inr (raw, given) ↦
              elim (Option-cases (from_str_radix_16 (final_nonce ctx.extranonce (strip_0x raw)))) [
                | inl bad ↦ λ _. (
                  rw (enough, named, stored, given, bad) (untouched h),
                  inr (inr (inr (inr (raw, given, bad)))),
                )
                | inr (nonce, reads) ↦
                    rw (enough, named, stored, given, reads)
                      (λ r. absurd (submit_checked-replies _ now later id nonce job h _ e r))
              ]
        ]
      ]
    ]
  ]
