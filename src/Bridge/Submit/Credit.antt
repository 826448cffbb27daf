-- ===== src/Bridge/Submit/Credit.antt =====
-- What a submission must be to count (`handle_submit` of bridge/src/share_handler.rs).
use katpool.Base.{
  ℕ, ◌+◌, ◌≤◌, ◌<◌, ◌≡◌, refl, ◌∙◌, ap, ◌⊎◌, inl, inr, true, false, ltb, Option, none, some, List,
  Bool-cases, Option-cases, arith,
}
use katpool.Base.Float.{Float}
use katpool.Bridge.Jobs.{Job, get_job, calculate_target}
use katpool.Bridge.Nonce.{strip_0x, final_nonce, from_str_radix_16}
use katpool.Bridge.Duplicates.{
  SubmitKey, SubmitKey_key, DuplicateSubmitOutcome, DuplicateSubmitGuard, get, insert_inflight,
}
use katpool.Bridge.Submit.{
  BlockSubmitAnswer, accepted_by_node, rejected_by_node, duplicate_block, other_failure,
  SubmitEvent, Verdict, found_block, found_share, no_share, underflow, exhausted, StratumContext,
  ShareHandler, ShareRejectReason, pool_target_of, handle_submit, settle_block, conclude,
  SubmitOutcome, credit, emit_credited, emit_rejected, submit_checked, announce_block,
}
use katpool.Bridge.Submit.Search.{Sound, search-IsSound}

module _ (fl : Float) (pow_value : Job → ℕ → ℕ) (block_hash : Job → ℕ → ℕ)
    (submit_block : Job → ℕ → BlockSubmitAnswer) (ctx : StratumContext fl) where
  open fl use {F}

  abbrev pub found_in : ShareHandler fl → ℕ
  found_in h = h.stats.shares_found

  emit_rejected-stats :
      (reason : ShareRejectReason) (h : ShareHandler fl)
      → (emit_rejected fl ctx reason h).stats ≡ h.stats
  unfolding emit_rejected
  emit_rejected-stats reason h = ground arith

  emit_credited-stats :
      (job : Job) (d : Option F) (h : ShareHandler fl)
      → (emit_credited fl ctx job d h).stats ≡ h.stats
  unfolding emit_credited
  emit_credited-stats job none h = refl
  emit_credited-stats job (some d) h = ground arith

  credit-found :
      (key : SubmitKey) (later : ℕ) (job : Job) (h : ShareHandler fl)
      → found_in (credit fl ctx key later job h).0 ≡ found_in h + 1
  unfolding credit
  credit-found key later job h = ap (λ s. s.shares_found) (emit_credited-stats job _ _)

  -- one more, or none
  abbrev pub Counts : ℕ → ℕ → Type 0
  Counts before after = (after ≡ before) ⊎ (after ≡ before + 1)

  settle_block-Counts :
      (key : SubmitKey) (later : ℕ) (job : Job) (nonce : ℕ) (answer : BlockSubmitAnswer)
      (h : ShareHandler fl)
      → Counts (found_in h) (
          found_in
            (settle_block fl pow_value block_hash submit_block ctx key later job nonce answer h).0)
  unfolding settle_block
  settle_block-Counts key later job nonce rejected_by_node h = inr (credit-found key later job h)
  settle_block-Counts key later job nonce accepted_by_node h = inr (credit-found key later job _)
  settle_block-Counts key later job nonce duplicate_block h =
      inl (ap (λ s. s.shares_found) (emit_rejected-stats _ _))
  settle_block-Counts key later job nonce other_failure h =
      inl (ap (λ s. s.shares_found) (emit_rejected-stats _ _))

  -- a stored job for which the nonce is a block or a share
  abbrev pub IsWork : ℕ → Type 0
  IsWork nonce =
      (job : Job) × ((id : ℕ) × (get_job id ctx.mining ≡ some job))
      × ((pow_value job nonce ≤ calculate_target job.bits)
          ⊎ (pow_value job nonce < pool_target_of fl ctx.stratum_diff))

  announce_block-found :
      (job : Job) (nonce : ℕ) (h : ShareHandler fl)
      → found_in (announce_block fl pow_value block_hash submit_block ctx job nonce h) ≡ found_in h
  announce_block-found job nonce h = ground arith

  conclude-IsWork :
      (key : SubmitKey) (later nonce job_id : ℕ) (v : Verdict) (h : ShareHandler fl)
      → Sound pow_value ctx.mining (pool_target_of fl ctx.stratum_diff) nonce job_id v
      → let after =
          found_in (conclude fl pow_value block_hash submit_block ctx key later nonce v h).0 in
        (after ≡ found_in h) ⊎ ((after ≡ found_in h + 1) × IsWork nonce)
  unfolding conclude
  conclude-IsWork key later nonce job_id (found_block job) h sound =
      let same = announce_block-found job nonce h in
      elim (settle_block-Counts key later job nonce (submit_block job nonce)
        (announce_block fl pow_value block_hash submit_block ctx job nonce h)) [
          | inl e ↦ inl (e ∙ same)
          | inr e ↦ inr (e ∙ ap (λ n. n + 1) same, (job, sound.1, inl sound.0))
        ]
  conclude-IsWork key later nonce job_id (found_share job) h sound =
      inr (credit-found key later job h, (job, sound.2, inr sound.1))
  conclude-IsWork key later nonce job_id (no_share true job) h sound =
      inl (ap (λ s. s.shares_found) (emit_rejected-stats _ _))
  conclude-IsWork key later nonce job_id (no_share false job) h sound = absurd cc
  conclude-IsWork key later nonce job_id underflow h sound = inl refl
  conclude-IsWork key later nonce job_id exhausted h sound = absurd sound

  submit_checked-IsWork :
      (key : SubmitKey) (now later job_id nonce : ℕ) (job : Job) (h : ShareHandler fl)
      (looked_up : DuplicateSubmitGuard × Option DuplicateSubmitOutcome)
      → get_job job_id ctx.mining ≡ some job
      → let after =
          found_in
            (submit_checked fl pow_value block_hash submit_block ctx key now later job_id job nonce
              h looked_up).0 in
        (after ≡ found_in h) ⊎ ((after ≡ found_in h + 1) × (looked_up.1 ≡ none) × IsWork nonce)
  unfolding submit_checked
  submit_checked-IsWork key now later job_id nonce job h (pruned, some outcome) stored = inl refl
  submit_checked-IsWork key now later job_id nonce job h (pruned, none) stored =
      elim (conclude-IsWork key later nonce job_id _
        (record h { guard = insert_inflight key now pruned })
        (search-IsSound pow_value ctx.mining (pool_target_of fl ctx.stratum_diff) nonce job_id job
          stored)) [ inl same ↦ inl same | inr (more, work) ↦ inr (more, refl, work) ]

  module _ (now later : ℕ) (event : SubmitEvent) (h : ShareHandler fl) where
    abbrev pub out : ShareHandler fl × SubmitOutcome
    out = handle_submit fl pow_value block_hash submit_block ctx now later event h

    abbrev pub text_in : List ℕ → List ℕ
    text_in raw = final_nonce ctx.extranonce (strip_0x raw)

    abbrev pub key_in : ℕ → List ℕ → SubmitKey
    key_in id raw = record { key_worker = ctx.worker; key_job = id; key_nonce = text_in raw }

    -- Only work counts. A submission leaves the worker's number of shares, or adds one to it, and then it
    -- names a job id and a nonce that reads as a number, the guard does not remember the two from this
    -- worker, and for some stored job that number is a block or meets the pool's target.
    pub handle_submit-counts-IsWork :
        (found_in out.0 ≡ found_in h)
        ⊎ ((found_in out.0 ≡ found_in h + 1)
            × ((id : ℕ) × (raw : List ℕ) × (nonce : ℕ) × (event.job_id_param ≡ some id)
                × (event.nonce_param ≡ some raw)
                × (from_str_radix_16 (text_in raw) ≡ some nonce)
                × ((get (key_in id raw) now h.guard).1 ≡ none)
                × IsWork nonce))
    unfolding handle_submit
    handle_submit-counts-IsWork = elim (Bool-cases (ltb event.param_count 3)) [
      | inl few ↦ rw few (inl (ap (λ s. s.shares_found) (emit_rejected-stats _ _)))
      | inr enough ↦ elim (Option-cases event.job_id_param) [
        | inl no_id ↦ rw (enough, no_id) (inl refl)
        | inr (id, named) ↦ elim (Option-cases (get_job id ctx.mining)) [
          | inl gone ↦
              rw (enough, named, gone) (inl (ap (λ s. s.shares_found) (emit_rejected-stats _ _)))
          | inr (job, stored) ↦ elim (Option-cases event.nonce_param) [
            | inl no_nonce ↦ rw (enough, named, stored, no_nonce) (inl refl)
            | inr (raw, given) ↦ elim (Option-cases (from_str_radix_16 (text_in raw))) [
              | inl bad ↦ rw (enough, named, stored, given, bad) (inl refl)
              | inr (nonce, reads) ↦
                  rw (enough, named, stored, given, reads)
                    (elim (submit_checked-IsWork (key_in id raw) now later id nonce job h
                      (get (key_in id raw) now h.guard) stored) [
                        | inl same ↦ inl same
                        | inr (more, fresh, work) ↦
                            inr (more, (id, raw, nonce, refl, refl, reads, fresh, work))
                      ])
            ]
          ]
        ]
      ]
    ]
