-- ===== src/Bridge/Submit/Replay.antt =====
-- One piece of work is credited again under another job id (`handle_submit` and `DuplicateSubmitGuard`
-- of bridge/src/share_handler.rs, `get_job` of bridge/src/mining_state.rs).
use katpool.Base.{
  ℕ, suc, ◌+◌, ◌*◌, ◌%◌, ◌≤◌, ◌<◌, ◌≡◌, refl, sym, ◌∙◌, ap, subst, true, false, ◌==◌, ==_refl,
  if◌then◌else◌, leb, Option, none, some, List, [], ◌∷◌, ◌++◌, arith,
}
use katpool.Base.Float.{Float}
use katpool.Bridge.Jobs.{Job, max_jobs, get_job, calculate_target}
use katpool.Bridge.Nonce.{strip_0x, final_nonce, from_str_radix_16}
use katpool.Bridge.Duplicates.{
  accepted, SubmitKey, SubmitKey_key, key_eq, DuplicateSubmitGuard, prune, insert_inflight,
  set_outcome,
}
use katpool.Bridge.Duplicates.Fresh.{
  IsFresh, prune-IsFresh, get-IsFresh, insert_inflight-IsFresh, set_outcome-IsFresh,
}
use katpool.Bridge.Submit.{
  BlockSubmitAnswer, SubmitEvent, found_share, underflow, last_tried, search, StratumContext,
  ShareHandler, pool_target_of, handle_submit, conclude, SubmitOutcome, panicked, replied,
  true_reply, credit, share_difficulty, hash_value_of, emit_credited, share_credited,
}

module _ (fl : Float) (pow_value : Job → ℕ → ℕ) (block_hash : Job → ℕ → ℕ)
    (submit_block : Job → ℕ → BlockSubmitAnswer) (ctx : StratumContext fl) (raw : List ℕ) where
  open fl use {F, zero_f, lt_f}

  abbrev pub text_of : List ℕ
  text_of = final_nonce ctx.extranonce (strip_0x raw)

  abbrev pub key_at : ℕ → SubmitKey
  key_at id = record { key_worker = ctx.worker; key_job = id; key_nonce = text_of }

  -- the same nonce under a job id
  abbrev pub event_at : ℕ → SubmitEvent
  event_at id = record { param_count = 3; job_id_param = some id; nonce_param = some raw }

  abbrev pub submit_at : ℕ → ℕ → ℕ → ShareHandler fl → ShareHandler fl × SubmitOutcome
  submit_at now later id h =
      handle_submit fl pow_value block_hash submit_block ctx now later (event_at id) h

  -- the difficulty that a share of the handler's worker is credited with
  abbrev pub assigned_difficulty : ShareHandler fl → Option F
  assigned_difficulty h =
      share_difficulty fl (
        if lt_f zero_f h.stats.min_diff
        then h.stats.min_diff
        else hash_value_of fl ctx.stratum_diff)

  -- a submission that is not in the guard, of a share at the job of its own id
  pub record IsShare (id : ℕ) (job : Job) (nonce : ℕ) : Type 0 where
    pub stored : get_job id ctx.mining ≡ some job
    pub reads : from_str_radix_16 text_of ≡ some nonce
    pub no_block : calculate_target job.bits < pow_value job nonce
    pub meets : pow_value job nonce < pool_target_of fl ctx.stratum_diff

  search-share :
      (fuel id : ℕ) (job : Job) (nonce : ℕ)
      → calculate_target job.bits < pow_value job nonce
      → pow_value job nonce < pool_target_of fl ctx.stratum_diff
      → search pow_value ctx.mining
          (pool_target_of fl ctx.stratum_diff)
          nonce
          id
          (suc fuel)
          id
          job
          false
        ≡ found_share job
  unfolding search
  search-share fuel id job nonce no_block meets =
      let e : leb (pow_value job nonce) (calculate_target job.bits) ≡ false = ground arith in
      let e' : leb (pool_target_of fl ctx.stratum_diff) (pow_value job nonce) ≡ false =
        ground arith in
      rw (e, e') refl

  submit_at-credit :
      (now later id : ℕ) (job : Job) (nonce : ℕ) (h : ShareHandler fl)
      → IsShare id job nonce
      → IsFresh (key_at id) h.guard
      → submit_at now later id h
        ≡ credit fl ctx
            (key_at id)
            later
            job
            (record h { guard = insert_inflight (key_at id) now (prune now h.guard) })
  unfolding handle_submit conclude
  submit_at-credit now later id job nonce h s f =
      rw
        (
          s.stored,
          s.reads,
          get-IsFresh now (key_at id) h.guard f,
          search-share 299 id job nonce s.no_block s.meets,
        )
        refl

  search-underflow :
      (fuel : ℕ) (job : Job) (nonce : ℕ)
      → calculate_target job.bits < pow_value job nonce
      → pool_target_of fl ctx.stratum_diff ≤ pow_value job nonce
      → search pow_value ctx.mining
          (pool_target_of fl ctx.stratum_diff)
          nonce
          0
          (suc fuel)
          0
          job
          false
        ≡ underflow
  unfolding search last_tried
  search-underflow fuel job nonce no_block misses =
      let e : leb (pow_value job nonce) (calculate_target job.bits) ≡ false = ground arith in
      let e' : leb (pool_target_of fl ctx.stratum_diff) (pow_value job nonce) ≡ true =
        ground arith in
      rw (e, e') refl

  -- A submission under the job id 0 panics, and so ends the process, when a job is stored at the slot 0,
  -- the nonce reads as a number that is neither a block nor a share of that job, and the guard does not
  -- hold its key.
  pub handle_submit-panics_at_zero :
      (now later : ℕ) (job : Job) (nonce : ℕ) (h : ShareHandler fl)
      → get_job 0 ctx.mining ≡ some job
      → from_str_radix_16 text_of ≡ some nonce
      → calculate_target job.bits < pow_value job nonce
      → pool_target_of fl ctx.stratum_diff ≤ pow_value job nonce
      → IsFresh (key_at 0) h.guard
      → (submit_at now later 0 h).1 ≡ panicked
  unfolding handle_submit conclude
  handle_submit-panics_at_zero now later job nonce h stored reads no_block misses fresh =
      rw
        (
          stored,
          reads,
          get-IsFresh now (key_at 0) h.guard fresh,
          search-underflow 299 job nonce no_block misses,
        )
        refl

  emit_credited-rest :
      (job : Job) (d : Option F) (h : ShareHandler fl)
      → ((emit_credited fl ctx job d h).stats ≡ h.stats)
        × ((emit_credited fl ctx job d h).guard ≡ h.guard)
  unfolding emit_credited
  emit_credited-rest job none h = (refl, refl)
  emit_credited-rest job (some d) h = ground arith

  -- what a credit does
  credit-effect :
      (key : SubmitKey) (later : ℕ) (job : Job) (h : ShareHandler fl) (d : F)
      → ctx.names_valid ≡ true
      → assigned_difficulty h ≡ some d
      → let out = credit fl ctx key later job h in
        (out.1 ≡ replied true_reply)
        × (out.0.stats.shares_found ≡ h.stats.shares_found + 1)
        × (out.0.stats.min_diff ≡ h.stats.min_diff)
        × (out.0.events
            ≡ h.events ++ (share_credited ctx.wallet ctx.worker d job.job_daa_score ∷ []))
        × (out.0.guard ≡ set_outcome key later accepted h.guard)
  unfolding credit emit_credited
  credit-effect key later job h d valid assigned =
      rw (assigned, valid) (refl, refl, refl, refl, refl)

  -- the guard behind a submission holds no other key that was not there
  after-IsFresh :
      (now later : ℕ) (one other : SubmitKey) (g : DuplicateSubmitGuard)
      → key_eq one other ≡ false
      → IsFresh other g
      → IsFresh other (set_outcome one later accepted (insert_inflight one now (prune now g)))
  after-IsFresh now later one other g e f =
      set_outcome-IsFresh later one other accepted _ e
        (insert_inflight-IsFresh now one other (prune now g) e (prune-IsFresh now other g f))

  same_slot : (id m : ℕ) → (id + max_jobs * m) % max_jobs ≡ id % max_jobs
  same_slot id m = omega arith

  get_job-same_slot : (id m : ℕ) → get_job (id + max_jobs * m) ctx.mining ≡ get_job id ctx.mining
  unfolding get_job
  get_job-same_slot id m = rw (same_slot id m) refl

  other_key : (id m : ℕ) → 1 ≤ m → key_eq (key_at id) (key_at (id + max_jobs * m)) ≡ false
  other_key id m h =
      let ne : (id == id + max_jobs * m) ≡ false = ground arith in rw (==_refl ctx.worker, ne) refl

  -- One piece of work is credited twice. A nonce that is a share of the job stored under an id is
  -- credited under that id and, right after, under the id plus any positive multiple of 300, when the
  -- guard holds neither key before: both replies are `true`, two shares are counted, and two credits of
  -- the same difficulty are emitted for the accountant.
  pub handle_submit-replays :
      (id m now later now' later' : ℕ) (job : Job) (nonce : ℕ) (h : ShareHandler fl) (d : F)
      → 1 ≤ m
      → IsShare id job nonce
      → IsFresh (key_at id) h.guard
      → IsFresh (key_at (id + max_jobs * m)) h.guard
      → ctx.names_valid ≡ true
      → assigned_difficulty h ≡ some d
      → let first = submit_at now later id h in
        let second = submit_at now' later' (id + max_jobs * m) first.0 in
        let e = share_credited ctx.wallet ctx.worker d job.job_daa_score in
        (first.1 ≡ replied true_reply)
        × (second.1 ≡ replied true_reply)
        × (second.0.stats.shares_found ≡ h.stats.shares_found + 2)
        × (second.0.events ≡ (h.events ++ e ∷ []) ++ e ∷ [])
  handle_submit-replays id m now later now' later' job nonce h d positive share fresh fresh' valid
        assigned =
      let other = id + max_jobs * m in
      let h0 : ShareHandler fl = record h {
        guard = insert_inflight (key_at id) now (prune now h.guard);
      } in
      let one = credit-effect (key_at id) later job h0 d valid assigned in
      let first = (credit fl ctx (key_at id) later job h0).0 in
      let left : IsFresh (key_at other) first.guard = subst (IsFresh (key_at other)) (sym one.4) (
        after-IsFresh now later (key_at id) (key_at other) h.guard (other_key id m positive)
          fresh') in
      let share' : IsShare other job nonce = record {
        stored = get_job-same_slot id m ∙ share.stored;
        reads = share.reads;
        no_block = share.no_block;
        meets = share.meets;
      } in
      let h1 : ShareHandler fl = record first {
        guard = insert_inflight (key_at other) now' (prune now' first.guard);
      } in
      let assigned' : assigned_difficulty h1 ≡ some d =
        ap
          (λ v.
            share_difficulty fl (if lt_f zero_f v then v else hash_value_of fl ctx.stratum_diff))
          one.2
        ∙ assigned in
      let two = credit-effect (key_at other) later' job h1 d valid assigned' in
      rw
        (
          submit_at-credit now later id job nonce h share fresh,
          submit_at-credit now' later' other job nonce first share' left,
        )
        (
          one.0,
          two.0,
          two.1 ∙ ap (λ n. n + 1) one.1 ∙ omega arith,
          two.3
              ∙ ap (λ es. es ++ share_credited ctx.wallet ctx.worker d job.job_daa_score ∷ [])
                  one.3,
        )
