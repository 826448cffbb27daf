-- ===== src/Bridge/Submit.antt =====
-- One submission of a share: `ShareHandler::handle_submit` of bridge/src/share_handler.rs. The proof of
-- work and the hash of a header belong to kaspa's libraries and are parameters, as is the node's answer
-- to a block. What is only logged, measured or replied is left out but for which reply it is; a reply
-- that cannot be sent changes nothing else. The overflow checks of the release profile are on, with
-- `panic = "abort"` (Cargo.toml), so that a subtraction below 0 is a panic.
pub mod Search
pub mod Credit
pub mod Refused
pub mod Replay
use katpool.Base.{
  ℕ, zero, suc, ◌+◌, ◌-◌, ◌%◌, ◌==◌, Bool, true, false, ◌||◌, if◌then◌else◌, ltb, leb, Option, none,
  some, List, [], ◌∷◌, ◌++◌,
}
use katpool.Base.Float.{Float}
use katpool.Bridge.Jobs.{Job, MiningState, max_jobs, get_job, calculate_target}
use katpool.Bridge.Nonce.{strip_0x, final_nonce, from_str_radix_16}
use katpool.Bridge.Duplicates.{
  DuplicateSubmitOutcome, in_flight, accepted, stale, low_diff, bad, SubmitKey,
  DuplicateSubmitGuard, get, insert_inflight, set_outcome,
}

pub data ShareRejectReason : Type 0 where
  stale_block low_difficulty bad_pow missing_job malformed_frame duplicate_submit bad_address :
      ShareRejectReason

-- what the node answers to a block
pub data BlockSubmitAnswer : Type 0 where
  accepted_by_node rejected_by_node duplicate_block other_failure : BlockSubmitAnswer

pub data Reply : Type 0 where
  true_reply stale_reply low_diff_reply bad_reply : Reply

pub data SubmitError : Type 0 where
  malformed_event job_id_error job_does_not_exist nonce_not_text nonce_parse : SubmitError

pub data SubmitOutcome : Type 0 where
  replied : Reply → SubmitOutcome
  refused : SubmitError → SubmitOutcome
  panicked out_of_fuel : SubmitOutcome

-- The parameters of the event: how many, the job id when it reads as a u64, and the nonce when it is a
-- text. Which parameter is the nonce depends on how many there are.
pub record SubmitEvent : Type 0 where
  pub param_count : ℕ
  pub job_id_param : Option ℕ
  pub nonce_param : Option (List ℕ)

-- how the loop over the jobs ends: at a block, at a share, without one, or in a subtraction 0 - 1
pub data Verdict : Type 0 where
  found_block : Job → Verdict
  found_share : Job → Verdict
  no_share : Bool → Job → Verdict
  underflow exhausted : Verdict

-- The loop: `current` starts at the submitted id and steps down. Each job decides for itself whether the
-- nonce is a block, and only then whether it is a share.
module _ (pow_value : Job → ℕ → ℕ) (s : MiningState) (pool_target nonce job_id : ℕ) where
  unfoldable pub last_tried : ℕ → Bool
  last_tried current = current == 1 || current % max_jobs == (job_id % max_jobs + 1) % max_jobs

  unfoldable pub search : ℕ → ℕ → Job → Bool → Verdict
  unfolding last_tried
  search zero current job invalid = exhausted
  search (suc fuel) current job invalid =
      let marked = if current == job_id then true else invalid in
      let earlier : Verdict = elim (get_job (current - 1) s) [
        | none ↦ no_share marked job
        | some previous ↦ search fuel (current - 1) previous marked
      ] in
      if leb (pow_value job nonce) (calculate_target job.bits)
      then found_block job
      else if leb pool_target (pow_value job nonce)
      then (if last_tried current
          then no_share marked job
          else if current == 0
          then underflow
          else earlier)
      else found_share job

module _ (fl : Float) where
  open fl use {F, zero_f, add_f, lt_f, le_f, is_finite}

  pub data PoolEvent : Type 0 where
    share_credited : ℕ → ℕ → F → ℕ → PoolEvent
    share_rejected : ℕ → ℕ → ShareRejectReason → PoolEvent
    block_found : ℕ → ℕ → ℕ → ℕ → PoolEvent
    block_accepted : ℕ → PoolEvent

  -- `KaspaDiff`, as far as a submission reads it
  pub record KaspaDiff : Type 0 where
    pub target_value : ℕ
    pub hash_value : F

  -- `names_valid`: the wallet and the worker pass the domain's checks
  pub record StratumContext : Type 0 where
    pub wallet : ℕ
    pub worker : ℕ
    pub names_valid : Bool
    pub extranonce : List ℕ
    pub mining : MiningState
    pub stratum_diff : Option KaspaDiff

  pub record WorkStats : Type 0 where
    pub shares_found : ℕ
    pub invalid_shares : ℕ
    pub stale_shares : ℕ
    pub var_diff_shares_found : ℕ
    pub shares_diff : F
    pub min_diff : F

  -- the worker's statistics and the overall ones, the guard, and the events in their order
  pub record ShareHandler : Type 0 where
    pub stats : WorkStats
    pub overall : WorkStats
    pub guard : DuplicateSubmitGuard
    pub events : List PoolEvent

  abbrev pub emit : PoolEvent → ShareHandler → ShareHandler
  emit e h = record h { events = h.events ++ (e ∷ []) }

  -- `emit` of what `build_share_rejected` returns
  unfoldable pub emit_rejected : StratumContext → ShareRejectReason → ShareHandler → ShareHandler
  emit_rejected ctx reason h =
      if ctx.names_valid then emit (share_rejected ctx.wallet ctx.worker reason) h else h

  abbrev pub with_outcome : SubmitKey → ℕ → DuplicateSubmitOutcome → ShareHandler → ShareHandler
  with_outcome key later outcome h = record h { guard = set_outcome key later outcome h.guard }

  abbrev pub add_stale : ShareHandler → ShareHandler
  add_stale h = record h {
    stats = record (h.stats) { stale_shares = h.stats.stale_shares + 1 };
    overall = record (h.overall) { stale_shares = h.overall.stale_shares + 1 };
  }

  abbrev pub add_invalid : ShareHandler → ShareHandler
  add_invalid h = record h {
    stats = record (h.stats) { invalid_shares = h.stats.invalid_shares + 1 };
    overall = record (h.overall) { invalid_shares = h.overall.invalid_shares + 1 };
  }

  abbrev pub hash_value_of : Option KaspaDiff → F
  hash_value_of none = zero_f
  hash_value_of (some d) = d.hash_value

  abbrev pub pool_target_of : Option KaspaDiff → ℕ
  pool_target_of none = 0
  pool_target_of (some d) = d.target_value

  abbrev pub add_found : F → ShareHandler → ShareHandler
  add_found hash_value h = record h {
    stats = record (h.stats) {
      shares_found = h.stats.shares_found + 1;
      var_diff_shares_found = h.stats.var_diff_shares_found + 1;
      shares_diff = add_f h.stats.shares_diff hash_value;
    };
    overall = record (h.overall) { shares_found = h.overall.shares_found + 1 };
  }

  -- `ShareDifficulty::new`
  unfoldable pub share_difficulty : F → Option F
  share_difficulty d = if is_finite d then (if le_f d zero_f then none else some d) else none

  unfoldable pub emit_credited : StratumContext → Job → Option F → ShareHandler → ShareHandler
  emit_credited ctx job none h = h
  emit_credited ctx job (some d) h =
      if ctx.names_valid
      then emit (share_credited ctx.wallet ctx.worker d job.job_daa_score) h
      else h

  -- the end of `handle_submit` for a valid share
  unfoldable pub credit :
      StratumContext → SubmitKey → ℕ → Job → ShareHandler → ShareHandler × SubmitOutcome
  unfolding emit_credited
  credit ctx key later job h =
      let hash_value = hash_value_of ctx.stratum_diff in
      let counted = add_found hash_value h in
      let assigned =
        if lt_f zero_f counted.stats.min_diff then counted.stats.min_diff else hash_value in
      (
        with_outcome key later accepted (emit_credited ctx job (share_difficulty assigned) counted),
        replied true_reply,
      )

  module _ (pow_value : Job → ℕ → ℕ) (block_hash : Job → ℕ → ℕ)
      (submit_block : Job → ℕ → BlockSubmitAnswer) where
    -- a block: announced, submitted, and by the node's answer a share as well
    unfoldable pub settle_block :
        StratumContext
        → SubmitKey
        → ℕ
        → Job
        → ℕ
        → BlockSubmitAnswer
        → ShareHandler
        → ShareHandler × SubmitOutcome
    unfolding credit
    settle_block ctx key later job nonce rejected_by_node h = credit ctx key later job h
    settle_block ctx key later job nonce accepted_by_node h =
        credit ctx key later job (emit (block_accepted (block_hash job nonce)) h)
    settle_block ctx key later job nonce duplicate_block h = (
      emit_rejected ctx stale_block (add_stale (with_outcome key later stale h)),
      replied stale_reply,
    )
    settle_block ctx key later job nonce other_failure h =
        (with_outcome key later bad (emit_rejected ctx bad_pow (add_invalid h)), replied bad_reply)

    abbrev pub announce_block : StratumContext → Job → ℕ → ShareHandler → ShareHandler
    announce_block ctx job nonce h =
        if ctx.names_valid
        then emit (block_found ctx.wallet ctx.worker (block_hash job nonce) job.job_daa_score) h
        else h

    unfoldable pub conclude :
        StratumContext → SubmitKey → ℕ → ℕ → Verdict → ShareHandler → ShareHandler × SubmitOutcome
    unfolding settle_block
    conclude ctx key later nonce (found_block job) h =
        settle_block ctx key later job nonce (submit_block job nonce)
          (announce_block ctx job nonce h)
    conclude ctx key later nonce (found_share job) h = credit ctx key later job h
    conclude ctx key later nonce (no_share true job) h = (
      with_outcome key later low_diff (emit_rejected ctx low_difficulty (add_invalid h)),
      replied low_diff_reply,
    )
    conclude ctx key later nonce (no_share false job) h = credit ctx key later job h
    conclude ctx key later nonce underflow h = (h, panicked)
    conclude ctx key later nonce exhausted h = (h, out_of_fuel)

    abbrev pub reply_again : DuplicateSubmitOutcome → Reply
    reply_again in_flight = true_reply
    reply_again accepted = true_reply
    reply_again stale = stale_reply
    reply_again low_diff = low_diff_reply
    reply_again bad = bad_reply

    -- behind the look into the guard
    unfoldable pub submit_checked :
        StratumContext
        → SubmitKey
        → ℕ
        → ℕ
        → ℕ
        → Job
        → ℕ
        → ShareHandler
        → DuplicateSubmitGuard × Option DuplicateSubmitOutcome
        → ShareHandler × SubmitOutcome
    unfolding search conclude
    submit_checked ctx key now later job_id job nonce h (pruned, some outcome) =
        (record h { guard = pruned }, replied (reply_again outcome))
    submit_checked ctx key now later job_id job nonce h (pruned, none) =
        conclude ctx key later nonce
          (search pow_value ctx.mining (pool_target_of ctx.stratum_diff) nonce job_id max_jobs
            job_id job false)
          (record h { guard = insert_inflight key now pruned })

    unfoldable pub submit_nonce :
        StratumContext
        → ℕ
        → ℕ
        → ℕ
        → Job
        → List ℕ
        → Option ℕ
        → ShareHandler
        → ShareHandler × SubmitOutcome
    unfolding submit_checked
    submit_nonce ctx now later job_id job text none h = (h, refused nonce_parse)
    submit_nonce ctx now later job_id job text (some nonce) h =
        let key : SubmitKey = record {
          key_worker = ctx.worker;
          key_job = job_id;
          key_nonce = text;
        } in
        submit_checked ctx key now later job_id job nonce h (get key now h.guard)

    unfoldable pub submit_job :
        StratumContext
        → ℕ
        → ℕ
        → ℕ
        → Option (List ℕ)
        → Option Job
        → ShareHandler
        → ShareHandler × SubmitOutcome
    unfolding submit_nonce
    submit_job ctx now later job_id nonce_param none h =
        (emit_rejected ctx missing_job h, refused job_does_not_exist)
    submit_job ctx now later job_id none (some job) h = (h, refused nonce_not_text)
    submit_job ctx now later job_id (some raw) (some job) h =
        let text = final_nonce ctx.extranonce (strip_0x raw) in
        submit_nonce ctx now later job_id job text (from_str_radix_16 text) h

    unfoldable pub submit_id :
        StratumContext
        → ℕ
        → ℕ
        → Option ℕ
        → Option (List ℕ)
        → ShareHandler
        → ShareHandler × SubmitOutcome
    unfolding submit_job
    submit_id ctx now later none nonce_param h = (h, refused job_id_error)
    submit_id ctx now later (some job_id) nonce_param h =
        submit_job ctx now later job_id nonce_param (get_job job_id ctx.mining) h

    unfoldable pub handle_submit :
        StratumContext → ℕ → ℕ → SubmitEvent → ShareHandler → ShareHandler × SubmitOutcome
    unfolding submit_id
    handle_submit ctx now later event h =
        if ltb event.param_count 3
        then (emit_rejected ctx malformed_frame h, refused malformed_event)
        else submit_id ctx now later event.job_id_param event.nonce_param h
