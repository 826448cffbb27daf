-- ===== src/Tests/Shares.antt =====
-- Submissions of shares, and the theorems at them.
use katpool.Base.{
  ℕ, ◌+◌, ◌*◌, ◌<◌, ◌≡◌, refl, ◌⊎◌, true, false, Option, none, some, List, [], ◌∷◌, ◌++◌, arith,
  ltb,
}
use katpool.Base.Table.{lookup}
use katpool.Bridge.Jobs.{
  Job, MiningState, max_jobs, add_job, get_job, get_job_id_at_slot, calculate_target,
}
use katpool.Bridge.Jobs.Ring.{add_all, add_job-get_job}
use katpool.Bridge.Nonce.{
  strip_0x, final_nonce, from_str_radix_16, some_digits, hex_digits, hex_digit,
}
use katpool.Bridge.Duplicates.{SubmitKey, SubmitKey_key, get}
use katpool.Bridge.Submit.{
  BlockSubmitAnswer, accepted_by_node, SubmitEvent, search, StratumContext, WorkStats, ShareHandler,
  SubmitOutcome, job_does_not_exist, refused, replied, true_reply, panicked, share_credited,
  share_difficulty, handle_submit,
}
use katpool.Bridge.Submit.Search.{Sound, search-IsSound}
use katpool.Bridge.Submit.Credit.{IsWork, handle_submit-counts-IsWork}
use katpool.Bridge.Submit.Refused.{IsUntouched, handle_submit-refused}
use katpool.Bridge.Submit.Replay.{
  IsShare, submit_at, handle_submit-replays, handle_submit-panics_at_zero,
}
use katpool.Tests.FixedPoint.{fixed_point}

-- a network target of 5
abbrev job : Job
job = record { bits = 50_331_653; job_daa_score = 77; template = 1 }

abbrev newer : Job
newer = record { bits = 50_331_653; job_daa_score = 78; template = 2 }

-- 300 jobs have come; only the first slots matter
abbrev mining : MiningState
mining = record {
  jobs = (1, job) ∷ (0, newer) ∷ [];
  job_ids = (1, 1) ∷ (0, 300) ∷ [];
  job_counter = 300;
}

-- the nonce itself as the proof of work
abbrev pow : Job → ℕ → ℕ
pow j nonce = nonce

abbrev hash : Job → ℕ → ℕ
hash j nonce = j.template

abbrev node : Job → ℕ → BlockSubmitAnswer
node j nonce = accepted_by_node

abbrev ctx : StratumContext fixed_point
ctx = record {
  wallet = 8;
  worker = 4;
  names_valid = true;
  extranonce = [];
  mining = mining;
  stratum_diff = some (record { target_value = 100; hash_value = 2_000_000 });
}

abbrev no_work : WorkStats fixed_point
no_work = record {
  shares_found = 0;
  invalid_shares = 0;
  stale_shares = 0;
  var_diff_shares_found = 0;
  shares_diff = 0;
  min_diff = 4_000_000;
}

abbrev handler : ShareHandler fixed_point
handler = record {
  stats = no_work;
  overall = no_work;
  guard = record { ttl = 180; max_entries = 1_000; entries = []; order = [] };
  events = [];
}

-- "0x20"
abbrev share_text : List ℕ
share_text = b'0' ∷ b'x' ∷ b'2' ∷ b'0' ∷ []

-- "ff"
abbrev poor_text : List ℕ
poor_text = b'f' ∷ b'f' ∷ []

abbrev some_id : ℕ → Option ℕ
some_id id = some id

abbrev event_of : ℕ → List ℕ → SubmitEvent
event_of id raw = record { param_count = 3; job_id_param = some id; nonce_param = some raw }

add_job-get_job_example :
    (get_job 301 (add_all (newer ∷ []) (add_job job mining).0) ≡ some job)
    × (get_job_id_at_slot 301 (add_all (newer ∷ []) (add_job job mining).0) ≡ some 301)
unfolding add_job
add_job-get_job_example = add_job-get_job job (newer ∷ []) mining (omega arith)

stored_one : get_job 1 mining ≡ some job
unfolding get_job lookup
stored_one = refl

search-IsSound_example : Sound pow mining 100 32 1 (search pow mining 100 32 1 max_jobs 1 job false)
search-IsSound_example = search-IsSound pow mining 100 32 1 job stored_one

IsShare-at_one : IsShare fixed_point pow hash node ctx share_text 1 job 32
unfolding get_job lookup calculate_target from_str_radix_16 some_digits hex_digits hex_digit
    strip_0x final_nonce
IsShare-at_one = record { stored = refl; reads = refl; no_block = omega arith; meets = omega arith }

abbrev first_try : ShareHandler fixed_point × SubmitOutcome
first_try = submit_at fixed_point pow hash node ctx share_text 10 11 1 handler

abbrev second_try : ShareHandler fixed_point × SubmitOutcome
second_try = submit_at fixed_point pow hash node ctx share_text 12 13 (1 + max_jobs * 1) first_try.0

nothing_kept : (key : SubmitKey) → lookup key handler.guard.entries ≡ none
unfolding lookup
nothing_kept key = refl

assigned_four : share_difficulty fixed_point 4_000_000 ≡ some 4_000_000
unfolding share_difficulty
assigned_four = refl

handle_submit-replays_example :
    (first_try.1 ≡ replied true_reply)
    × (second_try.1 ≡ replied true_reply)
    × (second_try.0.stats.shares_found ≡ 2)
    × (second_try.0.events
        ≡ (([] ++ share_credited 8 4 4_000_000 77 ∷ []) ++ share_credited 8 4 4_000_000 77 ∷ []))
handle_submit-replays_example =
    handle_submit-replays fixed_point pow hash node ctx share_text 1 1 10 11 12 13 job 32 handler
      4_000_000 (omega arith) IsShare-at_one (nothing_kept _) (nothing_kept _) refl assigned_four

zero_stored : get_job 0 mining ≡ some newer
unfolding get_job lookup
zero_stored = refl

poor_reads : from_str_radix_16 (final_nonce [] (strip_0x poor_text)) ≡ some 255
unfolding from_str_radix_16 some_digits hex_digits hex_digit strip_0x final_nonce
poor_reads = refl

small_target : calculate_target 50_331_653 < 255
unfolding calculate_target
small_target = omega arith

handle_submit-panics_at_zero_example :
    (submit_at fixed_point pow hash node ctx poor_text 10 11 0 handler).1 ≡ panicked
handle_submit-panics_at_zero_example =
    handle_submit-panics_at_zero fixed_point pow hash node ctx poor_text 10 11 newer 255 handler
      zero_stored poor_reads small_target (omega arith) (nothing_kept _)

abbrev submitted : ShareHandler fixed_point × SubmitOutcome
submitted = handle_submit fixed_point pow hash node ctx 10 11 (event_of 1 share_text) handler

handle_submit-counts-IsWork_example :
    (submitted.0.stats.shares_found ≡ 0)
    ⊎ ((submitted.0.stats.shares_found ≡ 1)
        × ((id : ℕ) × (raw : List ℕ) × (nonce : ℕ) × (some_id 1 ≡ some id)
            × (some share_text ≡ some raw)
            × (from_str_radix_16 (final_nonce [] (strip_0x raw)) ≡ some nonce)
            × ((get
                  (record {
                    key_worker = 4;
                    key_job = id;
                    key_nonce = final_nonce [] (strip_0x raw);
                  })
                  10
                  handler.guard).1
                ≡ none)
            × IsWork fixed_point pow hash node ctx nonce))
handle_submit-counts-IsWork_example =
    handle_submit-counts-IsWork fixed_point pow hash node ctx 10 11 (event_of 1 share_text) handler

abbrev missing : ShareHandler fixed_point × SubmitOutcome
missing = handle_submit fixed_point pow hash node ctx 10 11 (event_of 2 share_text) handler

missing_refused : missing.1 ≡ refused job_does_not_exist
unfolding handle_submit get_job lookup
missing_refused = refl

handle_submit-refused_example :
    IsUntouched fixed_point pow hash node ctx handler missing.0
    × ((ltb 3 3 ≡ true)
        ⊎ (some_id 2 ≡ none)
        ⊎ ((id : ℕ) × (some_id 2 ≡ some id) × (get_job id mining ≡ none))
        ⊎ (some share_text ≡ none)
        ⊎ ((raw : List ℕ) × (some share_text ≡ some raw)
            × (from_str_radix_16 (final_nonce [] (strip_0x raw)) ≡ none)))
handle_submit-refused_example =
    handle_submit-refused fixed_point pow hash node ctx 10 11 (event_of 2 share_text) handler
      job_does_not_exist missing_refused
