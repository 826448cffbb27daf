-- ===== src/Bridge/Jobs.antt =====
-- The jobs of one connection (bridge/src/mining_state.rs) and the compact target
-- (bridge/src/hasher.rs). Of a block template there is what the bridge reads of its header; `template`
-- stands for the rest.
pub mod Ring
use katpool.Base.{ℕ, ◌+◌, ◌-◌, ◌*◌, ◌/◌, ◌%◌, ◌^◌, if◌then◌else◌, leb, Option, List, []}
use katpool.Base.Table.{ℕ_key, lookup, insert}

abbrev pub max_jobs : ℕ
max_jobs = 300

pub record Job : Type 0 where
  pub bits : ℕ
  pub job_daa_score : ℕ
  pub template : ℕ

pub record MiningState : Type 0 where
  pub jobs : List (ℕ × Job)
  pub job_ids : List (ℕ × ℕ)
  pub job_counter : ℕ

unfoldable pub no_jobs : MiningState
no_jobs = record { jobs = []; job_ids = []; job_counter = 0 }

-- The counter of jobs is far below the limit of a u64.
unfoldable pub add_job : Job → MiningState → MiningState × ℕ
add_job job s =
    let idx = s.job_counter + 1 in
    (
      record {
        jobs = insert (idx % max_jobs) job s.jobs;
        job_ids = insert (idx % max_jobs) idx s.job_ids;
        job_counter = idx;
      },
      idx,
    )

-- what is at the slot, whatever its id
unfoldable pub get_job : ℕ → MiningState → Option Job
get_job id s = lookup (id % max_jobs) s.jobs

unfoldable pub get_job_id_at_slot : ℕ → MiningState → Option ℕ
get_job_id_at_slot slot s = lookup (slot % max_jobs) s.job_ids

-- mantissa << (8 * (exponent - 3))
unfoldable pub calculate_target : ℕ → ℕ
calculate_target bits =
    let exponent = bits / 2 ^ 24 in
    let mantissa = bits % 2 ^ 24 in
    if leb exponent 3
    then mantissa / 2 ^ (8 * (3 - exponent))
    else mantissa * 2 ^ (8 * (exponent - 3))
