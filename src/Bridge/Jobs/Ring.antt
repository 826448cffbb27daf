-- ===== src/Bridge/Jobs/Ring.antt =====
-- How long a job can be found (bridge/src/mining_state.rs).
use katpool.Base.{
  ℕ, ◌+◌, ◌%◌, ◌≤◌, ◌<◌, ◌≡◌, refl, ◌∙◌, false, ◌==◌, ==_refl, some, List, [], ◌∷◌, length, arith,
}
use katpool.Base.Table.{ℕ_key, lookup-insert}
use katpool.Bridge.Jobs.{Job, MiningState, max_jobs, add_job, get_job, get_job_id_at_slot}

-- jobs added one after the other
unfoldable pub add_all : List Job → MiningState → MiningState
unfolding add_job
add_all [] s = s
add_all (job ∷ rest) s = add_all rest (add_job job s).0

other_slot :
    (id counter : ℕ)
    → id ≤ counter
    → counter + 1 < id + max_jobs
    → ((counter + 1) % max_jobs == id % max_jobs) ≡ false
other_slot id counter h k =
    let ne : ((counter + 1) % max_jobs ≡ id % max_jobs) → ⊥ = λ e. omega arith in ground (arith, ne)

add_all-keeps :
    (later : List Job) (id : ℕ) (s : MiningState)
    → id ≤ s.job_counter
    → s.job_counter + length later < id + max_jobs
    → (get_job id (add_all later s) ≡ get_job id s)
      × (get_job_id_at_slot id (add_all later s) ≡ get_job_id_at_slot id s)
unfolding add_all add_job get_job get_job_id_at_slot
add_all-keeps [] id s known recent = (refl, refl)
add_all-keeps (job ∷ rest) id s known recent =
    let (same, same_id) = add_all-keeps rest id (add_job job s).0 (omega arith) (omega arith) in
    let other = other_slot id s.job_counter known (omega arith) in
    (
      same
          ∙ lookup-insert ((s.job_counter + 1) % max_jobs) (id % max_jobs) job s.jobs
          ∙ rw other refl,
      same_id
          ∙ lookup-insert ((s.job_counter + 1) % max_jobs) (id % max_jobs) (s.job_counter + 1)
              s.job_ids
          ∙ rw other refl,
    )

get_job-added :
    (job : Job) (s : MiningState) → get_job (add_job job s).1 (add_job job s).0 ≡ some job
unfolding add_job get_job
get_job-added job s =
    let slot = (s.job_counter + 1) % max_jobs in
    lookup-insert slot slot job s.jobs ∙ rw (==_refl slot) refl

get_job_id_at_slot-added :
    (job : Job) (s : MiningState)
    → get_job_id_at_slot (add_job job s).1 (add_job job s).0 ≡ some (add_job job s).1
unfolding add_job get_job_id_at_slot
get_job_id_at_slot-added job s =
    let slot = (s.job_counter + 1) % max_jobs in
    lookup-insert slot slot (s.job_counter + 1) s.job_ids ∙ rw (==_refl slot) refl

add_job-id : (job : Job) (s : MiningState) → (add_job job s).1 ≡ s.job_counter + 1
unfolding add_job
add_job-id job s = refl

add_job-counter : (job : Job) (s : MiningState) → (add_job job s).0.job_counter ≡ s.job_counter + 1
unfolding add_job
add_job-counter job s = refl

-- A job is found under the id that it was given, and the slot of that id still names it, as long as fewer
-- than 300 jobs have been added since.
pub add_job-get_job :
    (job : Job) (later : List Job) (s : MiningState)
    → length later < max_jobs
    → let (after, id) = add_job job s in
      (get_job id (add_all later after) ≡ some job)
      × (get_job_id_at_slot id (add_all later after) ≡ some id)
add_job-get_job job later s few =
    let (after, id) = add_job job s in
    let known : id ≤ after.job_counter = omega (arith, add_job-id job s, add_job-counter job s) in
    let recent : after.job_counter + length later < id + max_jobs =
      omega (arith, few, add_job-id job s, add_job-counter job s) in
    let (same, same_id) = add_all-keeps later id after known recent in
    (same ∙ get_job-added job s, same_id ∙ get_job_id_at_slot-added job s)
