-- ===== src/Bridge/Submit/Search.antt =====
-- The loop over the jobs of `handle_submit` (bridge/src/share_handler.rs).
use katpool.Base.{
  ℕ, zero, suc, ◌+◌, ◌-◌, ◌≤◌, ◌<◌, ◌≡◌, ◌≢◌, refl, sym, ◌∙◌, inl, inr, Bool, true, false, ◌==◌,
  if◌then◌else◌, leb, some, Bool-cases, Option-cases, arith,
}
use katpool.Bridge.Jobs.{Job, MiningState, max_jobs, get_job, calculate_target}
use katpool.Bridge.Submit.{
  Verdict, found_block, found_share, no_share, underflow, exhausted, last_tried, search,
}

false-true : ◌≡◌ {A = Bool} false true → ⊥
false-true h = cc

module _ (pow_value : Job → ℕ → ℕ) (s : MiningState) (pool_target nonce job_id : ℕ) where
  -- What a verdict means: a block meets its own network target; a share misses it and meets the pool's
  -- target; a search without a share is marked invalid; the subtraction below 0 happens only for the id
  -- 0; and the loop has ended by itself. The job is one that is stored.
  abbrev pub Sound : Verdict → Type 0
  Sound (found_block job) =
      (pow_value job nonce ≤ calculate_target job.bits) × ((id : ℕ) × (get_job id s ≡ some job))
  Sound (found_share job) =
      (calculate_target job.bits < pow_value job nonce)
      × (pow_value job nonce < pool_target)
      × ((id : ℕ) × (get_job id s ≡ some job))
  Sound (no_share invalid job) = invalid ≡ true
  Sound underflow = job_id ≡ 0
  Sound exhausted = ⊥

  -- at the 300th job the search is back where it would begin again
  last_round :
      (current : ℕ)
      → current + 299 ≡ job_id
      → last_tried pow_value s pool_target nonce job_id current ≡ true
  unfolding last_tried
  last_round current e = ground arith

  last_at_one :
      (current : ℕ) → current ≡ 1 → last_tried pow_value s pool_target nonce job_id current ≡ true
  unfolding last_tried
  last_at_one current e = ground arith

  mark_true :
      (current : ℕ) (invalid : Bool)
      → ((current == job_id) ≡ false → invalid ≡ true)
      → (if current == job_id then true else invalid) ≡ true
  mark_true current invalid marked = elim (Bool-cases (current == job_id)) [
    | inl e ↦ rw e refl
    | inr e ↦ rw e (marked e)
  ]

  -- what one round leaves to show: the two targets are decided, and the rest is the way down
  round-Sound :
      (fuel current : ℕ) (job : Job) (invalid : Bool)
      → get_job current s ≡ some job
      → ((current == job_id) ≡ false → invalid ≡ true)
      → (last_tried pow_value s pool_target nonce job_id current ≡ false
          → (current ≡ 0 → job_id ≡ 0)
            × ((current ≢ 0)
                → (previous : Job) → get_job (current - 1) s ≡ some previous
                → Sound
                    (search pow_value s pool_target nonce job_id fuel (current - 1) previous true)))
      → Sound (search pow_value s pool_target nonce job_id (suc fuel) current job invalid)
  unfolding search
  round-Sound fuel current job invalid stored marked down =
      let all_marked = mark_true current invalid marked in
      elim (Bool-cases (leb (pow_value job nonce) (calculate_target job.bits))) [
        | inl e ↦ rw e (ground arith, (current, stored))
        | inr e ↦ elim (Bool-cases (leb pool_target (pow_value job nonce))) [
          | inr e' ↦ rw (e, e') (ground arith, ground arith, (current, stored))
          | inl e' ↦ elim (Bool-cases (last_tried pow_value s pool_target nonce job_id current)) [
            | inl e'' ↦ rw (e, e', e'') all_marked
            | inr e'' ↦ elim (Bool-cases (current == 0)) [
              | inl z ↦ rw (e, e', e'', z) ((down e'').0 (ground arith))
              | inr z ↦ elim (Option-cases (get_job (current - 1) s)) [
                | inl gone ↦ rw (e, e', e'', z, gone) all_marked
                | inr (previous, there) ↦
                    rw (e, e', e'', z, there, all_marked)
                      ((down e'').1 (λ k. absurd (ground arith)) previous there)
              ]
            ]
          ]
        ]
      ]

  search-Sound :
      (fuel tried current : ℕ) (job : Job) (invalid : Bool)
      → get_job current s ≡ some job
      → current + tried ≡ job_id
      → fuel + tried ≡ 299
      → (current ≡ 0 → tried ≡ 0)
      → ((current == job_id) ≡ false → invalid ≡ true)
      → Sound (search pow_value s pool_target nonce job_id (suc fuel) current job invalid)
  search-Sound zero tried current job invalid stored at left zero_first marked =
      round-Sound zero current job invalid stored marked
        (λ not_last. absurd (false-true (sym not_last ∙ last_round current (omega arith))))
  search-Sound (suc fuel) tried current job invalid stored at left zero_first marked =
      round-Sound (suc fuel) current job invalid stored marked (λ not_last. (
        λ z. omega (arith, zero_first z, at),
        λ nz previous there.
            search-Sound fuel (suc tried) (current - 1) previous true there (ground (arith, nz))
              (omega arith)
              (λ z. absurd (false-true (sym not_last ∙ last_at_one current (ground (arith, nz)))))
              (λ _. refl),
      ))

  -- A search that starts at a stored job ends by itself, at what its verdict says: the fuel of 300 rounds
  -- is enough; a block meets its job's own network target, a share the pool's target, with a job that is
  -- stored; a search without either is marked invalid; and only the id 0 leads to the subtraction 0 - 1.
  pub search-IsSound :
      (job : Job)
      → get_job job_id s ≡ some job
      → Sound (search pow_value s pool_target nonce job_id max_jobs job_id job false)
  search-IsSound job stored =
      search-Sound 299 0 job_id job false stored (omega arith) (omega arith) (λ _. refl)
        (λ k. absurd (ground arith))
