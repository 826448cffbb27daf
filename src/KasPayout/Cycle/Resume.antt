-- ===== src/KasPayout/Cycle/Resume.antt =====
-- What a restart finds (`resume_or_plan_kas_cycle` of payout-kas/src/cycle.rs).
use katpool.Base.{
  ℕ, suc, ◌≤◌, ◌≡◌, refl, ap, sym, ◌∙◌, inl, inr, Bool, true, false, ◌==◌, ltb, if◌then◌else◌, List,
  [], ◌∷◌, ◌++◌, map, find?, All, Option, none, some, Option-cases, Bool-cases, ok, err, ◌>>=◌,
  >>=-eq-ok, ok_inj, ok_or, subst, ==_refl, arith,
}
use katpool.Base.Int.{ℤ}
use katpool.KasPayout.Rows.{PayoutKind, kas, krc20_nacho, kind_eq, window_key, key_eq, PayoutCycle}
use katpool.KasPayout.Repo.{set_cycle_totals, list_for_cycle}
use katpool.KasPayout.Cycle.{
  row_not_found, check_violation, CycleState, cycle_resume, cycle_plan, Db, with_audit, with_cycles,
  new_cycle, KasEligibleWallet, find_cycle_by_idempotency_key, get_cycle, create_cycle,
  list_kas_eligible_wallets, ensure_payout, plan_rows, finish_plan, PlanKasCycleParams,
  plan_kas_cycle, resume_found, resume_or_plan_kas_cycle,
}

module _ {ℓ} {A : Type ℓ} where
  find?-append :
      (p : A → Bool) (xs ys : List A) → find? p xs ≡ none → find? p (xs ++ ys) ≡ find? p ys
  find?-append p [] ys h = refl
  find?-append p (x ∷ xs) ys h = elim (Bool-cases (p x)) [
    | inl e ↦ absurd (ground (arith, h, e))
    | inr e ↦ rw (e) (find?-append p xs ys (ground (arith, h, e)))
  ]

-- The cycle ids in use are those that the sequence has given out.
abbrev pub IdsGiven : Db → Type 0
IdsGiven db = All (λ c. c.cycle_id ≤ db.last_cycle_id) db.cycles

kind_eq_refl : (k : PayoutKind) → kind_eq k k ≡ true
kind_eq_refl kas = refl
kind_eq_refl krc20_nacho = refl

key_eq_refl : (a b : ℕ) → key_eq (window_key kas a b) (window_key kas a b) ≡ true
key_eq_refl a b = rw (==_refl a, ==_refl b) refl

fresh-id :
    (n : ℕ) (cs : List PayoutCycle)
    → All (λ c. c.cycle_id ≤ n) cs
    → find? (λ c. c.cycle_id == suc n) cs ≡ none
fresh-id n [] h = refl
fresh-id n (c ∷ cs) h =
    let e : (c.cycle_id == suc n) ≡ false = let k = h.0 in ground arith in
    rw (e) (fresh-id n cs h.1)

ensure_payout-cycles :
    (c w : ℕ) (amount : ℤ) (db : Db) {db' : Db}
    → ensure_payout c w amount db ≡ ok db'
    → (db'.cycles ≡ db.cycles) × (db'.last_cycle_id ≡ db.last_cycle_id)
unfolding ensure_payout
ensure_payout-cycles c w amount db h = ground (arith, h)

plan_rows-cycles :
    (c : ℕ) (ws : List KasEligibleWallet) (total recipients : ℕ) (db : Db) {r : Db × ℕ × ℕ}
    → plan_rows c ws total recipients db ≡ ok r
    → (r.0.cycles ≡ db.cycles) × (r.0.last_cycle_id ≡ db.last_cycle_id)
unfolding plan_rows
plan_rows-cycles c [] total recipients db h =
    let e = ok_inj h in (ap (λ r. r.0.cycles) (sym e), ap (λ r. r.0.last_cycle_id) (sym e))
plan_rows-cycles c (w ∷ ws) total recipients db h =
    let (db1, e, k) = >>=-eq-ok (ensure_payout c w.eligible_id w.payable_sompi db) _ h in
    let (a, b) = ensure_payout-cycles c w.eligible_id w.payable_sompi db e in
    let (a', b') = plan_rows-cycles c ws _ _ db1 k in (a' ∙ a, b' ∙ b)

abbrev map_option {ℓ} : {A : Type ℓ} → (A → A) → Option A → Option A
map_option g none = none
map_option g (some a) = some (g a)

find?-map {ℓ} :
    {A : Type ℓ} (p : A → Bool) (g : A → A)
    → ((x : A) → p (g x) ≡ p x)
    → (xs : List A) → find? p (map g xs) ≡ map_option g (find? p xs)
find?-map p g h [] = refl
find?-map p g h (x ∷ xs) = elim (Bool-cases (p x)) [
  | inl e ↦ rw (h x, e) refl
  | inr e ↦ rw (h x, e) (find?-map p g h xs)
]

abbrev same_key : PlanKasCycleParams → PayoutCycle → Bool
same_key params c = key_eq c.idempotency_key (window_key kas params.window_start params.window_end)

-- After planning, the window's key leads to the cycle that its id leads to.
key_and_id :
    (params : PlanKasCycleParams) (db : Db) (total recipients : ℕ)
    → IdsGiven db
    → find? (same_key params) db.cycles ≡ none
    → let id = suc db.last_cycle_id in
      let fresh = new_cycle id kas params.window_start params.window_end in
      let cs = set_cycle_totals id total recipients (db.cycles ++ fresh ∷ []) in
      find? (same_key params) cs ≡ find? (λ c. c.cycle_id == id) cs
unfolding set_cycle_totals
key_and_id params db total recipients given missing =
    let id = suc db.last_cycle_id in
    let fresh = new_cycle id kas params.window_start params.window_end in
    let a = find?-append (same_key params) db.cycles (fresh ∷ []) missing in
    let b =
      find?-append (λ c. c.cycle_id == id) db.cycles (fresh ∷ [])
        (fresh-id db.last_cycle_id db.cycles given) in
    find?-map (same_key params) _ (λ c. ground arith) (db.cycles ++ fresh ∷ [])
    ∙ ap (map_option _)
        (a ∙ rw (key_eq_refl params.window_start params.window_end, ==_refl id) refl ∙ sym b)
    ∙ sym (find?-map (λ c. c.cycle_id == id) _ (λ c. ground arith) (db.cycles ++ fresh ∷ []))

abbrev pub with_threshold : ℤ → PlanKasCycleParams → PlanKasCycleParams
with_threshold threshold params = record {
  window_start = params.window_start;
  window_end = params.window_end;
  threshold_sompi = threshold;
}

-- Every later run on a database with those cycles and rows, whatever has been allocated meanwhile
-- and at whatever threshold, finds that state and only adds to the audit log.
abbrev pub Resumes : PlanKasCycleParams → Db → CycleState → Type 0
Resumes params db state =
    (later : Db) (threshold : ℤ)
    → later.cycles ≡ db.cycles
    → later.rows ≡ db.rows
    → resume_or_plan_kas_cycle (with_threshold threshold params) later
      ≡ ok (with_audit (cycle_resume state.cycle.cycle_id) later, state)

resumes :
    (params : PlanKasCycleParams) (db : Db) (cycle : PayoutCycle)
    → find? (same_key params) db.cycles ≡ some cycle
    → Resumes params db (record { cycle = cycle; payouts = list_for_cycle cycle.cycle_id db.rows })
unfolding resume_or_plan_kas_cycle resume_found find_cycle_by_idempotency_key
resumes params db cycle found later threshold e e' =
    let key = window_key kas params.window_start params.window_end in
    let here : find_cycle_by_idempotency_key key later ≡ some cycle =
      ap (find? (same_key params)) e ∙ found in
    ap (resume_found (with_threshold threshold params) later) here
    ∙ (ap
        (λ rows. ok (
          with_audit (cycle_resume cycle.cycle_id) later,
          record { cycle = cycle; payouts = list_for_cycle cycle.cycle_id rows },
        ))
        e')

pub find?-passes {ℓ} :
    {A : Type ℓ} (p : A → Bool) (xs : List A) {a : A} → find? p xs ≡ some a → p a ≡ true
find?-passes p [] h = absurd (ground (arith, h))
find?-passes p (x ∷ xs) {a} h = elim (Bool-cases (p x)) [
  | inl e ↦ subst (λ y. p y ≡ true) (hit (p x) h e) e
  | inr e ↦ find?-passes p xs (miss (p x) h e)
]
  where
    hit : (b : Bool) → (if b then some x else find? p xs) ≡ some a → b ≡ true → x ≡ a
    hit b h e = ground arith

    miss :
        (b : Bool) → (if b then some x else find? p xs) ≡ some a → b ≡ false → find? p xs ≡ some a
    miss b h e = ground arith

pub ok_or-some : {E A : Type 0} (o : Option A) (e : E) {a : A} → ok_or o e ≡ ok a → o ≡ some a
ok_or-some none e h = cc
ok_or-some (some b) e h = ap some (ok_inj h)

-- What planning reads back at its end.
pub finish_plan-read :
    (id : ℕ) (db : Db) (total recipients : ℕ) {r : Db × CycleState}
    → finish_plan id (db, total, recipients) ≡ ok r
    → let cs = set_cycle_totals id total recipients db.cycles in
      (c : PayoutCycle) × (find? (λ c. c.cycle_id == id) cs ≡ some c)
      × (r ≡ (
        with_cycles cs db.last_cycle_id db,
        record { cycle = c; payouts = list_for_cycle id db.rows },
      ))
unfolding finish_plan get_cycle
finish_plan-read id db total recipients h =
    let cs = set_cycle_totals id total recipients db.cycles in
    let (c, e, k) = >>=-eq-ok (get_cycle id (with_cycles cs db.last_cycle_id db)) _ h in
    (c, ok_or-some (find? (λ c. c.cycle_id == id) cs) row_not_found e, sym (ok_inj k))

abbrev fresh_of : PlanKasCycleParams → Db → PayoutCycle
fresh_of params db = new_cycle (suc db.last_cycle_id) kas params.window_start params.window_end

-- The database with the window's new cycle.
abbrev opened : PlanKasCycleParams → Db → Db
opened params db = with_cycles (db.cycles ++ fresh_of params db ∷ []) (suc db.last_cycle_id) db

create_cycle-fresh :
    (params : PlanKasCycleParams) (db : Db) {r : Db × PayoutCycle}
    → find_cycle_by_idempotency_key (window_key kas params.window_start params.window_end) db ≡ none
    → create_cycle kas params.window_start params.window_end db ≡ ok r
    → r ≡ (opened params db, fresh_of params db)
unfolding create_cycle
create_cycle-fresh params db {r} missing h =
    elim (Bool-cases (ltb params.window_start params.window_end)) [
      | inl e ↦
          let q : create_cycle kas params.window_start params.window_end db
              ≡ ok (opened params db, fresh_of params db) =
            rw (e, missing, create_cycle) refl in
          ok_inj (sym h ∙ q)
      | inr e ↦
          let q : create_cycle kas params.window_start params.window_end db ≡ err check_violation =
            rw (e, create_cycle) refl in
          let bad = sym h ∙ q in cc
    ]

-- The key of the window leads to the cycle that was read back.
abbrev Read : PlanKasCycleParams → Db × CycleState → Type 0
Read params r =
    (c : PayoutCycle) × (find? (same_key params) r.0.cycles ≡ some c)
    × (r.1 ≡ record { cycle = c; payouts = list_for_cycle c.cycle_id r.0.rows })

plan-Read :
    (params : PlanKasCycleParams) (db : Db) (ws : List KasEligibleWallet) {r : Db × CycleState}
    → IdsGiven db
    → find? (same_key params) db.cycles ≡ none
    → (plan_rows (suc db.last_cycle_id) ws 0 0 (opened params db)
        >>= finish_plan (suc db.last_cycle_id))
      ≡ ok r
    → Read params r
plan-Read params db ws given missing h =
    let id = suc db.last_cycle_id in
    let (pr, e2, k2) = >>=-eq-ok (plan_rows id ws 0 0 (opened params db)) _ h in
    let (same_cycles, same_last) = plan_rows-cycles id ws 0 0 (opened params db) e2 in
    let (c, e3, k3) = finish_plan-read id pr.0 pr.1 pr.2 k2 in
    let f =
      subst
        (λ cs.
          find? (same_key params) (set_cycle_totals id pr.1 pr.2 cs)
          ≡ find? (λ c. c.cycle_id == id) (set_cycle_totals id pr.1 pr.2 cs))
        (sym same_cycles) (key_and_id params db pr.1 pr.2 given missing) in
    let its_id : c.cycle_id ≡ id =
      let t = find?-passes (λ c. c.cycle_id == id) (set_cycle_totals id pr.1 pr.2 pr.0.cycles) e3 in
      ground arith in
    subst (Read params) (sym k3)
      (c, f ∙ e3, ap (λ i. record { cycle = c; payouts = list_for_cycle i pr.0.rows }) (sym its_id))

resume-missing :
    (params : PlanKasCycleParams) (db : Db)
    → find_cycle_by_idempotency_key (window_key kas params.window_start params.window_end) db ≡ none
    → resume_or_plan_kas_cycle params db
      ≡ (plan_kas_cycle params db >>= λ p. ok (with_audit (cycle_plan p.1.cycle.cycle_id) p.0, p.1))
unfolding resume_or_plan_kas_cycle resume_found
resume-missing params db missing = ap (resume_found params db) missing

-- Once the window's cycle has been planned or found, it stays as it is: a later run on a database
-- with those cycles and rows, whatever has been allocated in the meantime and whatever its threshold
-- is, returns the same cycle with the same recipients and amounts, and changes nothing but the audit
-- log. The cycle ids in use are ones that the sequence has given out.
pub resume_or_plan_kas_cycle-Resumes :
    (params : PlanKasCycleParams) (db : Db) {r : Db × CycleState}
    → IdsGiven db
    → resume_or_plan_kas_cycle params db ≡ ok r
    → Resumes params r.0 r.1
unfolding resume_or_plan_kas_cycle resume_found plan_kas_cycle find_cycle_by_idempotency_key
resume_or_plan_kas_cycle-Resumes params db {r} given h =
    let key = window_key kas params.window_start params.window_end in
    elim (Option-cases (find_cycle_by_idempotency_key key db)) [
      | inl missing ↦
          let q = resume-missing params db missing in
          let (p, e, k) = >>=-eq-ok (plan_kas_cycle params db) _ (sym q ∙ h) in
          let (created, e1, k1) =
            >>=-eq-ok (create_cycle kas params.window_start params.window_end db) _ e in
          let k2 =
            subst
              (λ created.
                (plan_rows created.1.cycle_id
                    (list_kas_eligible_wallets params.threshold_sompi created.0) 0 0 created.0
                  >>= finish_plan created.1.cycle_id)
                ≡ ok p)
              (create_cycle-fresh params db missing e1) k1 in
          let (c, f, same) =
            plan-Read params db
              (list_kas_eligible_wallets params.threshold_sompi (opened params db)) given missing
              k2 in
          subst (λ r. Resumes params r.0 r.1) (ok_inj k)
            (subst (Resumes params p.0) (sym same) (resumes params p.0 c f))
      | inr (c, found) ↦
          let q : resume_or_plan_kas_cycle params db
              ≡ ok (
                with_audit (cycle_resume c.cycle_id) db,
                record { cycle = c; payouts = list_for_cycle c.cycle_id db.rows },
              ) =
            ap (resume_found params db) found in
          subst (λ r. Resumes params r.0 r.1) (ok_inj (sym q ∙ h)) (resumes params db c found)
    ]
