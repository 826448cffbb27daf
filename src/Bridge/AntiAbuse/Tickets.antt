-- ===== src/Bridge/AntiAbuse/Tickets.antt =====
-- The tickets that connections hold, and that the map of bridge/src/anti_abuse.rs stands for them.
use katpool.Base.{
  ℕ, ◌+◌, ◌-◌, ◌≤◌, ◌≡◌, refl, sym, ◌∙◌, ap, inl, inr, false, ◌==◌, ==_iff, ==_refl, if◌then◌else◌,
  none, some, List, [], ◌∷◌, length, Bool-cases, Option-cases, arith,
}
use katpool.Base.Float.{Float}
use katpool.Base.Table.{
  ℕ_key, lookup, insert, remove, lookup-insert, lookup-remove, occurs, occurs-insert, occurs-remove,
  length-insert, length-remove, occurs-none, occurs-some,
}
use katpool.Bridge.AntiAbuse.{
  AntiAbuseConfig, IpEntry, IpState, try_consume, count_of, conn_count_of, try_consume_frame,
  release,
}

-- how many of the tickets are an address's
abbrev pub tickets_of : ℕ → List ℕ → ℕ
tickets_of ip [] = 0
tickets_of ip (t ∷ ts) = if t == ip then 1 + tickets_of ip ts else tickets_of ip ts

-- how many addresses hold a ticket
abbrev pub distinct : List ℕ → ℕ
distinct [] = 0
distinct (t ∷ ts) = if tickets_of t ts == 0 then 1 + distinct ts else distinct ts

abbrev pub drop_ticket : ℕ → List ℕ → List ℕ
drop_ticket ip [] = []
drop_ticket ip (t ∷ ts) = if t == ip then ts else t ∷ drop_ticket ip ts

pub tickets_of-drop :
    (ip j : ℕ) (ts : List ℕ)
    → tickets_of j (drop_ticket ip ts) ≡ (if ip == j then tickets_of j ts - 1 else tickets_of j ts)
tickets_of-drop ip j [] = ground arith
tickets_of-drop ip j (t ∷ ts) = ground (arith, tickets_of-drop ip j ts)

distinct-drop :
    (ip : ℕ) (ts : List ℕ)
    → 1 ≤ tickets_of ip ts
    → distinct (drop_ticket ip ts) + (if tickets_of ip ts == 1 then 1 else 0) ≡ distinct ts
distinct-drop ip [] h = ground arith
distinct-drop ip (t ∷ ts) h = ground (arith, distinct-drop ip ts, tickets_of-drop ip t ts)

pub distinct-drop-le : (ip : ℕ) (ts : List ℕ) → distinct (drop_ticket ip ts) ≤ distinct ts
distinct-drop-le ip [] = ground arith
distinct-drop-le ip (t ∷ ts) = ground (arith, distinct-drop-le ip ts, tickets_of-drop ip t ts)

pub drop_ticket-none :
    (ip : ℕ) (held : List ℕ) → tickets_of ip held ≡ 0 → drop_ticket ip held ≡ held
drop_ticket-none ip [] h = refl
drop_ticket-none ip (t ∷ ts) h = ground (arith, drop_ticket-none ip ts)

module _ (fl : Float) (config : AntiAbuseConfig fl) where
  -- The state stands for the tickets: it has an entry for just the addresses that hold one, with their
  -- number.
  pub record Represents (state : IpState fl) (held : List ℕ) : Type 0 where
    pub counts : (ip : ℕ) → conn_count_of fl ip state ≡ tickets_of ip held
    pub once : (ip : ℕ) → occurs ip state ≡ (if tickets_of ip held == 0 then 0 else 1)
    pub size : length state ≡ distinct held

  pub insert-Represents :
      (ip : ℕ) (e : IpEntry fl) (state : IpState fl) (held held' : List ℕ)
      → Represents state held
      → e.conn_count ≡ tickets_of ip held'
      → 1 ≤ tickets_of ip held'
      → ((j : ℕ) → (ip == j) ≡ false → tickets_of j held' ≡ tickets_of j held)
      → distinct held' ≡ (if tickets_of ip held == 0 then 1 + distinct held else distinct held)
      → Represents (insert ip e state) held'
  unfolding conn_count_of
  insert-Represents ip e state held held' r count positive others size' = record {
    counts = λ j. elim (Bool-cases (ip == j)) [
      | inl q ↦
          rw (lookup-insert ip j e state, q)
            (count ∙ ap (λ k. tickets_of k held') ((==_iff ip j).0 q))
      | inr q ↦ rw (lookup-insert ip j e state, q) (r.counts j ∙ sym (others j q))
    ];
    once = λ j. elim (Bool-cases (ip == j)) [
      | inl q ↦
          let same : ip ≡ j = (==_iff ip j).0 q in
          ground (arith, occurs-insert ip j e state, r.once j, positive, same)
      | inr q ↦ rw (occurs-insert ip j e state, q, others j q) (r.once j)
    ];
    size = rw (length-insert ip e state) (ground (arith, r.once ip, r.size, size'));
  }

  remove-Represents :
      (ip : ℕ) (state : IpState fl) (held : List ℕ)
      → Represents state held
      → tickets_of ip held ≡ 1
      → Represents (remove ip state) (drop_ticket ip held)
  unfolding conn_count_of
  remove-Represents ip state held r last = record {
    counts = λ j. elim (Bool-cases (ip == j)) [
      | inl q ↦
          let same : ip ≡ j = (==_iff ip j).0 q in
          rw (lookup-remove ip j state, tickets_of-drop ip j held, q) (ground (arith, last, same))
      | inr q ↦ rw (lookup-remove ip j state, tickets_of-drop ip j held, q) (r.counts j)
    ];
    once = λ j.
        rw (occurs-remove ip j state, tickets_of-drop ip j held)
          (ground (arith, r.once j, last, ==_iff ip j));
    size = ground (arith, length-remove ip state, distinct-drop ip held, r.once ip, r.size, last);
  }

  decrement-Represents :
      (ip : ℕ) (e : IpEntry fl) (state : IpState fl) (held : List ℕ)
      → Represents state held
      → e.conn_count + 1 ≡ tickets_of ip held
      → 1 ≤ e.conn_count
      → Represents (insert ip e state) (drop_ticket ip held)
  decrement-Represents ip e state held r count positive =
      insert-Represents ip e state held (drop_ticket ip held) r
        (rw (tickets_of-drop ip ip held, ==_refl ip) (omega arith))
        (rw (tickets_of-drop ip ip held, ==_refl ip) (omega arith))
        (λ j q. rw (tickets_of-drop ip j held, q) refl)
        (ground (arith, distinct-drop ip held, count, positive))

  pub count-found :
      (ip : ℕ) (e : IpEntry fl) (state : IpState fl) (held : List ℕ)
      → Represents state held
      → lookup ip state ≡ some e
      → (e.conn_count ≡ tickets_of ip held) × (1 ≤ tickets_of ip held)
  unfolding conn_count_of
  count-found ip e state held r found =
      let at : count_of fl (lookup ip state) ≡ tickets_of ip held = r.counts ip in
      (sym (ap (count_of fl) found) ∙ at, ground (arith, r.once ip, occurs-some ip e state found))

  pub count-missing :
      (ip : ℕ) (state : IpState fl) (held : List ℕ)
      → Represents state held
      → lookup ip state ≡ none
      → tickets_of ip held ≡ 0
  count-missing ip state held r missing = ground (arith, r.once ip, occurs-none ip state missing)

  pub release-Represents :
      (ip : ℕ) (state : IpState fl) (held : List ℕ)
      → Represents state held
      → 1 ≤ tickets_of ip held
      → Represents (release fl ip state) (drop_ticket ip held)
  unfolding release
  release-Represents ip state held r positive = elim (Option-cases (lookup ip state)) [
    | inl missing ↦ absurd (omega (arith, count-missing ip state held r missing))
    | inr (e, found) ↦
        let (count, some_held) = count-found ip e state held r found in
        elim (Bool-cases (e.conn_count - 1 == 0)) [
          | inl last ↦ rw (found, last) (remove-Represents ip state held r (ground arith))
          | inr more ↦
              rw (found, more)
                (decrement-Represents ip _ state held r (ground arith) (ground arith))
        ]
  ]

  try_consume-count :
      (now : ℕ) (e : IpEntry fl)
      → (try_consume fl now config.frame_rate_per_sec config.frame_burst e).0.conn_count
        ≡ e.conn_count
  unfolding try_consume
  try_consume-count now e = ground arith

  pub frame-Represents :
      (ip now : ℕ) (state : IpState fl) (held : List ℕ)
      → Represents state held
      → Represents (try_consume_frame fl config ip now state).0 held
  unfolding try_consume_frame
  frame-Represents ip now state held r = elim (Option-cases (lookup ip state)) [
    | inl missing ↦ rw missing r
    | inr (e, found) ↦
        let (count, some_held) = count-found ip e state held r found in
        rw found (
          insert-Represents ip _ state held held r (try_consume-count now e ∙ count) some_held
            (λ j q. refl) (ground arith))
  ]

  pub add-Represents :
      (ip : ℕ) (e : IpEntry fl) (state : IpState fl) (held : List ℕ)
      → Represents state held
      → e.conn_count ≡ tickets_of ip held
      → Represents (insert ip (record e { conn_count = e.conn_count + 1 }) state) (ip ∷ held)
  add-Represents ip e state held r count =
      insert-Represents ip _ state held (ip ∷ held) r (rw (==_refl ip) (omega arith))
        (rw (==_refl ip) (omega arith)) (λ j q. rw q refl) refl

  pub empty-Represents : Represents [] []
  unfolding conn_count_of lookup
  empty-Represents = record { counts = λ ip. refl; once = λ ip. refl; size = refl }
