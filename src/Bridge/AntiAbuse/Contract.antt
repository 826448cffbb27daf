-- ===== src/Bridge/AntiAbuse/Contract.antt =====
-- The guard of bridge/src/anti_abuse.rs against its contract: the tickets that are held decide who is
-- admitted.
use katpool.Base.{
  ◌&&◌, ℕ, ◌≤◌, ◌<◌, ◌≡◌, refl, sym, subst, ◌⊎◌, inl, inr, Bool, true, false, ◌==◌, if◌then◌else◌,
  leb, Option, none, some, List, [], ◌∷◌, length, Result, ok, err, Bool-cases, Option-cases, arith,
}
use katpool.Base.Float.{Float}
use katpool.Base.Table.{ℕ_key, lookup, occurs}
use katpool.Bridge.AntiAbuse.{
  AntiAbuseRejection, conn_cap_per_ip, ip_cap_reached, AntiAbuseConfig, new_config, IpState,
  conn_count_of, try_accept_connection, try_consume_frame, release,
}
use katpool.Bridge.AntiAbuse.Tickets.{
  tickets_of, distinct, drop_ticket, tickets_of-drop, distinct-drop-le, drop_ticket-none,
  Represents, add-Represents, count-found, count-missing, release-Represents, frame-Represents,
  empty-Represents,
}

pub data Action : Type 0 where
  connect : ℕ → ℕ → Action
  frame : ℕ → ℕ → Action
  disconnect : ℕ → Action

-- what the guard says: to a connection, with a reason when it is refused, and to a frame
pub data Answer : Type 0 where
  admission : Option AntiAbuseRejection → Answer
  frame_allowed : Bool → Answer
  released : Answer

-- The tickets behind an answer: one more for a connection that is admitted, one less when its holder
-- drops it. Who holds none drops none.
abbrev pub held_after : Action → Answer → List ℕ → List ℕ
held_after (connect ip now) (admission none) held = ip ∷ held
held_after (disconnect ip) answer held = drop_ticket ip held
held_after _ _ held = held

-- an address that holds tickets needs to be below its cap, and a new one finds a place
abbrev pub expected_admission : ℕ → ℕ → ℕ → List ℕ → Option AntiAbuseRejection
expected_admission max_conn_per_ip max_tracked_ips ip held =
    if tickets_of ip held == 0 && leb max_tracked_ips (distinct held)
    then some ip_cap_reached
    else if leb max_conn_per_ip (tickets_of ip held)
    then some (conn_cap_per_ip (tickets_of ip held) max_conn_per_ip)
    else none

module _ (fl : Float) (config : AntiAbuseConfig fl) where
  -- what the contract lets the guard answer, by the tickets that are held
  abbrev pub Allowed : Action → Answer → List ℕ → Type 0
  Allowed (connect ip now) answer held =
      answer ≡ admission (expected_admission config.max_conn_per_ip config.max_tracked_ips ip held)
  Allowed (frame ip now) answer held =
      (allowed : Bool) × (answer ≡ frame_allowed allowed)
      × ((allowed ≡ false) ⊎ (1 ≤ tickets_of ip held))
  Allowed (disconnect ip) answer held = answer ≡ released

  abbrev pub Implements : List Action → List Answer → List ℕ → Type 0
  Implements [] [] held = Unit
  Implements (a ∷ rest) (answer ∷ answers) held =
      Allowed a answer held × Implements rest answers (held_after a answer held)
  Implements _ _ held = ⊥

  abbrev pub admit : IpState fl → Result AntiAbuseRejection (IpState fl) → IpState fl × Answer
  admit state (ok after) = (after, admission none)
  admit state (err reason) = (state, admission (some reason))

  -- one action on the guard; `disconnect` is the drop of a ticket, which needs one
  unfoldable pub act : Action → List ℕ → IpState fl → IpState fl × Answer
  unfolding try_accept_connection try_consume_frame release
  act (connect ip now) held state = admit state (try_accept_connection fl config ip now state)
  act (frame ip now) held state =
      let (after, allowed) = try_consume_frame fl config ip now state in
      (after, frame_allowed allowed)
  act (disconnect ip) held state =
      if tickets_of ip held == 0 then (state, released) else (release fl ip state, released)

  unfoldable pub answers_of : List Action → List ℕ → IpState fl → List Answer
  unfolding act
  answers_of [] held state = []
  answers_of (a ∷ rest) held state =
      let (after, answer) = act a held state in
      answer ∷ answers_of rest (held_after a answer held) after

  accept-Allowed :
      (ip now : ℕ) (state : IpState fl) (held : List ℕ)
      → 1 ≤ config.max_conn_per_ip
      → Represents fl config state held
      → let out = admit state (try_accept_connection fl config ip now state) in
        Allowed (connect ip now) out.1 held
        × Represents fl config out.0 (held_after (connect ip now) out.1 held)
  unfolding try_accept_connection
  accept-Allowed ip now state held positive r = elim (Option-cases (lookup ip state)) [
    | inl missing ↦
        let none_held = count-missing fl config ip state held r missing in
        elim (Bool-cases (leb config.max_tracked_ips (length state))) [
          | inl full ↦
              let full' : leb config.max_tracked_ips (distinct held) ≡ true =
                subst (λ n. leb config.max_tracked_ips n ≡ true) r.size full in
              rw (missing, full, none_held, full') (refl, r)
          | inr room ↦
              let room' : leb config.max_tracked_ips (distinct held) ≡ false =
                subst (λ n. leb config.max_tracked_ips n ≡ false) r.size room in
              let below : leb config.max_conn_per_ip 0 ≡ false = ground arith in
              rw (missing, room, none_held, room', below)
                (refl, add-Represents fl config ip _ state held r (sym none_held))
        ]
    | inr (e, found) ↦
        let (count, some_held) = count-found fl config ip e state held r found in
        let known : (tickets_of ip held == 0) ≡ false = ground arith in
        elim (Bool-cases (leb config.max_conn_per_ip (tickets_of ip held))) [
          | inl full ↦ rw (found, count, full, known) (refl, r)
          | inr room ↦
              rw (found, count, room, known) (refl, add-Represents fl config ip _ state held r refl)
        ]
  ]

  untracked-frame :
      (ip now : ℕ) (state : IpState fl) (held : List ℕ)
      → Represents fl config state held
      → ((try_consume_frame fl config ip now state).1 ≡ false) ⊎ (1 ≤ tickets_of ip held)
  unfolding try_consume_frame
  untracked-frame ip now state held r = elim (Option-cases (lookup ip state)) [
    | inl missing ↦ inl (rw missing refl)
    | inr (e, found) ↦ inr (count-found fl config ip e state held r found).1
  ]

  act-Allowed :
      (a : Action) (held : List ℕ) (state : IpState fl)
      → 1 ≤ config.max_conn_per_ip
      → Represents fl config state held
      → let out = act a held state in
        Allowed a out.1 held × Represents fl config out.0 (held_after a out.1 held)
  unfolding act
  act-Allowed (connect ip now) held state positive r = accept-Allowed ip now state held positive r
  act-Allowed (frame ip now) held state positive r = (
    (_, refl, untracked-frame ip now state held r),
    frame-Represents fl config ip now state held r,
  )
  act-Allowed (disconnect ip) held state positive r = elim (Bool-cases (tickets_of ip held == 0)) [
    | inl gone ↦ rw (gone, drop_ticket-none ip held (ground arith)) (refl, r)
    | inr some_held ↦
        rw some_held (refl, release-Represents fl config ip state held r (ground arith))
  ]

  run-Implements :
      (actions : List Action) (held : List ℕ) (state : IpState fl)
      → 1 ≤ config.max_conn_per_ip
      → Represents fl config state held
      → Implements actions (answers_of actions held state) held
  unfolding answers_of
  run-Implements [] held state positive r = tt
  run-Implements (a ∷ rest) held state positive r =
      let (allowed, r') = act-Allowed a held state positive r in
      (allowed, run-Implements rest _ _ positive r')

  -- the state and the tickets behind a sequence of actions
  unfoldable pub reached : List Action → IpState fl × List ℕ → IpState fl × List ℕ
  unfolding act
  reached [] (state, held) = (state, held)
  reached (a ∷ rest) (state, held) =
      let (after, answer) = act a held state in reached rest (after, held_after a answer held)

  -- no address holds more tickets than its cap, and no more addresses hold one than may be tracked
  pub record Within (held : List ℕ) : Type 0 where
    pub per_ip : (ip : ℕ) → tickets_of ip held ≤ config.max_conn_per_ip
    pub tracked : distinct held ≤ config.max_tracked_ips

  admitted_below :
      (ip : ℕ) (held : List ℕ)
      → ◌≡◌ {A = Answer}
          (admission none)
          (admission (expected_admission config.max_conn_per_ip config.max_tracked_ips ip held))
      → (tickets_of ip held < config.max_conn_per_ip)
        × (tickets_of ip held ≡ 0 → distinct held < config.max_tracked_ips)
  admitted_below ip held h = ground arith

  held_after-Within :
      (a : Action) (answer : Answer) (held : List ℕ)
      → Allowed a answer held
      → Within held
      → Within (held_after a answer held)
  held_after-Within (frame ip now) answer held allowed w = w
  held_after-Within (disconnect ip) answer held allowed w = record {
    per_ip = λ j. rw (tickets_of-drop ip j held) (ground (arith, w.per_ip j));
    tracked = ground (arith, w.tracked, distinct-drop-le ip held);
  }
  held_after-Within (connect ip now) (admission none) held allowed w = record {
    per_ip = λ j. ground (arith, w.per_ip j, admitted_below ip held allowed);
    tracked = ground (arith, w.tracked, admitted_below ip held allowed);
  }
  held_after-Within (connect ip now) (admission (some reason)) held allowed w = w
  held_after-Within (connect ip now) (frame_allowed b) held allowed w = w
  held_after-Within (connect ip now) released held allowed w = w

  reached-Within :
      (actions : List Action) (held : List ℕ) (state : IpState fl)
      → 1 ≤ config.max_conn_per_ip
      → Represents fl config state held
      → Within held
      → let end = reached actions (state, held) in Represents fl config end.0 end.1 × Within end.1
  unfolding reached
  reached-Within [] held state positive r w = (r, w)
  reached-Within (a ∷ rest) held state positive r w =
      let (allowed, r') = act-Allowed a held state positive r in
      reached-Within rest _ _ positive r' (held_after-Within a _ held allowed w)

new_config-cap :
    (fl : Float) (cap tracked : ℕ) (rate burst : fl.F) (config : AntiAbuseConfig fl)
    → new_config fl cap tracked rate burst ≡ ok config
    → 1 ≤ config.max_conn_per_ip
unfolding new_config
new_config-cap fl cap tracked rate burst config h = ground arith

-- Whatever comes, the guard answers as the tickets that are held decide: a connection is admitted exactly
-- when its address holds fewer than the cap and, if it holds none, fewer addresses hold one than may be
-- tracked, with the reason of the refusal otherwise; a frame from an address without a ticket is refused.
-- It holds for a configuration that `new` accepted, from an empty guard, over any sequence of
-- connections, frames and disconnections.
pub answers_of-Implements :
    (fl : Float) (cap tracked : ℕ) (rate burst : fl.F) (config : AntiAbuseConfig fl)
    (actions : List Action)
    → new_config fl cap tracked rate burst ≡ ok config
    → Implements fl config actions (answers_of fl config actions [] []) []
answers_of-Implements fl cap tracked rate burst config actions h =
    run-Implements fl config actions [] [] (new_config-cap fl cap tracked rate burst config h)
      (empty-Represents fl config)

-- The guard's memory is bounded and its counters are exact. Behind any sequence of connections, frames and
-- disconnections from an empty guard, under a configuration that `new` accepted: the map has an entry for
-- just the addresses that hold a ticket, one for each and no more than may be tracked, its counters are the
-- numbers of tickets held, and none is above the cap.
pub reached-IsBounded :
    (fl : Float) (cap tracked : ℕ) (rate burst : fl.F) (config : AntiAbuseConfig fl)
    (actions : List Action)
    → new_config fl cap tracked rate burst ≡ ok config
    → let end = reached fl config actions ([], []) in
      (length end.0 ≡ distinct end.1)
      × (length end.0 ≤ config.max_tracked_ips)
      × ((ip : ℕ)
          → (conn_count_of fl ip end.0 ≡ tickets_of ip end.1)
            × (conn_count_of fl ip end.0 ≤ config.max_conn_per_ip)
            × (occurs ip end.0 ≡ (if tickets_of ip end.1 == 0 then 0 else 1)))
reached-IsBounded fl cap tracked rate burst config actions h =
    let (r, w) =
      reached-Within fl config actions [] [] (new_config-cap fl cap tracked rate burst config h)
        (empty-Represents fl config)
        (record { per_ip = λ ip. omega arith; tracked = omega arith }) in
    (
      r.size,
      ground (arith, r.size, w.tracked),
      λ ip. (
        r.counts ip,
        subst (λ n. n ≤ config.max_conn_per_ip) (sym (r.counts ip)) (w.per_ip ip),
        r.once ip,
      ),
    )
