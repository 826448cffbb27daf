-- ===== src/Tests/Admissions.antt =====
-- Connections admitted and refused, and the theorems at them.
use katpool.Base.{
  ℕ, ◌≤◌, ◌≡◌, refl, true, false, if◌then◌else◌, ◌==◌, none, some, List, [], ◌∷◌, length, ok,
}
use katpool.Base.Table.{ℕ_key, lookup, insert, remove, occurs}
use katpool.Bridge.AntiAbuse.{
  AntiAbuseConfig, new_config, conn_count_of, ip_cap_reached, conn_cap_per_ip,
  try_accept_connection, try_consume_frame, try_consume, release,
}
use katpool.Bridge.AntiAbuse.Tickets.{tickets_of, distinct}
use katpool.Bridge.AntiAbuse.Contract.{
  Action, connect, frame, disconnect, Answer, admission, frame_allowed, released, Implements,
  answers_of, act, reached, answers_of-Implements, reached-IsBounded,
}
use katpool.Tests.FixedPoint.{fixed_point}

abbrev config : AntiAbuseConfig fixed_point
config = record {
  max_conn_per_ip = 1;
  max_tracked_ips = 2;
  frame_rate_per_sec = 1_000_000;
  frame_burst = 1_000_000;
}

abbrev actions : List Action
actions =
    connect 5 0
    ∷ connect 5 1
    ∷ connect 6 2
    ∷ connect 7 3
    ∷ frame 5 4
    ∷ frame 5 5
    ∷ disconnect 5
    ∷ frame 5 6
    ∷ connect 7 7
    ∷ []

config_accepted : new_config fixed_point 1 2 1_000_000 1_000_000 ≡ ok config
unfolding new_config
config_accepted = refl

abbrev answers : List Answer
answers =
    admission none
    ∷ admission (some (conn_cap_per_ip 1 1))
    ∷ admission none
    ∷ admission (some ip_cap_reached)
    ∷ frame_allowed true
    ∷ frame_allowed false
    ∷ released
    ∷ frame_allowed false
    ∷ admission none
    ∷ []

answers_run : answers_of fixed_point config actions [] [] ≡ answers
unfolding answers_of act try_accept_connection try_consume_frame try_consume release lookup insert
    remove
answers_run = refl

answers_of-Implements_example :
    Implements fixed_point config actions (answers_of fixed_point config actions [] []) []
answers_of-Implements_example =
    answers_of-Implements fixed_point 1 2 1_000_000 1_000_000 config actions config_accepted

reached-IsBounded_example :
    (length (reached fixed_point config actions ([], [])).0
      ≡ distinct (reached fixed_point config actions ([], [])).1)
    × (length (reached fixed_point config actions ([], [])).0 ≤ 2)
    × ((ip : ℕ)
        → (conn_count_of fixed_point ip (reached fixed_point config actions ([], [])).0
            ≡ tickets_of ip (reached fixed_point config actions ([], [])).1)
          × (conn_count_of fixed_point ip (reached fixed_point config actions ([], [])).0 ≤ 1)
          × (occurs ip (reached fixed_point config actions ([], [])).0 ≡ (
              if tickets_of ip (reached fixed_point config actions ([], [])).1 == 0 then 0 else 1)))
reached-IsBounded_example =
    reached-IsBounded fixed_point 1 2 1_000_000 1_000_000 config actions config_accepted
