-- ===== src/Bridge/AntiAbuse.antt =====
-- The admission of connections and frames by source address: bridge/src/anti_abuse.rs. An address and an
-- `Instant`, in nanoseconds, are numbers; a ticket that is dropped is a call of `release`. The counter of
-- an address is below its cap, which is a u32, so that the increment cannot overflow. `parse` is Rust's,
-- for each of the three number types.
pub mod Tickets
pub mod Contract
use katpool.Base.{
  ℕ, ◌+◌, ◌-◌, ◌==◌, Bool, true, false, not, ◌&&◌, ◌||◌, if◌then◌else◌, leb, Option, none, some,
  List, [], ◌∷◌, length, Result, ok, err, ◌>>=◌, ◌>>◌, ok_or, guard,
}
use katpool.Base.Float.{Float}
use katpool.Base.Table.{ℕ_key, lookup, insert, remove}

pub data AntiAbuseConfigError : Type 0 where
  zero_conn_cap zero_ip_cap invalid_frame_rate invalid_frame_burst invalid_env_value :
      AntiAbuseConfigError

pub data AntiAbuseRejection : Type 0 where
  conn_cap_per_ip : ℕ → ℕ → AntiAbuseRejection
  ip_cap_reached : AntiAbuseRejection

-- the variables of the environment that are read
pub data EnvKey : Type 0 where
  max_conn_per_ip_key max_tracked_ips_key frame_rate_per_sec_key frame_burst_key : EnvKey

module _ (fl : Float) where
  open fl use {F, zero_f, of_nat, as_secs_f64, add_f, sub_f, mul_f, min_f, le_f, is_finite}

  pub record AntiAbuseConfig : Type 0 where
    pub max_conn_per_ip : ℕ
    pub max_tracked_ips : ℕ
    pub frame_rate_per_sec : F
    pub frame_burst : F

  abbrev pub production : AntiAbuseConfig
  production = record {
    max_conn_per_ip = 256;
    max_tracked_ips = 65_536;
    frame_rate_per_sec = of_nat 100;
    frame_burst = of_nat 200;
  }

  -- `AntiAbuseConfig::new`
  unfoldable pub new_config : ℕ → ℕ → F → F → Result AntiAbuseConfigError AntiAbuseConfig
  new_config max_conn_per_ip max_tracked_ips frame_rate_per_sec frame_burst = do
    guard (not (max_conn_per_ip == 0)) zero_conn_cap
    guard (not (max_tracked_ips == 0)) zero_ip_cap
    guard (not (not (is_finite frame_rate_per_sec) || le_f frame_rate_per_sec zero_f))
        invalid_frame_rate
    guard (not (not (is_finite frame_burst) || le_f frame_burst zero_f)) invalid_frame_burst
    ok (record {
      max_conn_per_ip = max_conn_per_ip;
      max_tracked_ips = max_tracked_ips;
      frame_rate_per_sec = frame_rate_per_sec;
      frame_burst = frame_burst;
    })

  -- `parse_env_u32`, `parse_env_usize` and `parse_env_f64`
  abbrev pub parse_env :
      {Text A : Type 0} → (Text → Option A) → A → Option Text → Result AntiAbuseConfigError A
  parse_env parse default none = ok default
  parse_env parse default (some raw) = ok_or (parse raw) invalid_env_value

  unfoldable pub config_from_lookup :
      {Text : Type 0}
      → (Text → Option ℕ)
      → (Text → Option ℕ)
      → (Text → Option F)
      → (EnvKey → Option Text)
      → Result AntiAbuseConfigError AntiAbuseConfig
  unfolding new_config
  config_from_lookup parse_u32 parse_usize parse_f64 env = do
    max_conn_per_ip ← parse_env parse_u32 production.max_conn_per_ip (env max_conn_per_ip_key)
    max_tracked_ips ← parse_env parse_usize production.max_tracked_ips (env max_tracked_ips_key)
    frame_rate_per_sec ←
        parse_env parse_f64 production.frame_rate_per_sec (env frame_rate_per_sec_key)
    frame_burst ← parse_env parse_f64 production.frame_burst (env frame_burst_key)
    new_config max_conn_per_ip max_tracked_ips frame_rate_per_sec frame_burst

  pub record IpEntry : Type 0 where
    pub conn_count : ℕ
    pub tokens : F
    pub last_refill : ℕ

  abbrev pub new_entry : F → ℕ → IpEntry
  new_entry burst now = record { conn_count = 0; tokens = burst; last_refill = now }

  -- the map behind the lock
  abbrev pub IpState : Type 0
  IpState = List (ℕ × IpEntry)

  abbrev pub refilled : ℕ → F → F → IpEntry → F
  refilled now rate burst e =
      min_f (add_f e.tokens (mul_f (as_secs_f64 (now - e.last_refill)) rate)) burst

  unfoldable pub try_consume : ℕ → F → F → IpEntry → IpEntry × Bool
  try_consume now rate burst e =
      let tokens = refilled now rate burst e in
      if le_f (of_nat 1) tokens
      then (
        record { conn_count = e.conn_count; tokens = sub_f tokens (of_nat 1); last_refill = now },
        true,
      )
      else (record { conn_count = e.conn_count; tokens = tokens; last_refill = now }, false)

  abbrev pub count_of : Option IpEntry → ℕ
  count_of none = 0
  count_of (some e) = e.conn_count

  -- `conn_count`
  unfoldable pub conn_count_of : ℕ → IpState → ℕ
  conn_count_of ip state = count_of (lookup ip state)

  abbrev pub accept_entry :
      AntiAbuseConfig → ℕ → IpEntry → IpState → Result AntiAbuseRejection IpState
  accept_entry config ip e state =
      if leb config.max_conn_per_ip e.conn_count
      then err (conn_cap_per_ip e.conn_count config.max_conn_per_ip)
      else ok (insert ip (record e { conn_count = e.conn_count + 1 }) state)

  -- Only a cap of 0, which `new` refuses, would leave an entry behind a refusal.
  abbrev pub accept_known :
      AntiAbuseConfig → ℕ → ℕ → Option IpEntry → IpState → Result AntiAbuseRejection IpState
  accept_known config ip now (some e) state = accept_entry config ip e state
  accept_known config ip now none state =
      if leb config.max_tracked_ips (length state)
      then err ip_cap_reached
      else accept_entry config ip (new_entry config.frame_burst now) state

  unfoldable pub try_accept_connection :
      AntiAbuseConfig → ℕ → ℕ → IpState → Result AntiAbuseRejection IpState
  try_accept_connection config ip now state = accept_known config ip now (lookup ip state) state

  abbrev pub consume_known : AntiAbuseConfig → ℕ → ℕ → Option IpEntry → IpState → IpState × Bool
  consume_known config ip now none state = (state, false)
  consume_known config ip now (some e) state =
      let (after, allowed) = try_consume now config.frame_rate_per_sec config.frame_burst e in
      (insert ip after state, allowed)

  unfoldable pub try_consume_frame : AntiAbuseConfig → ℕ → ℕ → IpState → IpState × Bool
  unfolding try_consume
  try_consume_frame config ip now state = consume_known config ip now (lookup ip state) state

  abbrev pub release_known : ℕ → Option IpEntry → IpState → IpState
  release_known ip none state = state
  release_known ip (some e) state =
      if e.conn_count - 1 == 0
      then remove ip state
      else insert ip (record e { conn_count = e.conn_count - 1 }) state

  unfoldable pub release : ℕ → IpState → IpState
  release ip state = release_known ip (lookup ip state) state
