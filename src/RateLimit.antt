-- ===== src/RateLimit.antt =====
-- ratelimit.go: the sliding-window limiter. The clock reading that the Go method takes itself is an
-- argument here. Times and windows are nanoseconds since an origin before every reading, so
-- `ts.After(now.Add(-window))` is written `now < ts + window`.
pub mod Calls
pub mod Window
pub mod Retry
pub mod Sweeping
use npvtunnel_creator_server.Base.{
  ℕ, ◌+◌, ◌-◌, Text, Bool, true, false, not, List, [], ◌∷◌, ◌++◌, Option, none, some, if◌then◌else◌,
  ltb, leb, length, keep, any, lookup, insert, retain, size, ℤ, is_pos, pos_part,
}

-- `time.Second`, in nanoseconds.
abbrev pub second : ℕ
second = 1_000_000_000

-- The `entries` map: the times of the recent events of each key.
pub record RateLimiter : Type 0 where
  pub entries : List (Text × List ℕ)

pub record Decision : Type 0 where
  pub allowed : Bool
  pub retry_after : ℕ

abbrev pub new_rate_limiter : RateLimiter
new_rate_limiter = record { entries = [] }

-- `ts.After(cutoff)`
abbrev pub is_recent : ℕ → ℕ → ℕ → Bool
is_recent window now ts = ltb now (ts + window)

abbrev pub bucket_or_fresh : Option (List ℕ) → List ℕ
bucket_or_fresh none = []
bucket_or_fresh (some bucket) = bucket

abbrev pub bucket_of : RateLimiter → Text → List ℕ
bucket_of r key = bucket_or_fresh (lookup key r.entries)

-- `(*bucket)[0]`; the bucket is not empty where this is read.
abbrev pub oldest : List ℕ → ℕ
oldest [] = 0
oldest (ts ∷ _) = ts

abbrev granted : Decision
granted = record { allowed = true; retry_after = 0 }

abbrev denied : ℕ → ℕ → List ℕ → Decision
denied window now trimmed =
    let wait = oldest trimmed + window - now in
    record { allowed = false; retry_after = if ltb wait second then second else wait }

abbrev put : RateLimiter → Text → List ℕ → RateLimiter
put r key bucket = record { entries = insert key bucket r.entries }

-- `Allow`, behind the test of the limit: the trimmed bucket decides.
unfoldable pub decide : RateLimiter → Text → ℕ → ℕ → ℕ → List ℕ → RateLimiter × Decision
decide r key limit window now trimmed =
    if leb limit (length trimmed)
    then (put r key trimmed, denied window now trimmed)
    else (put r key (trimmed ++ now ∷ []), granted)

unfoldable pub allow : Text → ℤ → ℕ → ℕ → RateLimiter → RateLimiter × Decision
allow key limit window now r =
    if not (is_pos limit)
    then (r, granted)
    else decide r key (pos_part limit) window now (keep (is_recent window now) (bucket_of r key))

unfoldable pub sweep : ℕ → ℕ → RateLimiter → RateLimiter
sweep window now r = record { entries = retain (any (is_recent window now)) r.entries }

unfoldable pub tracked_keys : RateLimiter → ℕ
tracked_keys r = size r.entries

-- What happens to a limiter over time: `Allow` for a key, or the periodic `Sweep`.
pub data Event : Type 0 where
  allows : Text → ℕ → Event
  sweeps : ℕ → ℕ → Event

abbrev pub event_time : Event → ℕ
event_time (allows key now) = now
event_time (sweeps window now) = now

unfoldable pub step : ℤ → ℕ → RateLimiter → Event → RateLimiter
step limit window r (allows key now) = (allow key limit window now r).0
step limit window r (sweeps w now) = sweep w now r

-- The events of one configuration of limit and window, in order.
unfoldable pub run : ℤ → ℕ → RateLimiter → List Event → RateLimiter
run limit window r [] = r
run limit window r (e ∷ es) = run limit window (step limit window r e) es

-- The time of the last event of a history that starts at `now`.
abbrev pub last_time : ℕ → List Event → ℕ
last_time now [] = now
last_time now (e ∷ es) = last_time (event_time e) es
