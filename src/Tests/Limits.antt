-- ===== src/Tests/Limits.antt =====
-- The limiter of ratelimit.go on small histories.
use npvtunnel_creator_server.Base.{
  ℕ, ◌*◌, ◌≤◌, ◌≡◌, refl, Text, text, List, [], ◌∷◌, pos, length, keep, arith, true, false, str_eq,
  Distinct, insert, lookup, retain,
}
use npvtunnel_creator_server.RateLimit.{
  RateLimiter, Event, allows, sweeps, allow, decide, sweep, step, run, new_rate_limiter, bucket_of,
  tracked_keys, second,
}
use npvtunnel_creator_server.RateLimit.Window.{grants, in_window, allow-window_bound}
use npvtunnel_creator_server.RateLimit.Retry.{allow-retry_after_enough, allow-retry_after_needed}
use npvtunnel_creator_server.RateLimit.Sweeping.{allow-sweep}

abbrev alice : Text
alice = text "alice"

abbrev bob : Text
bob = text "bob"

-- Times in seconds; the window is 100 s and the limit 2.
abbrev window : ℕ
window = 100 * second

abbrev busy : List Event
busy =
    allows alice (1_000 * second)
    ∷ allows bob (1_010 * second)
    ∷ allows alice (1_020 * second)
    ∷ allows alice (1_030 * second)
    ∷ sweeps window (1_040 * second)
    ∷ []

-- The third call of alice is denied, and her bucket holds two events.
busy_buckets :
    bucket_of (run (pos 2) window new_rate_limiter busy) alice
    ≡ 1_000 * second ∷ 1_020 * second ∷ []
unfolding run step allow decide sweep lookup insert retain str_eq
busy_buckets = refl

allow-window_bound_example :
    length
      (keep (in_window window (1_050 * second)) (grants alice (pos 2) window new_rate_limiter busy))
    ≤ 2
allow-window_bound_example =
    allow-window_bound alice (pos 2) window busy (1_050 * second) refl (omega arith)

-- Alice has used up her two events; the oldest ages out at 1100.
abbrev two_events : List Event
two_events =
    allows alice (1_000 * second) ∷ allows bob (1_010 * second) ∷ allows alice (1_020 * second) ∷ []

abbrev used_up : RateLimiter
used_up = run (pos 2) window new_rate_limiter two_events

alice_denied : (allow alice (pos 2) window (1_030 * second) used_up).1.allowed ≡ false
unfolding run step allow decide lookup insert str_eq
alice_denied = refl

alice_waits : (allow alice (pos 2) window (1_030 * second) used_up).1.retry_after ≡ 70 * second
unfolding run step allow decide lookup insert str_eq
alice_waits = refl

allow-retry_after_enough_example :
    (second ≤ (allow alice (pos 2) window (1_030 * second) used_up).1.retry_after)
    × ((allow alice
          (pos 2)
          window
          (1_100 * second)
          (allow alice (pos 2) window (1_030 * second) used_up).0).1.allowed
        ≡ true)
allow-retry_after_enough_example =
    allow-retry_after_enough alice (pos 2) window two_events (1_030 * second) refl (omega arith)
      (omega arith) (1_100 * second) alice_denied (omega (arith, alice_waits))

too_early :
    (allow alice
      (pos 2)
      window
      (1_099 * second)
      (allow alice (pos 2) window (1_030 * second) used_up).0).1.allowed
    ≡ false
too_early =
    allow-retry_after_needed alice (pos 2) window two_events (1_030 * second) refl (omega arith)
      (omega arith) (1_099 * second) alice_denied (omega (arith, alice_waits))
      (omega (arith, alice_waits))

used_up-Distinct : Distinct used_up.entries
unfolding run step allow decide lookup insert str_eq
used_up-Distinct = (refl, (refl, tt))

allow-sweep_example :
    ((allow alice (pos 2) window (1_050 * second) (sweep window (1_040 * second) used_up)).1
      ≡ (allow alice (pos 2) window (1_050 * second) used_up).1)
    × (bucket_of
          (allow alice (pos 2) window (1_050 * second) (sweep window (1_040 * second) used_up)).0
          alice
        ≡ bucket_of (allow alice (pos 2) window (1_050 * second) used_up).0 alice)
    × (tracked_keys (sweep window (1_040 * second) used_up) ≤ tracked_keys used_up)
allow-sweep_example =
    allow-sweep window (1_040 * second) used_up used_up-Distinct alice (pos 2) window
      (1_050 * second) (omega arith) (omega arith) refl
