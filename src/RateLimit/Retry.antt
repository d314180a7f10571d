-- ===== src/RateLimit/Retry.antt =====
-- `RetryAfter` of a denied call of `Allow` in ratelimit.go.
use npvtunnel_creator_server.Base.{
  ℕ, ◌+◌, ◌-◌, ◌<◌, ◌≤◌, ◌≡◌, ◌⊎◌, refl, Text, Bool, true, false, List, [], ◌∷◌, ◌++◌, ltb, lt→ltb,
  length, keep, lookup, ℤ, is_pos, pos_part, arith, length-append, length-keep-le, inl, inr,
}
use npvtunnel_creator_server.RateLimit.Calls.{InOrder, allow_own, run_bucket, trimmed}
use npvtunnel_creator_server.RateLimit.{
  RateLimiter, Event, last_time, allow, decide, run, is_recent, second, bucket_of, new_rate_limiter,
  oldest,
}

-- The times of a bucket, none above `hi`, the oldest first.
abbrev Climbs : ℕ → ℕ → List ℕ → Type 0
Climbs lo hi [] = lo ≤ hi
Climbs lo hi (x ∷ xs) = (lo ≤ x) × Climbs x hi xs

Climbs-wait : (lo hi hi' : ℕ) (xs : List ℕ) → hi ≤ hi' → Climbs lo hi xs → Climbs lo hi' xs
Climbs-wait lo hi hi' [] h c = omega arith
Climbs-wait lo hi hi' (x ∷ xs) h c = (c.0, Climbs-wait x hi hi' xs h c.1)

Climbs-lower : (lo lo' hi : ℕ) (xs : List ℕ) → lo' ≤ lo → Climbs lo hi xs → Climbs lo' hi xs
Climbs-lower lo lo' hi [] h c = omega arith
Climbs-lower lo lo' hi (x ∷ xs) h c = (omega arith, c.1)

Climbs-keep : (p : ℕ → Bool) (lo hi : ℕ) (xs : List ℕ) → Climbs lo hi xs → Climbs lo hi (keep p xs)
Climbs-keep p lo hi [] c = c
Climbs-keep p lo hi (x ∷ xs) c =
    ground (arith, Climbs-keep p x hi xs c.1, Climbs-lower x lo hi (keep p xs) c.0)

Climbs-snoc : (lo hi : ℕ) (xs : List ℕ) → Climbs lo hi xs → Climbs lo hi (xs ++ hi ∷ [])
Climbs-snoc lo hi [] c = (c, omega arith)
Climbs-snoc lo hi (x ∷ xs) c = (c.0, Climbs-snoc x hi xs c.1)

-- What holds of every bucket at every time: no more events than the limit, in order.
record Fits (limit now : ℕ) (bucket : List ℕ) : Type 0 where
  short : length bucket ≤ limit
  climbs : Climbs 0 now bucket

module _ (key : Text) (limit : ℤ) (window : ℕ) (es : List Event) where
  run-Fits :
      is_pos limit ≡ true
      → InOrder window 0 es
      → Fits
          (pos_part limit)
          (last_time 0 es)
          (bucket_of (run limit window new_rate_limiter es) key)
  run-Fits h o =
      run_bucket key limit window (Fits (pos_part limit)) h
        (λ s t b hs q. record { short = q.short; climbs = Climbs-wait 0 s t b hs q.climbs })
        (λ s t b hs q. record {
          short = omega (arith, q.short, length-keep-le (is_recent window t) b);
          climbs = Climbs-keep _ 0 t b (Climbs-wait 0 s t b hs q.climbs);
        })
        (λ s t b hs q room. record {
          short = omega (arith, length-append (keep (is_recent window t) b) (t ∷ []));
          climbs = Climbs-snoc 0 t _ (Climbs-keep _ 0 t b (Climbs-wait 0 s t b hs q.climbs));
        })
        (λ t. record { short = omega arith; climbs = omega arith }) es new_rate_limiter 0 tt o
        (unfold lookup in record { short = omega arith; climbs = omega arith })

-- Once the oldest event has aged out there is room again.
room_later :
    (window limit later : ℕ) (xs : List ℕ)
    → 0 < limit
    → length xs ≤ limit
    → oldest xs + window ≤ later
    → length (keep (is_recent window later) xs) < limit
room_later window limit later [] h s o = h
room_later window limit later (x ∷ xs) h s o =
    ground (arith, length-keep-le (is_recent window later) xs)

-- Until then all events are there.
all_recent :
    (window lo hi later : ℕ) (xs : List ℕ)
    → Climbs lo hi xs
    → later < lo + window
    → keep (is_recent window later) xs ≡ xs
all_recent window lo hi later [] c h = refl
all_recent window lo hi later (x ∷ xs) c h = ground (arith, all_recent window x hi later xs c.1)

still_recent :
    (window hi later : ℕ) (xs : List ℕ)
    → Climbs 0 hi xs
    → later < oldest xs + window
    → keep (is_recent window later) xs ≡ xs
still_recent window hi later [] c h = refl
still_recent window hi later (x ∷ xs) c h =
    all_recent window x hi later (x ∷ xs) (omega arith, c.1) h

-- A denied call tells the time until the oldest event ages out, or one second.
decide-denied :
    (r : RateLimiter) (key : Text) (limit window now : ℕ) (xs : List ℕ)
    → (decide r key limit window now xs).1.allowed ≡ false
    → let d = (decide r key limit window now xs).1 in
      (limit ≤ length xs)
      × (second ≤ d.retry_after)
      × (oldest xs + window ≤ now + d.retry_after)
      × ((d.retry_after ≡ second) ⊎ (d.retry_after ≡ oldest xs + window - now))
unfolding decide
decide-denied r key limit window now xs e = ground arith

decide-allowed :
    (r : RateLimiter) (key : Text) (limit window now : ℕ) (xs : List ℕ)
    → (decide r key limit window now xs).1.allowed ≡ ltb (length xs) limit
unfolding decide
decide-allowed r key limit window now xs = ground arith

pub allow-decide :
    (r : RateLimiter) (key : Text) (limit : ℤ) (window now : ℕ)
    → is_pos limit ≡ true
    → allow key limit window now r
      ≡ decide r key (pos_part limit) window now (trimmed key limit window now r)
unfolding allow
allow-decide r key limit window now h = rw h

module _ (key : Text) (limit : ℤ) (window : ℕ) (es : List Event) (now : ℕ)
    (positive : is_pos limit ≡ true) (ordered : InOrder window 0 es)
    (current : last_time 0 es ≤ now) where
  abbrev after_run : RateLimiter
  after_run = run limit window new_rate_limiter es

  fits : Fits (pos_part limit) (last_time 0 es) (bucket_of after_run key)
  fits = run-Fits key limit window es positive ordered

  trimmed-Fits : Fits (pos_part limit) now (trimmed key limit window now after_run)
  trimmed-Fits = record {
    short =
        omega (arith, fits.short, length-keep-le (is_recent window now) (bucket_of after_run key));
    climbs = Climbs-keep _ 0 now _ (Climbs-wait 0 _ now _ current fits.climbs);
  }

  abbrev full : List ℕ
  full = trimmed key limit window now after_run

  denied_bucket :
      (allow key limit window now after_run).1.allowed ≡ false
      → bucket_of (allow key limit window now after_run).0 key ≡ full
  denied_bucket e = elim (allow_own key limit window now after_run positive) [
    | inl (_, _, b) ↦ b
    | inr (_, a, _) ↦ cc
  ]

  denied_facts :
      (allow key limit window now after_run).1.allowed ≡ false
      → let d = (allow key limit window now after_run).1 in
        (pos_part limit ≤ length full)
        × (second ≤ d.retry_after)
        × (oldest full + window ≤ now + d.retry_after)
        × ((d.retry_after ≡ second) ⊎ (d.retry_after ≡ oldest full + window - now))
  denied_facts e = rw (allow-decide after_run key limit window now positive) (
      decide-denied after_run key (pos_part limit) window now full
        (rw (allow-decide after_run key limit window now positive) at e))

  -- After any history of a positive limit, a denied caller who waits for as long as it was told,
  -- one second or more, is allowed at its next call.
  pub allow-retry_after_enough :
      (later : ℕ)
      → (allow key limit window now after_run).1.allowed ≡ false
      → now + (allow key limit window now after_run).1.retry_after ≤ later
      → (second ≤ (allow key limit window now after_run).1.retry_after)
        × ((allow key limit window later (allow key limit window now after_run).0).1.allowed ≡ true)
  allow-retry_after_enough later e wait = (
    (denied_facts e).1,
    rw
        (
          allow-decide (allow key limit window now after_run).0 key limit window later positive,
          decide-allowed,
          denied_bucket e,
        )
        (lt→ltb _ _ (
          room_later window (pos_part limit) later full (ground arith) trimmed-Fits.short
            (omega (arith, denied_facts e)))),
  )

  -- After any history of a positive limit, a denied caller who was told more than one second is
  -- still denied at any time before that.
  pub allow-retry_after_needed :
      (later : ℕ)
      → (allow key limit window now after_run).1.allowed ≡ false
      → second < (allow key limit window now after_run).1.retry_after
      → later < now + (allow key limit window now after_run).1.retry_after
      → (allow key limit window later (allow key limit window now after_run).0).1.allowed ≡ false
  allow-retry_after_needed later e long early =
      rw
        (
          allow-decide (allow key limit window now after_run).0 key limit window later positive,
          decide-allowed,
          denied_bucket e,
        )
        (rw
          (still_recent window now later full trimmed-Fits.climbs (ground (arith, denied_facts e)))
          (ground (arith, denied_facts e)))
