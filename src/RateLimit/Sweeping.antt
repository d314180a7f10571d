-- ===== src/RateLimit/Sweeping.antt =====
-- `Allow` of ratelimit.go with and without a `Sweep` before it.
use npvtunnel_creator_server.Base.{
  ℕ, ◌≤◌, ◌≡◌, sym, Text, Bool, true, List, [], ◌∷◌, ◌++◌, if◌then◌else◌, leb, length, retain, ℤ,
  is_pos, pos_part, arith, lookup-insert_self, ◌∙◌, Distinct, inl, inr, size,
}
use npvtunnel_creator_server.RateLimit.Calls.{sweep_bucket, trimmed}
use npvtunnel_creator_server.RateLimit.Retry.{allow-decide}
use npvtunnel_creator_server.RateLimit.Window.{keep-any}
use npvtunnel_creator_server.RateLimit.{RateLimiter, allow, decide, sweep, bucket_of, tracked_keys}

size-retain-le {ℓ} : {V : Type ℓ} (p : V → Bool) (m : List (Text × V)) → size (retain p m) ≤ size m
unfolding size retain
size-retain-le p [] = omega arith
size-retain-le p ((k, v) ∷ m) = ground (arith, size-retain-le p m)

module _ (w now : ℕ) (r : RateLimiter) (distinct : Distinct r.entries) (key : Text) (limit : ℤ)
    (window later : ℕ) (wide : window ≤ w) (time : now ≤ later) where
  trimmed-sweep : trimmed key limit window later (sweep w now r) ≡ trimmed key limit window later r
  trimmed-sweep = elim (sweep_bucket key w now r distinct) [
    | inl kept ↦ rw kept
    | inr (idle, gone) ↦ rw gone (sym (keep-any window w now later _ idle wide time))
  ]

  -- What a call leaves of its own bucket is settled by the trimmed one.
  bucket_of-decide :
      (s : RateLimiter) (n : ℕ) (xs : List ℕ)
      → bucket_of (decide s key n window later xs).0 key
        ≡ (if leb n (length xs) then xs else xs ++ later ∷ [])
  unfolding decide
  bucket_of-decide s n xs = ground (
    arith,
    lookup-insert_self key xs s.entries,
    lookup-insert_self key (xs ++ later ∷ []) s.entries,
  )

  decision-decide :
      (s s' : RateLimiter) (n : ℕ) (xs : List ℕ)
      → (decide s key n window later xs).1 ≡ (decide s' key n window later xs).1
  unfolding decide
  decision-decide s s' n xs = ground arith

  -- Under a positive limit, a sweep whose window is no shorter than the caller's changes neither
  -- the decision of a later call nor the bucket that the call leaves; and it adds no key.
  pub allow-sweep :
      is_pos limit ≡ true
      → ((allow key limit window later (sweep w now r)).1 ≡ (allow key limit window later r).1)
        × (bucket_of (allow key limit window later (sweep w now r)).0 key
            ≡ bucket_of (allow key limit window later r).0 key)
        × (tracked_keys (sweep w now r) ≤ tracked_keys r)
  allow-sweep h =
      rw
        (
          allow-decide (sweep w now r) key limit window later h,
          allow-decide r key limit window later h,
          trimmed-sweep,
        )
        (
          decision-decide (sweep w now r) r (pos_part limit) _,
          bucket_of-decide (sweep w now r) (pos_part limit) _
              ∙ sym (bucket_of-decide r (pos_part limit) _),
          (unfold tracked_keys sweep in size-retain-le _ r.entries),
        )
