-- ===== src/RateLimit/Calls.antt =====
-- `Allow` and `Sweep` of ratelimit.go, seen from the bucket of one key.
use npvtunnel_creator_server.Base.{
  ℕ, ◌<◌, ◌≤◌, ◌≡◌, ◌≢◌, ◌⊎◌, Text, true, false, List, [], ◌∷◌, ◌++◌, leb, str_eq, str_eq_iff,
  str_eq_refl, length, keep, any, lookup, ℤ, is_pos, pos_part, arith, lookup-insert, Distinct,
  lookup-retain, insert-Distinct, retain-Distinct, inl, inr, Bool-cases,
}
use npvtunnel_creator_server.RateLimit.{
  RateLimiter, Event, allows, sweeps, allow, decide, sweep, step, run, is_recent, bucket_of,
  last_time,
}

module _ (key : Text) (limit : ℤ) (window now : ℕ) (r : RateLimiter) where
  abbrev pub trimmed : List ℕ
  trimmed = keep (is_recent window now) (bucket_of r key)

  -- A call under a positive limit, seen from its key: the trimmed bucket, with the new event if
  -- there was room for it.
  pub allow_own :
      is_pos limit ≡ true
      → let (r', d) = allow key limit window now r in
        ((leb (pos_part limit) (length trimmed) ≡ true)
          × (d.allowed ≡ false)
          × (bucket_of r' key ≡ trimmed))
        ⊎ ((leb (pos_part limit) (length trimmed) ≡ false)
            × (d.allowed ≡ true)
            × (bucket_of r' key ≡ trimmed ++ now ∷ []))
  unfolding allow decide
  allow_own h = elim (Bool-cases (leb (pos_part limit) (length trimmed))) [
    | inl full ↦ inl (full, rw (h, full), rw (h, full, lookup-insert, str_eq_refl))
    | inr room ↦ inr (room, rw (h, room), rw (h, room, lookup-insert, str_eq_refl))
  ]

  -- No other key's bucket changes, whatever the limit.
  pub allow_other :
      (k : Text) → key ≢ k → lookup k (allow key limit window now r).0.entries ≡ lookup k r.entries
  unfolding allow decide
  allow_other k ne = ground (
    arith,
    str_eq_iff key k,
    lookup-insert key k trimmed r.entries,
    lookup-insert key k (trimmed ++ now ∷ []) r.entries,
  )

  pub allow-Distinct : Distinct r.entries → Distinct (allow key limit window now r).0.entries
  unfolding allow decide
  allow-Distinct d = ground (
    arith,
    insert-Distinct key trimmed r.entries d,
    insert-Distinct key (trimmed ++ now ∷ []) r.entries d,
  )

-- The clock never runs backwards, and a sweep's window is no shorter than the limiter's.
abbrev pub InOrder : ℕ → ℕ → List Event → Type 0
InOrder window now [] = Unit
InOrder window now (allows key t ∷ es) = (now ≤ t) × InOrder window t es
InOrder window now (sweeps w t ∷ es) = (now ≤ t) × (window ≤ w) × InOrder window t es

-- A sweep leaves a bucket as it is, or drops one with no recent event.
pub sweep_bucket :
    (key : Text) (window now : ℕ) (r : RateLimiter)
    → Distinct r.entries
    → (bucket_of (sweep window now r) key ≡ bucket_of r key)
      ⊎ ((any (is_recent window now) (bucket_of r key) ≡ false)
          × (bucket_of (sweep window now r) key ≡ []))
unfolding sweep
sweep_bucket key window now r d =
    ground (arith, lookup-retain (any (is_recent window now)) key r.entries d)

pub step-Distinct :
    (limit : ℤ) (window : ℕ) (r : RateLimiter) (e : Event)
    → Distinct r.entries
    → Distinct (step limit window r e).entries
unfolding step sweep
step-Distinct limit window r (allows key now) d = allow-Distinct key limit window now r d
step-Distinct limit window r (sweeps w now) d = retain-Distinct _ r.entries d

-- A property of one bucket that the four things that happen to it keep holds after a history.
module _ (key : Text) (limit : ℤ) (window : ℕ) (Q : ℕ → List ℕ → Type 0) where
  pub run_bucket :
      is_pos limit ≡ true
      → ((s t : ℕ) (b : List ℕ) → s ≤ t → Q s b → Q t b)
      → ((s t : ℕ) (b : List ℕ) → s ≤ t → Q s b → Q t (keep (is_recent window t) b))
      → ((s t : ℕ) (b : List ℕ)
          → s ≤ t
          → Q s b
          → length (keep (is_recent window t) b) < pos_part limit
          → Q t (keep (is_recent window t) b ++ t ∷ []))
      → ((t : ℕ) → Q t [])
      → (es : List Event) (r : RateLimiter) (now : ℕ) → Distinct r.entries
      → InOrder window now es
      → Q now (bucket_of r key)
      → Q (last_time now es) (bucket_of (run limit window r es) key)
  unfolding run
  run_bucket h wait trim grant drop [] r now d o q = q
  run_bucket h wait trim grant drop (allows j t ∷ es) r now d o q =
      run_bucket h wait trim grant drop es _ t (step-Distinct limit window r (allows j t) d) o.1
        (unfold step in own (Bool-cases (str_eq j key)))
    where
      own :
          (str_eq j key ≡ true) ⊎ (str_eq j key ≡ false)
          → Q t (bucket_of (allow j limit window t r).0 key)
      own (inl e) = rw (← (str_eq_iff j key).0 e) (elim (allow_own j limit window t r h) [
        | inl (_, _, b) ↦ rw b (trim now t _ o.0 (rw ((str_eq_iff j key).0 e) q))
        | inr (room, _, b) ↦ rw b (grant now t _ o.0 (rw ((str_eq_iff j key).0 e) q) (ground arith))
      ])
      own (inr e) =
          rw (allow_other j limit window t r key (λ p. ground (arith, str_eq_iff j key)))
            (wait now t _ o.0 q)
  run_bucket h wait trim grant drop (sweeps w t ∷ es) r now d o q =
      run_bucket h wait trim grant drop es _ t (step-Distinct limit window r (sweeps w t) d) o.2 (
        unfold step in
        elim (sweep_bucket key w t r d) [
          | inl same ↦ rw same (wait now t _ o.0 q)
          | inr (_, gone) ↦ rw gone (drop t)
        ])
