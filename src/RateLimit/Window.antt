-- ===== src/RateLimit/Window.antt =====
-- The times in a bucket of ratelimit.go, over a history of calls.
use mathlib.Core.List.{append-nil, append_assoc}
use npvtunnel_creator_server.Base.{
  ℕ, ◌<◌, ◌≤◌, ◌≡◌, refl, sym, Text, Bool, true, false, ◌&&◌, List, [], ◌∷◌, ◌++◌, if◌then◌else◌,
  leb, str_eq, str_eq_iff, length, keep, any, lookup, ℤ, is_pos, pos_part, inl, inr, Bool-cases,
  arith, length-append, keep-append, ◌∙◌, ap, Distinct,
}
use npvtunnel_creator_server.RateLimit.Calls.{
  InOrder, allow_own, allow_other, step-Distinct, sweep_bucket,
}
use npvtunnel_creator_server.RateLimit.{
  RateLimiter, Event, allows, sweeps, event_time, allow, step, is_recent, bucket_or_fresh,
  bucket_of, new_rate_limiter,
}

-- The time of an event that is granted to a key, if it is one.
pub grant : Text → ℤ → ℕ → RateLimiter → Event → List ℕ
grant key limit window r (allows j now) =
    if str_eq j key && (allow j limit window now r).1.allowed then now ∷ [] else []
grant key limit window r (sweeps w now) = []

-- The times at which `Allow` granted an event of a key in a history.
pub grants : Text → ℤ → ℕ → RateLimiter → List Event → List ℕ
grants key limit window r [] = []
grants key limit window r (e ∷ es) =
    grant key limit window r e ++ grants key limit window (step limit window r e) es

-- In the window that ends at `t`.
abbrev pub in_window : ℕ → ℕ → ℕ → Bool
in_window window t ts = is_recent window t ts && leb ts t

module _ (window : ℕ) where
  -- A later cutoff keeps less, so trimming early changes nothing that a later trim keeps.
  pub keep-keep :
      (s t : ℕ) (xs : List ℕ)
      → s ≤ t
      → keep (is_recent window t) (keep (is_recent window s) xs) ≡ keep (is_recent window t) xs
  keep-keep s t [] h = refl
  keep-keep s t (x ∷ xs) h = ground (arith, keep-keep s t xs h)

  keep-in_window-le :
      (t : ℕ) (xs : List ℕ)
      → length (keep (in_window window t) xs) ≤ length (keep (is_recent window t) xs)
  keep-in_window-le t [] = omega arith
  keep-in_window-le t (x ∷ xs) = ground (arith, keep-in_window-le t xs)

  keep_mono :
      (s t : ℕ) (xs : List ℕ)
      → s ≤ t
      → length (keep (is_recent window t) xs) ≤ length (keep (is_recent window s) xs)
  keep_mono s t [] h = omega arith
  keep_mono s t (x ∷ xs) h = ground (arith, keep_mono s t xs h)

  -- With no recent event for a window, there is none for a shorter one later.
  pub keep-any :
      (w s t : ℕ) (xs : List ℕ)
      → any (is_recent w s) xs ≡ false
      → window ≤ w
      → s ≤ t
      → keep (is_recent window t) xs ≡ []
  keep-any w s t [] e h k = refl
  keep-any w s t (x ∷ xs) e h k = ground (arith, keep-any w s t xs)

-- How a bucket stands to the log of the key's granted events at time `now`: later trims of the two
-- agree, and the log keeps the limit.
record Tracks (window limit now : ℕ) (log bucket : List ℕ) : Type 0 where
  same : (t : ℕ) → now ≤ t → keep (is_recent window t) log ≡ keep (is_recent window t) bucket
  bound : (t : ℕ) → length (keep (in_window window t) log) ≤ limit

module _ (window limit now t : ℕ) (log bucket : List ℕ) where
  Tracks-trim :
      now ≤ t
      → Tracks window limit now log bucket
      → Tracks window limit t log (keep (is_recent window t) bucket)
  Tracks-trim h v = record {
    same = λ s hs. v.same s (omega arith) ∙ sym (keep-keep window t s bucket hs);
    bound = v.bound;
  }

  -- Before `t` the new event is out of sight; from `t` on the trimmed bucket counts for the log.
  bound-grant :
      now ≤ t
      → Tracks window limit now log bucket
      → length (keep (is_recent window t) bucket) < limit
      → (s : ℕ) → length (keep (in_window window s) (log ++ t ∷ [])) ≤ limit
  bound-grant h v free s =
      rw
        (
          keep-append (in_window window s) log (t ∷ []),
          length-append (keep (in_window window s) log) (keep (in_window window s) (t ∷ [])),
        )
        (ground (
          arith,
          v.bound s,
          keep-in_window-le window s log,
          keep_mono window t s log,
          ap (length {A = ℕ}) (v.same t h),
        ))

  Tracks-grant :
      now ≤ t
      → Tracks window limit now log bucket
      → length (keep (is_recent window t) bucket) < limit
      → Tracks window limit t (log ++ t ∷ []) (keep (is_recent window t) bucket ++ t ∷ [])
  Tracks-grant h v free = record {
    same = λ s hs.
        keep-append (is_recent window s) log (t ∷ [])
        ∙ ap (λ l. l ++ keep (is_recent window s) (t ∷ []))
            (v.same s (omega arith) ∙ sym (keep-keep window t s bucket hs))
        ∙ sym (keep-append (is_recent window s) (keep (is_recent window t) bucket) (t ∷ []));
    bound = bound-grant h v free;
  }

module _ (key : Text) (limit : ℤ) (window : ℕ) (positive : is_pos limit ≡ true) where
  -- One call for the key itself, on its log.
  Tracks-allow :
      (now t : ℕ) (r : RateLimiter) (log : List ℕ)
      → now ≤ t
      → Tracks window (pos_part limit) now log (bucket_of r key)
      → Tracks window
          (pos_part limit)
          t
          (log ++ (if (allow key limit window t r).1.allowed then t ∷ [] else []))
          (bucket_of (allow key limit window t r).0 key)
  Tracks-allow now t r log h v = elim (allow_own key limit window t r positive) [
    | inl (_, denied, b) ↦
        rw (denied, b, append-nil log) (Tracks-trim window (pos_part limit) now t log _ h v)
    | inr (room, given, b) ↦
        rw (given, b) (Tracks-grant window (pos_part limit) now t log _ h v (ground arith))
  ]

  Tracks-other :
      (now t : ℕ) (log b c : List ℕ)
      → now ≤ t
      → c ≡ b
      → Tracks window (pos_part limit) now log b
      → Tracks window (pos_part limit) t (log ++ []) c
  Tracks-other now t log b c h e v =
      rw (append-nil log, e) (record { same = λ s hs. v.same s (omega arith); bound = v.bound })

  Tracks-step :
      (now : ℕ) (r : RateLimiter) (log : List ℕ) (e : Event)
      → Distinct r.entries
      → InOrder window now (e ∷ [])
      → Tracks window (pos_part limit) now log (bucket_of r key)
      → Tracks window
          (pos_part limit)
          (event_time e)
          (log ++ grant key limit window r e)
          (bucket_of (step limit window r e) key)
  unfolding grant step
  Tracks-step now r log (allows j t) d o v = elim (Bool-cases (str_eq j key)) [
    | inl e ↦ rw (e, (str_eq_iff j key).0 e) (Tracks-allow now t r log o.0 v)
    | inr e ↦ rw e (
        Tracks-other now t log _ _ o.0
          (ap bucket_or_fresh
            (allow_other j limit window t r key (λ p. ground (arith, str_eq_iff j key))))
          v)
  ]
  Tracks-step now r log (sweeps w t) d o v = elim (sweep_bucket key w t r d) [
    | inl kept ↦ Tracks-other now t log _ _ o.0 kept v
    | inr (idle, gone) ↦
        rw (append-nil log, gone)
          (record {
            same = λ s hs. v.same s (omega arith) ∙ keep-any window w t s _ idle o.1 hs;
            bound = v.bound;
          })
  ]

  InOrder-cons :
      (now : ℕ) (e : Event) (es : List Event)
      → InOrder window now (e ∷ es)
      → InOrder window now (e ∷ []) × InOrder window (event_time e) es
  InOrder-cons now (allows j t) es o = ((o.0, tt), o.1)
  InOrder-cons now (sweeps w t) es o = ((o.0, o.1, tt), o.2)

  bounded_from :
      (es : List Event) (r : RateLimiter) (now : ℕ) (log : List ℕ)
      → Distinct r.entries
      → InOrder window now es
      → Tracks window (pos_part limit) now log (bucket_of r key)
      → (t : ℕ)
      → length (keep (in_window window t) (log ++ grants key limit window r es)) ≤ pos_part limit
  unfolding grants
  bounded_from [] r now log d o v t = rw (append-nil log) (v.bound t)
  bounded_from (e ∷ es) r now log d o v t =
      rw
        (← append_assoc log (grant key limit window r e)
          (grants key limit window (step limit window r e) es))
        (bounded_from es (step limit window r e) (event_time e) (log ++ grant key limit window r e)
          (step-Distinct limit window r e d) (InOrder-cons now e es o).1
          (Tracks-step now r log e d (InOrder-cons now e es o).0 v) t)

-- In every history of calls and sweeps under one positive limit and one window, whose clock does
-- not run backwards and whose sweeps use a window that is no shorter, at most `limit` events of a
-- key are granted within any stretch of one window, wherever that stretch ends.
pub allow-window_bound :
    (key : Text) (limit : ℤ) (window : ℕ) (es : List Event) (t : ℕ)
    → is_pos limit ≡ true
    → InOrder window 0 es
    → length (keep (in_window window t) (grants key limit window new_rate_limiter es))
      ≤ pos_part limit
allow-window_bound key limit window es t h o =
    bounded_from key limit window h es new_rate_limiter 0 [] tt o
      (unfold lookup in record { same = λ s hs. refl; bound = λ s. omega arith }) t
