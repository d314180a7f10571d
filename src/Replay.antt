-- ===== src/Replay.antt =====
-- attestation_challenge.go: `replayCache`, the request keys seen with the time until which each is
-- refused. The clock reading is an argument, in nanoseconds.
pub mod Once
use npvtunnel_creator_server.Base.{
  ℕ, ◌+◌, ◌≤◌, Bool, true, false, List, [], ◌∷◌, Option, none, some, Text, if◌then◌else◌, ltb,
  lookup, insert, retain,
}

pub record ReplayCache : Type 0 where
  pub entries : List (Text × ℕ)

abbrev pub new_replay_cache : ReplayCache
new_replay_cache = record { entries = [] }

-- `expires, exists := c.entries[key]; exists && now.Before(expires)`
abbrev pub is_live : ℕ → Option ℕ → Bool
is_live now none = false
is_live now (some expires) = ltb now expires

-- `Use`: the new cache, and whether the key may be used now.
unfoldable pub use_key : Text → ℕ → ℕ → ReplayCache → ReplayCache × Bool
use_key key now ttl c =
    if is_live now (lookup key c.entries)
    then (c, false)
    else (record { entries = insert key (now + ttl) (retain (ltb now) c.entries) }, true)

-- A history of uses, each with its time and lifetime.
pub record Usage : Type 0 where
  pub key : Text
  pub now : ℕ
  pub ttl : ℕ

unfoldable pub run : ReplayCache → List Usage → ReplayCache
run c [] = c
run c (u ∷ us) = run (use_key u.key u.now u.ttl c).0 us

abbrev pub Between : ℕ → ℕ → List Usage → Type 0
Between lo hi [] = lo ≤ hi
Between lo hi (u ∷ us) = (lo ≤ u.now) × Between u.now hi us
