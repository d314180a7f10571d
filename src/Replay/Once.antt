-- ===== src/Replay/Once.antt =====
-- `Use` of attestation_challenge.go over a history of calls.
use npvtunnel_creator_server.Base.{
  ℕ, ◌+◌, ◌≤◌, ◌<◌, ◌≡◌, refl, true, false, List, [], ◌∷◌, Option, none, some, Text, ltb, lt→ltb,
  ◌⊎◌, Distinct, lookup-retain, insert-Distinct, retain-Distinct, lookup, retain, lookup-insert,
  lookup-insert_self, lookup-retain-some, str_eq_iff, arith, inl, inr,
}
use npvtunnel_creator_server.Replay.{
  ReplayCache, new_replay_cache, is_live, use_key, Usage, run, Between,
}

-- An entry that has not expired survives the use of any key.
pub use_key_keeps :
    (key : Text) (expires : ℕ) (u : Usage) (c : ReplayCache)
    → lookup key c.entries ≡ some expires
    → u.now < expires
    → lookup key (use_key u.key u.now u.ttl c).0.entries ≡ some expires
unfolding use_key
use_key_keeps key expires u c e h = ground (
  arith,
  lookup-insert u.key key (u.now + u.ttl) (retain (ltb u.now) c.entries),
  lookup-retain-some (ltb u.now) key expires c.entries e,
  str_eq_iff u.key key,
)

run_keeps :
    (key : Text) (expires lo hi : ℕ) (us : List Usage) (c : ReplayCache)
    → lookup key c.entries ≡ some expires
    → Between lo hi us
    → hi < expires
    → lookup key (run c us).entries ≡ some expires
unfolding run
run_keeps key expires lo hi [] c e b h = e
run_keeps key expires lo hi (u ∷ us) c e b h =
    run_keeps key expires u.now hi us _
      (use_key_keeps key expires u c e (omega (arith, Between-le u.now hi us b.1))) b.1 h
  where
    Between-le : (lo hi : ℕ) (us : List Usage) → Between lo hi us → lo ≤ hi
    Between-le lo hi [] b = b
    Between-le lo hi (v ∷ vs) b = omega (arith, Between-le v.now hi vs b.1)

pub use_key-stores :
    (key : Text) (now ttl : ℕ) (c : ReplayCache)
    → (use_key key now ttl c).1 ≡ true
    → lookup key (use_key key now ttl c).0.entries ≡ some (now + ttl)
unfolding use_key
use_key-stores key now ttl c e =
    ground (arith, lookup-insert_self key (now + ttl) (retain (ltb now) c.entries))

-- Once a key has been accepted, every further use of it before its lifetime ends is refused and
-- changes nothing, whatever uses of this and of other keys come between, as long as the clock does
-- not run backwards.
pub use_key_once :
    (key : Text) (now ttl later ttl' : ℕ) (between : List Usage) (c : ReplayCache)
    → (use_key key now ttl c).1 ≡ true
    → Between now later between
    → later < now + ttl
    → use_key key later ttl' (run (use_key key now ttl c).0 between)
      ≡ (run (use_key key now ttl c).0 between, false)
use_key_once key now ttl later ttl' between c e b h =
    refused (run_keeps key (now + ttl) now later between _ (use_key-stores key now ttl c e) b h)
  where
    d : ReplayCache
    d = run (use_key key now ttl c).0 between

    refused : lookup key d.entries ≡ some (now + ttl) → use_key key later ttl' d ≡ (d, false)
    refused l = unfold use_key in rw (l, lt→ltb later (now + ttl) h)

-- In a history some use of the key set this expiry.
pub data Used (key : Text) (expires : ℕ) : List Usage → Type 0 where
  here :
      {us : List Usage} (u : Usage)
      → u.key ≡ key
      → expires ≡ u.now + u.ttl
      → Used key expires (u ∷ us)
  there : {u : Usage} {us : List Usage} → Used key expires us → Used key expires (u ∷ us)

-- After one use the expiry of a key is the old one, or the one that the use has set.
lookup-use_key :
    (key : Text) (u : Usage) (c : ReplayCache) (v : ℕ)
    → Distinct c.entries
    → lookup key (use_key u.key u.now u.ttl c).0.entries ≡ some v
    → (lookup key c.entries ≡ some v) ⊎ ((u.key ≡ key) × (v ≡ u.now + u.ttl))
unfolding use_key
lookup-use_key key u c v d e = ground (
  arith,
  lookup-insert u.key key (u.now + u.ttl) (retain (ltb u.now) c.entries),
  lookup-retain (ltb u.now) key c.entries d,
  str_eq_iff u.key key,
)

use_key-Distinct :
    (key : Text) (now ttl : ℕ) (c : ReplayCache)
    → Distinct c.entries
    → Distinct (use_key key now ttl c).0.entries
unfolding use_key
use_key-Distinct key now ttl c d = ground (
  arith,
  insert-Distinct key (now + ttl) (retain (ltb now) c.entries)
      (retain-Distinct (ltb now) c.entries d),
)

run-Used :
    (key : Text) (v : ℕ) (us : List Usage) (c : ReplayCache)
    → Distinct c.entries
    → lookup key (run c us).entries ≡ some v
    → (lookup key c.entries ≡ some v) ⊎ Used key v us
unfolding run
run-Used key v [] c d e = inl e
run-Used key v (u ∷ us) c d e =
    elim (run-Used key v us _ (use_key-Distinct u.key u.now u.ttl c d) e) [
      | inr later ↦ inr (there later)
      | inl old ↦ elim (lookup-use_key key u c v d old) [
        | inl older ↦ inl older
        | inr (k, t) ↦ inr (here u k t)
      ]
    ]

-- A fresh request is never refused by mistake: a refusal shows that the history has a use of the
-- very same key whose lifetime has not ended.
pub use_key-false :
    (key : Text) (now ttl : ℕ) (us : List Usage)
    → (use_key key now ttl (run new_replay_cache us)).1 ≡ false
    → (expires : ℕ) × Used key expires us × (now < expires)
use_key-false key now ttl us e =
    found (lookup key (run new_replay_cache us).entries) refl (unfold use_key in ground arith)
  where
    found :
        (o : Option ℕ)
        → lookup key (run new_replay_cache us).entries ≡ o
        → is_live now o ≡ true
        → (expires : ℕ) × Used key expires us × (now < expires)
    found none l live = cc
    found (some v) l live = elim (run-Used key v us new_replay_cache tt l) [
      | inr used ↦ (v, used, ground arith)
      | inl old ↦ absurd (unfold lookup in cc)
    ]
