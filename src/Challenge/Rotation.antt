-- ===== src/Challenge/Rotation.antt =====
-- `Current` and `Valid` of attestation_challenge.go over a history of calls.
use npvtunnel_creator_server.Base.{
  ℕ, ◌≤◌, ◌<◌, ◌≡◌, refl, ap, true, List, [], ◌∷◌, some, Bytes, Text, ltb, str_eq_iff, str_eq_refl,
  length, arith, Option-cases, inl, inr, ◌⊎◌,
}
use npvtunnel_creator_server.Base64.{decode_string, encode_to_string}
use npvtunnel_creator_server.Base64.RoundTrip.{IsBytes, decode-encode}
use npvtunnel_creator_server.Challenge.{
  ChallengeManager, RandomRead, new_challenge_manager, current_challenge, is_valid,
}

-- Devices ask for the challenge, each at its time, with what `rand.Read` would give.
unfoldable pub run : ChallengeManager → List (ℕ × RandomRead) → ChallengeManager
run m [] = m
run m ((now, random) ∷ rest) = run (current_challenge now random m).0 rest

-- `rand.Read` fills the whole buffer of 32 bytes.
abbrev pub FillsBuffer : RandomRead → Type 0
FillsBuffer random = IsBytes random.buffer × (length random.buffer ≡ 32)

-- All calls come before a time, and every read fills its buffer.
abbrev pub Before : ℕ → List (ℕ × RandomRead) → Type 0
Before limit [] = Unit
Before limit ((now, random) ∷ rest) = (now < limit) × Before limit rest

abbrev pub AllFill : List (ℕ × RandomRead) → Type 0
AllFill [] = Unit
AllFill ((now, random) ∷ rest) = FillsBuffer random × AllFill rest

-- Calls in the order of their times, from `lo` up to `hi`.
abbrev pub Ordered : ℕ → ℕ → List (ℕ × RandomRead) → Type 0
Ordered lo hi [] = lo ≤ hi
Ordered lo hi ((now, random) ∷ rest) = (lo ≤ now) × Ordered now hi rest

Ordered-le : (lo hi : ℕ) (calls : List (ℕ × RandomRead)) → Ordered lo hi calls → lo ≤ hi
Ordered-le lo hi [] o = o
Ordered-le lo hi ((now, random) ∷ rest) o = omega (arith, Ordered-le now hi rest o.1)

run_keeps :
    (calls : List (ℕ × RandomRead)) (m : ChallengeManager)
    → 0 < length m.current
    → Before m.expires_at calls
    → run m calls ≡ m
unfolding run
run_keeps [] m l b = refl
run_keeps ((now, random) ∷ rest) m l b = rw kept (run_keeps rest m l b.1)
  where
    kept : (current_challenge now random m).0 ≡ m
    kept = unfold current_challenge in ground arith

current-IsBytes :
    (now : ℕ) (random : RandomRead) (m : ChallengeManager)
    → FillsBuffer random
    → IsBytes m.current
    → IsBytes (current_challenge now random m).0.current
unfolding current_challenge
current-IsBytes now random m f h = ground arith

run-IsBytes :
    (calls : List (ℕ × RandomRead)) (m : ChallengeManager)
    → AllFill calls
    → IsBytes m.current
    → IsBytes (run m calls).current
unfolding run
run-IsBytes [] m f h = h
run-IsBytes ((now, random) ∷ rest) m f h =
    run-IsBytes rest _ f.1 (current-IsBytes now random m f.0 h)

-- What a call hands out is the challenge that the manager then holds.
pub handed_out :
    (now : ℕ) (random : RandomRead) (m : ChallengeManager) (ch : Bytes) (expires : ℕ)
    → FillsBuffer random
    → (current_challenge now random m).1 ≡ some (ch, expires)
    → let m' = (current_challenge now random m).0 in
      (m'.current ≡ ch) × (m'.expires_at ≡ expires) × (0 < length m'.current)
unfolding current_challenge
handed_out now random m ch expires f e = ground arith

is_valid-encode :
    (t : ℕ) (m : ChallengeManager)
    → IsBytes m.current
    → is_valid (encode_to_string m.current) t m ≡ ltb t m.expires_at
unfolding is_valid
is_valid-encode t m h = rw (decode-encode m.current h) (ground (arith, str_eq_refl m.current))

-- A challenge that a device is handed out, in any state that calls can lead to, is accepted exactly
-- until the expiry that it was handed out with, however many devices ask for it before that.
pub is_valid-current_challenge :
    (before after : List (ℕ × RandomRead)) (now : ℕ) (random : RandomRead) (ch : Bytes)
    (expires t : ℕ)
    → AllFill before
    → FillsBuffer random
    → (current_challenge now random (run new_challenge_manager before)).1 ≡ some (ch, expires)
    → Before expires after
    → is_valid
        (encode_to_string ch)
        t
        (run (current_challenge now random (run new_challenge_manager before)).0 after)
      ≡ ltb t expires
is_valid-current_challenge before after now random ch expires t fill f e b =
    let m' : ChallengeManager =
      (current_challenge now random (run new_challenge_manager before)).0 in
    let (c, x, l) = handed_out now random (run new_challenge_manager before) ch expires f e in
    rw (run_keeps after m' l (rw x b), ← c, ← x)
      (is_valid-encode t m'
        (current-IsBytes now random _ f (run-IsBytes before new_challenge_manager fill tt)))

-- Some call of a history handed out this challenge with this expiry.
pub data HandedOut (ch : Bytes) (expires : ℕ)
    : ChallengeManager → List (ℕ × RandomRead) → Type 0 where
  here :
      {m : ChallengeManager} {now : ℕ} {random : RandomRead} {rest : List (ℕ × RandomRead)}
      → (current_challenge now random m).1 ≡ some (ch, expires)
      → HandedOut ch expires m ((now, random) ∷ rest)
  there :
      {m : ChallengeManager} {now : ℕ} {random : RandomRead} {rest : List (ℕ × RandomRead)}
      → HandedOut ch expires (current_challenge now random m).0 rest
      → HandedOut ch expires m ((now, random) ∷ rest)

is_valid_iff :
    (encoded : Text) (t : ℕ) (m : ChallengeManager)
    → is_valid encoded t m ≡ true
    → (decode_string encoded ≡ some m.current) × (t < m.expires_at)
unfolding is_valid
is_valid_iff encoded t m e = elim (Option-cases (decode_string encoded)) [
  | inl bad ↦ ground arith
  | inr (candidate, good) ↦
      rw good (ground (arith, str_eq_iff candidate m.current, rw (good, is_valid) at e))
]

-- One call hands out the challenge that the manager then holds, or the old expiry is past.
current_challenge_cases :
    (now : ℕ) (random : RandomRead) (m : ChallengeManager)
    → FillsBuffer random
    → (length m.current ≡ 0 → m.expires_at ≡ 0)
    → let (m', out) = current_challenge now random m in
      (length m'.current ≡ 0 → m'.expires_at ≡ 0)
      × ((out ≡ some (m'.current, m'.expires_at))
          ⊎ ((m'.expires_at ≡ m.expires_at) × (m.expires_at ≤ now)))
unfolding current_challenge
current_challenge_cases now random m f z = (ground arith, ground arith)

run_cases :
    (calls : List (ℕ × RandomRead)) (m : ChallengeManager) (lo t : ℕ)
    → AllFill calls
    → Ordered lo t calls
    → (length m.current ≡ 0 → m.expires_at ≡ 0)
    → t < (run m calls).expires_at
    → HandedOut (run m calls).current (run m calls).expires_at m calls ⊎ (run m calls ≡ m)
unfolding run
run_cases [] m lo t f o z h = inr refl
run_cases ((now, random) ∷ rest) m lo t f o z h = elim (run_cases rest m' now t f.1 o.1 facts.0 h) [
  | inl later ↦ inl (there later)
  | inr same ↦ elim facts.1 [
    | inl out ↦ inl (rw same (here out))
    | inr (kept, past) ↦
        absurd (omega (arith, Ordered-le now t rest o.1, ap (λ q. q.expires_at) same))
  ]
]
  where
    m' : ChallengeManager
    m' = (current_challenge now random m).0

    facts :
        (length m'.current ≡ 0 → m'.expires_at ≡ 0)
        × (((current_challenge now random m).1 ≡ some (m'.current, m'.expires_at))
            ⊎ ((m'.expires_at ≡ m.expires_at) × (m.expires_at ≤ now)))
    facts = current_challenge_cases now random m f.0 z

-- Every challenge that is accepted has been handed out by an earlier call, with an expiry that has
-- not come yet, also where some reads of the random source failed.
pub is_valid-HandedOut :
    (encoded : Text) (t : ℕ) (calls : List (ℕ × RandomRead))
    → AllFill calls
    → Ordered 0 t calls
    → is_valid encoded t (run new_challenge_manager calls) ≡ true
    → (ch : Bytes) × (expires : ℕ) × (decode_string encoded ≡ some ch)
      × (t < expires)
      × HandedOut ch expires new_challenge_manager calls
is_valid-HandedOut encoded t calls f o e =
    let m : ChallengeManager = run new_challenge_manager calls in
    let (decoded, live) = is_valid_iff encoded t m e in
    (
      m.current,
      m.expires_at,
      decoded,
      live,
      elim (run_cases calls new_challenge_manager 0 t f o (λ _. refl) live) [
        | inl out ↦ out
        | inr same ↦ absurd (omega (arith, ap (λ (q : ChallengeManager). q.expires_at) same))
      ],
    )
