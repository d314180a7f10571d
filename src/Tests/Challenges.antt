-- ===== src/Tests/Challenges.antt =====
-- The challenge and the replay cache of attestation_challenge.go.
use npvtunnel_creator_server.Base.{
  ℕ, ◌+◌, ◌≤◌, zero, suc, ◌*◌, ◌<◌, ◌≡◌, refl, Bytes, Text, text, if◌then◌else◌, List, [], ◌∷◌,
  some, arith, true, false, str_eq, insert, lookup, retain, ltb,
}
use npvtunnel_creator_server.Base64.{decode_string, encode_to_string, digit, value, values, regroup}
use npvtunnel_creator_server.Challenge.{
  ChallengeManager, RandomRead, new_challenge_manager, current_challenge, is_valid, second,
  attestation_challenge, handle_attestation_challenge,
}
use npvtunnel_creator_server.Challenge.Rotation.{
  FillsBuffer, HandedOut, is_valid-current_challenge, is_valid-HandedOut,
}
use npvtunnel_creator_server.Challenge.Rotation
use npvtunnel_creator_server.Challenge.Handler.{handle_attestation_challenge-is_valid}
use npvtunnel_creator_server.Replay.{ReplayCache, Usage, use_key, new_replay_cache}
use npvtunnel_creator_server.Replay
use npvtunnel_creator_server.Replay.Once.{Used, use_key_once, use_key-false}

abbrev repeated : ℕ → ℕ → Bytes
repeated zero b = []
repeated (suc n) b = b ∷ repeated n b

abbrev good_read : RandomRead
good_read = record { buffer = repeated 32 7; failed = false }

abbrev failed_read : RandomRead
failed_read = record { buffer = repeated 32 0; failed = true }

abbrev hour : ℕ
hour = 3_600 * 1_000_000_000

-- A read fails, then one succeeds, then other devices ask.
abbrev asked_before : List (ℕ × RandomRead)
asked_before = (hour, failed_read) ∷ []

abbrev asked_after : List (ℕ × RandomRead)
asked_after = (3 * hour, good_read) ∷ (25 * hour, good_read) ∷ []

handed_out_first :
    (current_challenge (2 * hour) good_read (Rotation.run new_challenge_manager asked_before)).1
    ≡ some (repeated 32 7, 26 * hour)
unfolding Rotation.run current_challenge
handed_out_first = refl

live_until_expiry :
    is_valid (encode_to_string (repeated 32 7)) (25 * hour) (
      Rotation.run
        (current_challenge (2 * hour) good_read (Rotation.run new_challenge_manager asked_before)).0
        asked_after)
    ≡ ltb (25 * hour) (26 * hour)
live_until_expiry =
    is_valid-current_challenge asked_before asked_after (2 * hour) good_read (repeated 32 7)
      (26 * hour) (25 * hour) ((omega arith, refl), tt) (omega arith, refl) handed_out_first
      (omega arith)

abbrev clock : ℕ → Text
clock t = if ltb t (24 * 3_600) then text "today" else text "later"

replied_first :
    (handle_attestation_challenge clock
      (2 * hour)
      good_read
      (Rotation.run new_challenge_manager asked_before)).1
    ≡ attestation_challenge (encode_to_string (repeated 32 7)) (text "later")
unfolding handle_attestation_challenge current_challenge Rotation.run
replied_first = refl

abbrev handing_out : ChallengeManager
handing_out = record { current = repeated 32 7; expires_at = 26 * hour }

handle_attestation_challenge-is_valid_example :
    (stated : ℕ) × (text "later" ≡ clock stated)
    × (stated * second ≤ 26 * hour)
    × (26 * hour < (stated + 1) * second)
    × (is_valid
          (encode_to_string (repeated 32 7))
          (25 * hour)
          (Rotation.run handing_out asked_after)
        ≡ ltb (25 * hour) (26 * hour))
unfolding handle_attestation_challenge current_challenge Rotation.run
handle_attestation_challenge-is_valid_example =
    handle_attestation_challenge-is_valid clock asked_before asked_after (2 * hour) good_read
      (encode_to_string (repeated 32 7)) (text "later") (25 * hour) ((omega arith, refl), tt)
      (omega arith, refl) replied_first (omega arith)

abbrev asked : List (ℕ × RandomRead)
asked = (hour, failed_read) ∷ (2 * hour, good_read) ∷ []

accepted :
    is_valid
      (encode_to_string (repeated 32 7))
      (3 * hour)
      (Rotation.run new_challenge_manager asked)
    ≡ true
unfolding Rotation.run current_challenge is_valid encode_to_string decode_string digit value values
    regroup str_eq
accepted = refl

is_valid-HandedOut_example :
    (ch : Bytes) × (expires : ℕ) × (decode_string (encode_to_string (repeated 32 7)) ≡ some ch)
    × (3 * hour < expires)
    × HandedOut ch expires new_challenge_manager asked
is_valid-HandedOut_example =
    is_valid-HandedOut (encode_to_string (repeated 32 7)) (3 * hour) asked
      ((omega arith, refl), ((omega arith, refl), tt)) (omega arith) accepted

abbrev day : ℕ
day = 25 * hour

abbrev other_uses : List Usage
other_uses =
    record { key = text "b"; now = 2 * hour; ttl = day }
    ∷ record { key = text "a"; now = 3 * hour; ttl = day }
    ∷ []

first_use : (use_key (text "a") hour day new_replay_cache).1 ≡ true
unfolding use_key lookup
first_use = refl

used_once :
    use_key
      (text "a")
      (4 * hour)
      day
      (Replay.run (use_key (text "a") hour day new_replay_cache).0 other_uses)
    ≡ (Replay.run (use_key (text "a") hour day new_replay_cache).0 other_uses, false)
used_once =
    use_key_once (text "a") hour day (4 * hour) day other_uses new_replay_cache first_use
      (omega arith) (omega arith)

refused : (use_key (text "a") (4 * hour) day (Replay.run new_replay_cache other_uses)).1 ≡ false
unfolding use_key lookup Replay.run insert retain str_eq
refused = refl

refused_key : (expires : ℕ) × Used (text "a") expires other_uses × (4 * hour < expires)
refused_key = use_key-false (text "a") (4 * hour) day other_uses refused
