-- ===== src/Challenge.antt =====
-- attestation_challenge.go: `attestationChallengeManager`, the challenge that an Android key
-- attestation has to answer. The clock reading is an argument, and so is what `rand.Read` did: the
-- 32 bytes that it left in the buffer, and whether it failed. With it the handler of server.go that
-- gives the challenge out, `handleAttestationChallenge`.
pub mod Rotation
pub mod Handler
use npvtunnel_creator_server.Base.{
  ℕ, ◌+◌, ◌*◌, ◌/◌, Bool, true, false, not, ◌&&◌, ◌||◌, [], Option, none, some, Bytes, Text,
  if◌then◌else◌, ltb, ◌==◌, str_eq, length,
}
use npvtunnel_creator_server.Base64.{decode_string, encode_to_string}

-- 24 hours, in nanoseconds.
abbrev pub challenge_lifetime : ℕ
challenge_lifetime = 24 * 3_600 * 1_000_000_000

pub record ChallengeManager : Type 0 where
  pub current : Bytes
  pub expires_at : ℕ

abbrev pub new_challenge_manager : ChallengeManager
new_challenge_manager = record { current = []; expires_at = 0 }

pub record RandomRead : Type 0 where
  pub buffer : Bytes
  pub failed : Bool

-- `Current`: the new state, and the challenge with its expiry, or the error of `rand.Read`. A read
-- that fails has replaced the challenge and kept the old expiry.
unfoldable pub current_challenge :
    ℕ → RandomRead → ChallengeManager → ChallengeManager × Option (Bytes × ℕ)
current_challenge now random m =
    if length m.current == 0 || not (ltb now m.expires_at)
    then if random.failed then (record m { current = random.buffer }, none) else (
      record { current = random.buffer; expires_at = now + challenge_lifetime },
      some (random.buffer, now + challenge_lifetime),
    )
    else (m, some (m.current, m.expires_at))

abbrev matches : ChallengeManager → ℕ → Option Bytes → Bool
matches m now none = false
matches m now (some candidate) =
    length candidate == length m.current && ltb now m.expires_at && str_eq candidate m.current

unfoldable pub is_valid : Text → ℕ → ChallengeManager → Bool
is_valid encoded now m = matches m now (decode_string encoded)

-- The replies with status 200 and 500.
pub data ChallengeReply : Type 0 where
  attestation_challenge : Text → Text → ChallengeReply
  challenge_error : ChallengeReply

abbrev pub second : ℕ
second = 1_000_000_000

-- `Format(time.RFC3339)` has no fraction of a second: what it writes of the whole seconds is an
-- argument.
abbrev challenge_reply : (ℕ → Text) → Option (Bytes × ℕ) → ChallengeReply
challenge_reply format_seconds none = challenge_error
challenge_reply format_seconds (some (challenge, expires_at)) =
    attestation_challenge (encode_to_string challenge) (format_seconds (expires_at / second))

unfoldable pub handle_attestation_challenge :
    (ℕ → Text) → ℕ → RandomRead → ChallengeManager → ChallengeManager × ChallengeReply
handle_attestation_challenge format_seconds now random m =
    let (m, out) = current_challenge now random m in (m, challenge_reply format_seconds out)
