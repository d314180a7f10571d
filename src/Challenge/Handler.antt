-- ===== src/Challenge/Handler.antt =====
-- `handleAttestationChallenge` of server.go, read by `Valid` of attestation_challenge.go.
use npvtunnel_creator_server.Base.{
  ℕ, ◌*◌, ◌+◌, ◌/◌, ◌≤◌, ◌<◌, arith, ◌≡◌, List, some, Bytes, Text, ltb, Option-cases, inl, inr,
}
use npvtunnel_creator_server.Base64.{encode_to_string}
use npvtunnel_creator_server.Challenge.{
  ChallengeManager, RandomRead, new_challenge_manager, current_challenge, is_valid, second,
  attestation_challenge, handle_attestation_challenge,
}
use npvtunnel_creator_server.Challenge.Rotation.{
  run, FillsBuffer, Before, AllFill, handed_out, is_valid-current_challenge,
}

module _ (format_seconds : ℕ → Text) (now : ℕ) (random : RandomRead) (m : ChallengeManager) where
  replied :
      (encoded expiry : Text)
      → (handle_attestation_challenge format_seconds now random m).1
        ≡ attestation_challenge encoded expiry
      → (ch : Bytes) × (expires : ℕ) × ((current_challenge now random m).1 ≡ some (ch, expires))
        × (encoded ≡ encode_to_string ch)
        × (expiry ≡ format_seconds (expires / second))
  unfolding handle_attestation_challenge
  replied encoded expiry h = elim (Option-cases (current_challenge now random m).1) [
    | inl refused ↦ absurd (cc (rw refused at h))
    | inr ((ch, expires), out) ↦ let shape = rw out at h in (ch, expires, out, cc shape, cc shape)
  ]

-- The challenge that the handler replies, in any state that earlier requests can lead to, is accepted
-- exactly until the manager's expiry, however many requests come before that; the reply states this
-- expiry cut to the second, so that it is accepted for less than a second after the time stated.
pub handle_attestation_challenge-is_valid :
    (format_seconds : ℕ → Text) (before after : List (ℕ × RandomRead)) (now : ℕ)
    (random : RandomRead) (encoded expiry : Text) (t : ℕ)
    → AllFill before
    → FillsBuffer random
    → (handle_attestation_challenge format_seconds now random (run new_challenge_manager before)).1
      ≡ attestation_challenge encoded expiry
    → let m =
        (handle_attestation_challenge format_seconds now random
          (run new_challenge_manager before)).0 in
      Before m.expires_at after
      → (stated : ℕ) × (expiry ≡ format_seconds stated)
        × (stated * second ≤ m.expires_at)
        × (m.expires_at < (stated + 1) * second)
        × (is_valid encoded t (run m after) ≡ ltb t m.expires_at)
unfolding handle_attestation_challenge
handle_attestation_challenge-is_valid format_seconds before after now random encoded expiry t fill f
      h b =
    let m = run new_challenge_manager before in
    let (ch, expires, out, own, written) = replied format_seconds now random m encoded expiry h in
    let (_, x, _) = handed_out now random m ch expires f out in
    (
      expires / second,
      written,
      omega (arith, x),
      omega (arith, x),
      rw (own, x)
          (is_valid-current_challenge before after now random ch expires t fill f out (rw x at b)),
    )
