-- ===== src/Tokens/Status.antt =====
-- `tokenStatus` of management.go, which the dashboard shows, against `ConsumeRedemptionToken`.
use npvtunnel_creator_server.Base.{
  ℕ, suc, ◌+◌, ◌-◌, ◌*◌, ◌≡◌, refl, not, Option, none, some, [], Text, text, if◌then◌else◌, str_eq,
  ltb, lookup, ℤ, pos, negsuc, is_pos, ltb_ℤ, Option-cases, Bool-cases, inl, inr,
}
use npvtunnel_creator_server.Tokens.{RedemptionToken}
use npvtunnel_creator_server.Tokens.Store.{
  Store, WriteResult, ConsumeResult, consumed, token_exhausted, token_expired,
  consume_redemption_token,
}

pub data TokenStatusCode : Type 0 where
  status_live status_expiring status_expired status_exhausted : TokenStatusCode

-- A number of nanoseconds after a time.
abbrev later_by : ℕ → ℤ → ℤ
later_by n (pos t) = pos (t + n)
later_by n (negsuc t) = if ltb t n then pos (n - suc t) else negsuc (t - n)

abbrev pub a_day : ℕ
a_day = 24 * 3_600 * 1_000_000_000

abbrev before_expiry : ℤ → Option ℤ → Text × TokenStatusCode
before_expiry now none = (text "live", status_live)
before_expiry now (some expiry) =
    if ltb_ℤ expiry now
    then (text "expired", status_expired)
    else if ltb_ℤ expiry (later_by a_day now)
    then (text "expiring", status_expiring)
    else (text "live", status_live)

unfoldable pub token_status : (Text → Option ℤ) → RedemptionToken → ℤ → Text × TokenStatusCode
token_status parse_time token now =
    if not (is_pos token.remaining_redemptions)
    then (text "exhausted", status_exhausted)
    else if str_eq token.expires_at []
    then (text "live", status_live)
    else before_expiry now (parse_time token.expires_at)

-- What a redemption gives.
abbrev pub redeems : TokenStatusCode → ConsumeResult
redeems status_live = consumed
redeems status_expiring = consumed
redeems status_expired = token_expired
redeems status_exhausted = token_exhausted

-- The status that the dashboard shows of a token is what a redemption at that time does: a live or
-- expiring token is consumed, an expired or exhausted one is refused for that reason.
pub token_status-consume :
    (parse_time : Text → Option ℤ) (token : Text) (now : ℤ) (w : WriteResult) (s : Store)
    (entry : RedemptionToken)
    → lookup token s.tokens ≡ some entry
    → (consume_redemption_token parse_time token now w s).1
      ≡ redeems (token_status parse_time entry now).1
unfolding consume_redemption_token token_status
token_status-consume parse_time token now w s entry h =
    rw h (elim (Bool-cases (is_pos entry.remaining_redemptions)) [
      | inr spent ↦ rw spent refl
      | inl left ↦ elim (Bool-cases (str_eq entry.expires_at [])) [
        | inl forever ↦ rw (left, forever) refl
        | inr dated ↦ elim (Option-cases (parse_time entry.expires_at)) [
          | inl unread ↦ rw (left, dated, unread) refl
          | inr (expiry, e) ↦ elim (Bool-cases (ltb_ℤ expiry now)) [
            | inl past ↦ rw (left, dated, e, past) refl
            | inr ahead ↦ elim (Bool-cases (ltb_ℤ expiry (later_by a_day now))) [
              | inl soon ↦ rw (left, dated, e, ahead, soon) refl
              | inr later ↦ rw (left, dated, e, ahead, later) refl
            ]
          ]
        ]
      ]
    ])
