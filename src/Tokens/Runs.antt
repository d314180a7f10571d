-- ===== src/Tokens/Runs.antt =====
-- The token operations of state.go: a history of them, and the ways in which each can end.
use npvtunnel_creator_server.Base.{
  ◌≡◌, ◌≢◌, ◌⊎◌, inl, inr, refl, Text, Bool, true, false, List, [], ◌∷◌, Option, none, some, is_pos,
  lookup, insert, erase, ℤ, arith, Option-cases, Bool-cases,
}
use npvtunnel_creator_server.Tokens.{RedemptionToken, validate_redemption_token}
use npvtunnel_creator_server.Tokens.Store.{
  Store, WriteResult, write_failed, written, written_unseen, consumed, persist,
  persist_redemption_tokens, with_tokens, charge, has_expired, charged, consume_redemption_token,
  add_redemption_token, remove_redemption_token, reload_redemption_tokens_if_changed,
}

-- The operations, each with the time and the fate of its write.
pub data Operation : Type 0 where
  consumes : Text → ℤ → WriteResult → Operation
  adds : RedemptionToken → WriteResult → Operation
  removes : Text → WriteResult → Operation
  reloads : Bool → Operation

unfoldable pub step : (Text → Option ℤ) → Operation → Store → Store
step parse_time (consumes token now w) s = (consume_redemption_token parse_time token now w s).0
step parse_time (adds entry w) s = (add_redemption_token entry w s).0
step parse_time (removes token w) s = (remove_redemption_token token w s).0
step parse_time (reloads stat_fails) s = (reload_redemption_tokens_if_changed stat_fails s).0

unfoldable pub run : (Text → Option ℤ) → List Operation → Store → Store
run parse_time [] s = s
run parse_time (o ∷ os) s = run parse_time os (step parse_time o s)

pub persist-tokens : (w : WriteResult) (s : Store) → (persist w s).tokens ≡ s.tokens
unfolding persist_redemption_tokens
persist-tokens write_failed s = ground arith
persist-tokens (written m) s = ground arith
persist-tokens (written_unseen m) s = ground arith

charge_cases :
    (parse_time : Text → Option ℤ) (token : Text) (now : ℤ) (w : WriteResult) (s : Store)
    (o : Option RedemptionToken)
    → let (s', result) = charge parse_time token now w s o in
      ((s' ≡ s) × (result ≢ consumed))
      ⊎ ((entry : RedemptionToken) × (o ≡ some entry)
          × (is_pos entry.remaining_redemptions ≡ true)
          × (has_expired parse_time now entry ≡ false)
          × (s' ≡ persist w (with_tokens (insert token (charged entry) s.tokens) s))
          × (result ≡ consumed))
charge_cases parse_time token now w s none = inl (refl, λ e. cc)
charge_cases parse_time token now w s (some entry) =
    elim (Bool-cases (is_pos entry.remaining_redemptions)) [
      | inl some_left ↦ elim (Bool-cases (has_expired parse_time now entry)) [
        | inl late ↦ rw (some_left, late) (inl (refl, λ e. cc))
        | inr fresh ↦ rw (some_left, fresh) (inr (entry, refl, some_left, fresh, refl, refl))
      ]
      | inr none_left ↦ rw none_left (inl (refl, λ e. cc))
    ]

-- A redemption is refused and changes nothing, or the token is known, not used up and not expired.
pub consume_cases :
    (parse_time : Text → Option ℤ) (token : Text) (now : ℤ) (w : WriteResult) (s : Store)
    → let (s', result) = consume_redemption_token parse_time token now w s in
      ((s' ≡ s) × (result ≢ consumed))
      ⊎ ((entry : RedemptionToken) × (lookup token s.tokens ≡ some entry)
          × (is_pos entry.remaining_redemptions ≡ true)
          × (has_expired parse_time now entry ≡ false)
          × (s' ≡ persist w (with_tokens (insert token (charged entry) s.tokens) s))
          × (result ≡ consumed))
unfolding consume_redemption_token
consume_cases parse_time token now w s =
    charge_cases parse_time token now w s (lookup token s.tokens)

-- The two operations that put in or take out one entry.
pub add_cases :
    (entry : RedemptionToken) (w : WriteResult) (s : Store)
    → let s' = (add_redemption_token entry w s).0 in
      (s' ≡ s)
      ⊎ ((validate_redemption_token entry ≡ none)
          × (lookup entry.token s.tokens ≡ none)
          × (s' ≡ persist w (with_tokens (insert entry.token entry s.tokens) s)))
unfolding add_redemption_token
add_cases entry w s = elim (Option-cases (validate_redemption_token entry)) [
  | inl valid ↦ elim (Option-cases (lookup entry.token s.tokens)) [
    | inl unknown ↦ rw (valid, unknown) (inr (refl, refl, refl))
    | inr (other, known) ↦ rw (valid, known) (inl refl)
  ]
  | inr (err, invalid) ↦ rw invalid (inl refl)
]

pub remove_cases :
    (token : Text) (w : WriteResult) (s : Store)
    → let s' = (remove_redemption_token token w s).0 in
      (s' ≡ s) ⊎ (s' ≡ persist w (with_tokens (erase token s.tokens) s))
unfolding remove_redemption_token
remove_cases token w s = elim (Option-cases (lookup token s.tokens)) [
  | inl unknown ↦ rw unknown (inl refl)
  | inr (entry, known) ↦ rw known (inr refl)
]
