-- ===== src/Redeem/Charge.antt =====
-- `handleRedeem` of redeem.go and `ConsumeRedemptionToken` of state.go.
use npvtunnel_creator_server.Base.{
  ℕ, ◌≡◌, ◌≢◌, inl, inr, refl, ap, Bool, true, false, not, ◌||◌, List, [], ◌∷◌, Option, none, some,
  Bytes, Text, text, if◌then◌else◌, str_eq, length, lookup, insert, ◌==◌, is_pos, arith, Bool-cases,
}
use npvtunnel_creator_server.Base64.{decode_string}
use npvtunnel_creator_server.RateLimit.{RateLimiter, Decision}
use npvtunnel_creator_server.Configs.{ConfigEntry, ConfigStore, config_by_id, has_config_registry}
use npvtunnel_creator_server.Tokens.{RedemptionToken}
use npvtunnel_creator_server.Tokens.Store.{
  Store, ConsumeResult, consumed, token_not_found, token_exhausted, token_expired, has_expired,
  charged, persist, lookup_redemption_token, consume_redemption_token,
}
use npvtunnel_creator_server.Tokens.Store
use npvtunnel_creator_server.Tokens.Runs.{consume_cases}
use npvtunnel_creator_server.Redeem.{
  RedeemRequest, RedeemBody, read_error, parse_error, parsed, RedeemState, Around, RedeemReply,
  redeem_error, rate_limited, redeemed, payload, Minted, minted, mint_error, and_then, mint_id,
  mint_entry, mint_all, consume_reply, after_mint, on_token, on_pubkey, after_limit, limited,
  handle_body, handle_redeem, reload, with_limiter,
}
use npvtunnel_creator_server.Issue.{is_int}

-- An envelope for each config, in order, minted from the registered config under its decoded id.
abbrev pub Minting : Around → ConfigStore → Bytes → List Text → List Bytes → Type 0
Minting a configs recipient [] [] = Unit
Minting a configs recipient (id ∷ ids) (envelope ∷ envelopes) =
    ((entry : ConfigEntry) × (config_id : Bytes) × (config_by_id id configs ≡ some entry)
      × (decode_string id ≡ some config_id)
      × (length config_id ≡ 16)
      × (a.mint entry recipient config_id ≡ some envelope))
    × Minting a configs recipient ids envelopes
Minting a configs recipient _ _ = ⊥

and_then-minted :
    (o : Option Bytes) (rest : Minted) (envelopes : List Bytes)
    → and_then o rest ≡ minted envelopes
    → (e : Bytes) × (es : List Bytes) × (o ≡ some e) × (rest ≡ minted es) × (envelopes ≡ e ∷ es)
and_then-minted none rest envelopes h = absurd (cc h)
and_then-minted (some e) (minted es) envelopes h = (e, es, refl, refl, cc h)
and_then-minted (some e) (mint_error status code) envelopes h = absurd (cc h)

mint_id-minted :
    (a : Around) (recipient : Bytes) (entry : ConfigEntry) (o : Option Bytes) (rest : Minted)
    (envelopes : List Bytes)
    → mint_id a recipient entry o rest ≡ minted envelopes
    → (config_id : Bytes) × (o ≡ some config_id)
      × (length config_id ≡ 16)
      × (and_then (a.mint entry recipient config_id) rest ≡ minted envelopes)
mint_id-minted a recipient entry none rest envelopes h = absurd (cc h)
mint_id-minted a recipient entry (some id) rest envelopes h = elim (Bool-cases (length id == 16)) [
  | inl right ↦ (id, refl, ground arith, rw right at h)
  | inr wrong ↦ absurd (cc (rw wrong at h))
]

mint_entry-minted :
    (a : Around) (recipient : Bytes) (o : Option ConfigEntry) (id : Text) (rest : Minted)
    (envelopes : List Bytes)
    → mint_entry a recipient o id rest ≡ minted envelopes
    → (entry : ConfigEntry) × (o ≡ some entry)
      × (mint_id a recipient entry (decode_string id) rest ≡ minted envelopes)
mint_entry-minted a recipient none id rest envelopes h = absurd (cc h)
mint_entry-minted a recipient (some entry) id rest envelopes h = (entry, refl, h)

mint_all-Minting :
    (a : Around) (configs : ConfigStore) (recipient : Bytes) (ids : List Text)
    (envelopes : List Bytes)
    → mint_all a configs recipient ids ≡ minted envelopes
    → Minting a configs recipient ids envelopes
unfolding mint_all
mint_all-Minting a configs recipient [] envelopes h =
    let none_left : envelopes ≡ [] = cc h in rw none_left tt
mint_all-Minting a configs recipient (id ∷ ids) envelopes h =
    let (entry, known, h') =
      mint_entry-minted a recipient (config_by_id id configs) id (mint_all a configs recipient ids)
        envelopes h in
    let (config_id, decodes, sixteen, h'') =
      mint_id-minted a recipient entry (decode_string id) (mint_all a configs recipient ids)
        envelopes h' in
    let (e, es, mints, rest, all_of) =
      and_then-minted (a.mint entry recipient config_id) (mint_all a configs recipient ids)
        envelopes h'' in
    let minted_rest = mint_all-Minting a configs recipient ids es rest in
    rw all_of ((entry, config_id, known, decodes, sixteen, mints), minted_rest)

-- The reply is an error.
abbrev pub IsError : RedeemReply → Type 0
IsError (redeem_error status code) = Unit
IsError (rate_limited seconds) = Unit
IsError (redeemed body) = ⊥

-- What a request did: nothing to the tokens, with an error for a reply; or it redeemed a token that
-- was known, had a redemption left and had not expired, and the reply holds its envelopes.
pub data Outcome (a : Around) (body : RedeemBody) (s : RedeemState) (tokens : Store)
    (reply : RedeemReply) : Type 0 where
  refused : tokens ≡ s.tokens → IsError reply → Outcome a body s tokens reply
  charges :
      (req : RedeemRequest) (entry : RedemptionToken) (recipient : Bytes) (envelopes : List Bytes)
      → body ≡ parsed req
      → decode_string req.recipient_pubkey ≡ some recipient
      → length recipient ≡ 33
      → lookup req.token s.tokens.tokens ≡ some entry
      → is_pos entry.remaining_redemptions ≡ true
      → has_expired a.parse_time a.consume_now entry ≡ false
      → Minting a s.configs recipient entry.config_ids envelopes
      → tokens
        ≡ persist a.token_write
            (Store.with_tokens (insert req.token (charged entry) s.tokens.tokens) s.tokens)
      → reply ≡ redeemed (payload envelopes)
      → Outcome a body s tokens reply

consume_reply-IsError :
    (r : ConsumeResult) (envelopes : List Bytes)
    → r ≢ consumed
    → IsError (consume_reply r envelopes)
consume_reply-IsError consumed envelopes h = absurd (h refl)
consume_reply-IsError token_not_found envelopes h = tt
consume_reply-IsError token_exhausted envelopes h = tt
consume_reply-IsError token_expired envelopes h = tt

module _ (a : Around) (req : RedeemRequest) (s : RedeemState) where
  data Does (r : RedeemState × RedeemReply) : Type 0 where
    does : Outcome a (parsed req) s r.0.tokens r.1 → Does r

  outcome_of : (r : RedeemState × RedeemReply) → Does r → Outcome a (parsed req) s r.0.tokens r.1
  outcome_of r (does o) = o

  either :
      (b : Bool) (x y : RedeemState × RedeemReply) → Does x → Does y → Does (if b then x else y)
  either true x y dx dy = dx
  either false x y dx dy = dy

  module _ (l : RateLimiter) where
    abbrev counted : RedeemState
    counted = with_limiter l s

    error_Does : (status : ℕ) (code : Text) → Does (counted, redeem_error status code)
    error_Does status code = does (refused refl tt)

    module _ (recipient : Bytes) (decodes : decode_string req.recipient_pubkey ≡ some recipient)
        (long : length recipient ≡ 33) where
      after_mint-Does :
          (token : RedemptionToken) (m : Minted)
          → lookup req.token s.tokens.tokens ≡ some token
          → ((es : List Bytes) → m ≡ minted es → Minting a s.configs recipient token.config_ids es)
          → Does (after_mint a req counted m)
      after_mint-Does token (mint_error status code) known mints = error_Does status code
      after_mint-Does token (minted envelopes) known mints =
          elim (consume_cases a.parse_time req.token a.consume_now a.token_write s.tokens) [
            | inl (kept, failed) ↦ does (refused kept (consume_reply-IsError _ envelopes failed))
            | inr (entry, found, left, fresh, is, result) ↦
                let one : entry ≡ token = cc (known, found) in
                does (
                  charges req entry recipient envelopes refl decodes long found left fresh
                    (rw one (mints envelopes refl)) is (ap (λ r. consume_reply r envelopes) result))
          ]

      on_token-Does :
          (o : Option RedemptionToken)
          → lookup req.token s.tokens.tokens ≡ o
          → Does (on_token a req recipient counted o)
      on_token-Does none known = error_Does 404 (text "token_not_found")
      on_token-Does (some token) known =
          either (not (is_pos token.remaining_redemptions)) _ _
            (error_Does 410 (text "token_exhausted"))
            (either (has_expired a.parse_time a.check_now token) _ _
              (error_Does 410 (text "token_expired"))
              (either (str_eq a.public_issuer_url []) _ _ (error_Does 500 (text "server_error")) (
                either (not (has_config_registry s.configs)) _ _
                  (error_Does 500 (text "server_error"))
                  (either (length token.config_ids == 0) _ _ (error_Does 500 (text "server_error"))
                    (after_mint-Does token (mint_all a s.configs recipient token.config_ids) known
                      (λ es h. mint_all-Minting a s.configs recipient token.config_ids es h))))))

    on_pubkey-Does :
        (o : Option Bytes)
        → decode_string req.recipient_pubkey ≡ o
        → Does (on_pubkey a req counted o)
    on_pubkey-Does none e = error_Does 400 (text "bad_pubkey")
    on_pubkey-Does (some recipient) e = elim (Bool-cases (length recipient == 33)) [
      | inl right ↦ rw right (
          on_token-Does recipient e (ground arith) (lookup_redemption_token req.token s.tokens)
            (unfold lookup_redemption_token in refl))
      | inr wrong ↦ rw wrong (error_Does 400 (text "bad_pubkey"))
    ]

  after_limit-Does : (r : RateLimiter × Decision) → Does (after_limit a req s r)
  after_limit-Does (l, decision) =
      either (not decision.allowed) _ _ (does (refused refl tt))
        (on_pubkey-Does l (decode_string req.recipient_pubkey) refl)

-- Every request either leaves the tokens as the reload of the file left them and gets an error, or
-- it redeems its token exactly once: the token was known, had a redemption left and had not
-- expired, and the reply is one envelope for each config of the token, each minted for the
-- recipient from the registered config.
pub handle_redeem-Outcome :
    (a : Around) (body : RedeemBody) (s : RedeemState)
    → let (s', reply) = handle_redeem a body s in Outcome a body (reload a s) s'.tokens reply
unfolding handle_redeem handle_body
handle_redeem-Outcome a read_error s = refused refl tt
handle_redeem-Outcome a parse_error s = refused refl tt
handle_redeem-Outcome a (parsed req) s =
    let start = reload a s in
    outcome_of a req start _ (
      either a req start (not (is_int 1 req.v)) _ _ (does (refused refl tt)) (
        either a req start (str_eq req.token [] || str_eq req.recipient_pubkey []) _ _
          (does (refused refl tt)) (after_limit-Does a req start (limited a start))))
