-- ===== src/Redeem.antt =====
-- `handleRedeem` of redeem.go. The minting of an envelope (`mintIssuerEnvelope` on the input that
-- `redemptionMintInput` builds) is an argument, and so are the readings of the clock and the fate of
-- the write of the token file. The detail texts and the audit log are left out.
pub mod Charge
use npvtunnel_creator_server.Base.{
  ℕ, ◌*◌, Bool, true, false, not, ◌||◌, List, [], ◌∷◌, Option, none, some, Bytes, Text, text,
  if◌then◌else◌, str_eq, length, ◌==◌, map, ℤ, pos, negsuc, is_pos,
}
use npvtunnel_creator_server.Base64.{decode_string, encode_to_string}
use npvtunnel_creator_server.RateLimit.{RateLimiter, Decision, allow}
use npvtunnel_creator_server.Policy.{TextOps}
use npvtunnel_creator_server.Configs.{
  JsonShape, ConfigEntry, ConfigStore, Contents, Stat, config_by_id, has_config_registry,
  reload_configs_if_changed,
}
use npvtunnel_creator_server.Tokens.{RedemptionToken}
use npvtunnel_creator_server.Tokens.Store.{
  Store, WriteResult, ConsumeResult, consumed, token_not_found, token_exhausted, token_expired,
  has_expired, lookup_redemption_token, consume_redemption_token,
  reload_redemption_tokens_if_changed,
}
use npvtunnel_creator_server.ClientIp.{Addresses, client_ip}
use npvtunnel_creator_server.Issue.{is_int, retry_after_sec, hour}

pub record RedeemRequest : Type 0 where
  pub v : ℤ
  pub token : Text
  pub recipient_pubkey : Text

pub data RedeemBody : Type 0 where
  read_error parse_error : RedeemBody
  parsed : RedeemRequest → RedeemBody

pub record RedeemState : Type 0 where
  pub tokens : Store
  pub configs : ConfigStore
  pub redemption_limiter : RateLimiter

-- What stands around one request.
pub record Around : Type 0 where
  pub ops : TextOps
  pub net : Addresses
  pub parse_time : Text → Option ℤ
  pub json_shape : Bytes → JsonShape
  pub mint : ConfigEntry → Bytes → Bytes → Option Bytes
  pub public_issuer_url : Text
  pub trusted_proxies : List Text
  pub remote_addr : Text
  pub forwarded_for : Text
  pub token_stat_fails : Bool
  pub config_stat : Stat
  pub config_file : Option Contents
  pub limit_now : ℕ
  pub check_now : ℤ
  pub consume_now : ℤ
  pub token_write : WriteResult

-- One envelope is sent as it is, several in base64.
pub data Payload : Type 0 where
  share_file : Bytes → Payload
  redeem_bundle : List Text → Payload

pub data RedeemReply : Type 0 where
  redeem_error : ℕ → Text → RedeemReply
  rate_limited : ℕ → RedeemReply
  redeemed : Payload → RedeemReply

unfoldable pub payload : List Bytes → Payload
payload (envelope ∷ []) = share_file envelope
payload envelopes = redeem_bundle (map encode_to_string envelopes)

pub data Minted : Type 0 where
  minted : List Bytes → Minted
  mint_error : ℕ → Text → Minted

abbrev pub server_error : Minted
server_error = mint_error 500 (text "server_error")

abbrev pub and_then : Option Bytes → Minted → Minted
and_then none rest = mint_error 400 (text "bad_pubkey")
and_then (some envelope) (minted envelopes) = minted (envelope ∷ envelopes)
and_then (some envelope) (mint_error status code) = mint_error status code

abbrev pub mint_id : Around → Bytes → ConfigEntry → Option Bytes → Minted → Minted
mint_id a recipient entry none rest = server_error
mint_id a recipient entry (some config_id) rest =
    if not (length config_id == 16)
    then server_error
    else and_then (a.mint entry recipient config_id) rest

abbrev pub mint_entry : Around → Bytes → Option ConfigEntry → Text → Minted → Minted
mint_entry a recipient none id rest = server_error
mint_entry a recipient (some entry) id rest = mint_id a recipient entry (decode_string id) rest

-- The loop over the configs of the token; the first error ends it.
unfoldable pub mint_all : Around → ConfigStore → Bytes → List Text → Minted
mint_all a configs recipient [] = minted []
mint_all a configs recipient (id ∷ ids) =
    let rest = mint_all a configs recipient ids in
    mint_entry a recipient (config_by_id id configs) id rest

abbrev pub consume_reply : ConsumeResult → List Bytes → RedeemReply
consume_reply consumed envelopes = redeemed (payload envelopes)
consume_reply token_not_found envelopes = redeem_error 404 (text "token_not_found")
consume_reply token_exhausted envelopes = redeem_error 410 (text "token_exhausted")
consume_reply token_expired envelopes = redeem_error 410 (text "token_expired")

abbrev pub with_tokens : Store → RedeemState → RedeemState
with_tokens tokens s = record {
  tokens = tokens;
  configs = s.configs;
  redemption_limiter = s.redemption_limiter;
}

abbrev pub after_consume :
    RedeemState → List Bytes → Store × ConsumeResult → RedeemState × RedeemReply
after_consume s envelopes (tokens, result) = (with_tokens tokens s, consume_reply result envelopes)

abbrev pub after_mint : Around → RedeemRequest → RedeemState → Minted → RedeemState × RedeemReply
after_mint a req s (mint_error status code) = (s, redeem_error status code)
after_mint a req s (minted envelopes) =
    after_consume s envelopes
      (consume_redemption_token a.parse_time req.token a.consume_now a.token_write s.tokens)

abbrev pub on_token :
    Around
    → RedeemRequest
    → Bytes
    → RedeemState
    → Option RedemptionToken
    → RedeemState × RedeemReply
on_token a req recipient s none = (s, redeem_error 404 (text "token_not_found"))
on_token a req recipient s (some token) =
    if not (is_pos token.remaining_redemptions)
    then (s, redeem_error 410 (text "token_exhausted"))
    else if has_expired a.parse_time a.check_now token
    then (s, redeem_error 410 (text "token_expired"))
    else if str_eq a.public_issuer_url []
    then (s, redeem_error 500 (text "server_error"))
    else if not (has_config_registry s.configs)
    then (s, redeem_error 500 (text "server_error"))
    else if length token.config_ids == 0
    then (s, redeem_error 500 (text "server_error"))
    else after_mint a req s (mint_all a s.configs recipient token.config_ids)

abbrev pub on_pubkey :
    Around → RedeemRequest → RedeemState → Option Bytes → RedeemState × RedeemReply
on_pubkey a req s none = (s, redeem_error 400 (text "bad_pubkey"))
on_pubkey a req s (some recipient) =
    if not (length recipient == 33)
    then (s, redeem_error 400 (text "bad_pubkey"))
    else on_token a req recipient s (lookup_redemption_token req.token s.tokens)

abbrev pub with_limiter : RateLimiter → RedeemState → RedeemState
with_limiter limiter s = record {
  tokens = s.tokens;
  configs = s.configs;
  redemption_limiter = limiter;
}

abbrev pub after_limit :
    Around → RedeemRequest → RedeemState → RateLimiter × Decision → RedeemState × RedeemReply
after_limit a req s (limiter, decision) =
    if not decision.allowed
    then (with_limiter limiter s, rate_limited (retry_after_sec decision.retry_after))
    else on_pubkey a req (with_limiter limiter s) (decode_string req.recipient_pubkey)

abbrev pub redeem_max_per_ip_per_hour : ℤ
redeem_max_per_ip_per_hour = pos 30

abbrev pub limited : Around → RedeemState → RateLimiter × Decision
limited a s =
    allow (client_ip a.ops a.net a.remote_addr a.forwarded_for a.trusted_proxies)
      redeem_max_per_ip_per_hour hour a.limit_now s.redemption_limiter

unfoldable pub handle_body : Around → RedeemBody → RedeemState → RedeemState × RedeemReply
handle_body a read_error s = (s, redeem_error 400 (text "bad_request"))
handle_body a parse_error s = (s, redeem_error 400 (text "bad_request"))
handle_body a (parsed req) s =
    if not (is_int 1 req.v)
    then (s, redeem_error 400 (text "bad_request"))
    else if str_eq req.token [] || str_eq req.recipient_pubkey []
    then (s, redeem_error 400 (text "bad_request"))
    else after_limit a req s (limited a s)

-- Both files are looked at first.
abbrev pub reload : Around → RedeemState → RedeemState
reload a s = record {
  tokens = (reload_redemption_tokens_if_changed a.token_stat_fails s.tokens).0;
  configs = (reload_configs_if_changed a.json_shape a.config_stat a.config_file s.configs).0;
  redemption_limiter = s.redemption_limiter;
}

unfoldable pub handle_redeem : Around → RedeemBody → RedeemState → RedeemState × RedeemReply
handle_redeem a body s = handle_body a body (reload a s)
