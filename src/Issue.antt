-- ===== src/Issue.antt =====
-- `handleIssue` of server.go. The body arrives as what `json.Unmarshal` made of it. The format of a
-- time is an argument, and so are the readings of the clock. The detail texts of the errors and the
-- audit log are left out.
pub mod Grant
pub mod Replays
pub mod Unsigned
pub mod Genuine
use npvtunnel_creator_server.Base.{
  ℕ, zero, suc, ◌+◌, ◌-◌, ◌*◌, ◌/◌, Bool, true, false, not, ◌&&◌, ◌||◌, List, [], ◌∷◌, ◌++◌, Option,
  none, some, Bytes, Text, text, if◌then◌else◌, str_eq, length, take, drop, leb, ltb, ◌==◌, ℤ, pos,
  negsuc, is_pos, ltb_ℤ,
}
use npvtunnel_creator_server.Base64.{decode_string, encode_to_string}
use npvtunnel_creator_server.RateLimit.{RateLimiter, Decision, allow}
use npvtunnel_creator_server.Replay.{ReplayCache, use_key}
use npvtunnel_creator_server.Challenge.{ChallengeManager, is_valid}
use npvtunnel_creator_server.Policy.{
  TextOps, AttestationBlob, AttestationArm, AttestationPolicy, Verifiers, mode_strict, arm_for,
  android_verifier_name, lookup_verifier, new_verifier_registry,
}
use npvtunnel_creator_server.Policy.Evaluate.{
  AttestationDecision, Evaluated, decided, unresolved, evaluate_attestation_policy,
  resolve_issuance_limit,
}
use npvtunnel_creator_server.Configs.{
  JsonShape, ConfigEntry, ConfigStore, Contents, Stat, config_by_id, reload_configs_if_changed,
  resolve_config_ttl,
}
use npvtunnel_creator_server.Signing.{
  IssueRequest, IssueBody, read_error, parse_error, parsed, Crypto, bar,
  verify_issue_request_signature, sign_receipt,
}

-- The parts of `Server` and `State` that the handler uses.
pub record IssueState : Type 0 where
  pub configs : ConfigStore
  pub issuance_limiter : RateLimiter
  pub attestation_challenges : ChallengeManager
  pub request_replay : ReplayCache

-- What stands around one request: the libraries, the config file, and the four clock readings.
pub record Around : Type 0 where
  pub ops : TextOps
  pub verifiers : Verifiers
  pub crypto : Crypto
  pub json_shape : Bytes → JsonShape
  pub format_time : ℤ → Text
  pub stat : Stat
  pub file : Option Contents
  pub replay_now : ℕ
  pub challenge_now : ℕ
  pub limit_now : ℕ
  pub grant_now : ℕ

-- The status with its error code, or the body of a success.
pub data IssueReply : Type 0 where
  issue_error : ℕ → Text → IssueReply
  rate_limited : ℕ → IssueReply
  issued : Text → Text → Text → IssueReply

abbrev pub hour : ℕ
hour = 3_600 * 1_000_000_000

abbrev default_issuance_limit_per_hour : ℤ
default_issuance_limit_per_hour = pos 30

-- `now.Add(ttl)`
abbrev pub add_ttl : ℕ → ℤ → ℤ
add_ttl now (pos n) = pos (now + n)
add_ttl now (negsuc n) = if ltb n now then pos (now - suc n) else negsuc (n - now)

abbrev pub is_int : ℕ → ℤ → Bool
is_int n (pos m) = n == m
is_int n (negsuc m) = false

abbrev pub of_signature : Option Bool → Option (ℕ × Text)
of_signature none = some (400, text "bad_signature")
of_signature (some false) = some (401, text "bad_signature")
of_signature (some true) = none

-- The tests that read no state: version, required fields, signature.
unfoldable pub check_request : Crypto → IssueRequest → Option (ℕ × Text)
check_request c req =
    if not (is_int 1 req.v) && not (is_int 2 req.v)
    then some (400, text "unsupported_version")
    else if str_eq req.device_pk []
        || str_eq req.request_nonce []
        || str_eq req.request_signature []
        || str_eq req.config_id []
    then some (400, text "bad_request")
    else of_signature (verify_issue_request_signature c req)

abbrev pub replay_key : IssueRequest → Text
replay_key req = req.device_pk ++ bar ++ req.config_id ++ bar ++ req.request_nonce

abbrev pub limiter_key : IssueRequest → Text
limiter_key req = req.device_pk ++ bar ++ req.config_id

abbrev pub is_nonce : Option Bytes → Bool
is_nonce none = false
is_nonce (some nonce) = length nonce == 16

abbrev pub if_fresh : ReplayCache × Bool → ReplayCache × Option (ℕ × Text)
if_fresh (cache, true) = (cache, none)
if_fresh (cache, false) = (cache, some (409, text "replayed_request"))

-- From version 2 on, the nonce is checked and used up.
unfoldable pub check_replay : ℕ → IssueRequest → ReplayCache → ReplayCache × Option (ℕ × Text)
check_replay now req cache =
    if not (ltb_ℤ (pos 1) req.v)
    then (cache, none)
    else if not (is_nonce (decode_string req.request_nonce))
    then (cache, some (400, text "bad_request"))
    else if_fresh (use_key (replay_key req) now (25 * hour) cache)

abbrev pub names_android : Option AttestationArm → Bool
names_android none = false
names_android (some arm) = str_eq arm.verifier android_verifier_name

abbrev pub is_strict : Option AttestationPolicy → Bool
is_strict none = false
is_strict (some p) = str_eq p.mode mode_strict

-- The tests on a request that has to be bound to its key.
abbrev pub binding_refusal : ℕ → IssueRequest → ChallengeManager → Option (ℕ × Text)
binding_refusal now req challenges =
    if ltb_ℤ req.v (pos 2)
      || not (str_eq req.attestation.bound_device_pk req.device_pk)
      || str_eq req.attestation.proof []
    then some (401, text "attestation_failed")
    else if not (is_valid req.attestation.nonce now challenges)
    then some (401, text "attestation_failed")
    else none

-- A strict Android policy binds the attestation to the request key and a live challenge.
unfoldable pub check_binding :
    TextOps → ℕ → IssueRequest → Option AttestationPolicy → ChallengeManager → Option (ℕ × Text)
check_binding ops now req policy challenges =
    if names_android (arm_for ops policy req.attestation.platform) && is_strict policy
    then binding_refusal now req challenges
    else none

unfoldable pub issuance_limit : Option AttestationPolicy → ℤ
issuance_limit policy =
    let pl = resolve_issuance_limit policy in
    if is_pos pl then pl else default_issuance_limit_per_hour

-- `int(decision.RetryAfter.Seconds() + 0.5)`, at least 1.
abbrev pub retry_after_sec : ℕ → ℕ
retry_after_sec wait =
    let sec = (wait + 500_000_000) / 1_000_000_000 in if ltb sec 1 then 1 else sec

abbrev pub with_receipt : Text → Text → Option Text → IssueReply
with_receipt config_b64 expires_at none = issue_error 500 (text "server_error")
with_receipt config_b64 expires_at (some receipt) = issued config_b64 expires_at receipt

unfoldable pub grant : Around → IssueRequest → ConfigEntry → AttestationDecision → IssueReply
grant a req entry d =
    let config_b64 = encode_to_string entry.config in
    let expires_at = a.format_time (add_ttl a.grant_now d.ttl) in
    with_receipt config_b64 expires_at
      (sign_receipt a.crypto req.device_pk req.request_nonce expires_at config_b64)

abbrev pub or_reject {ℓ} : {R : Type ℓ} → Option R → IssueReply → IssueReply
or_reject none reply = reply
or_reject (some reason) reply = issue_error 401 (text "attestation_failed")

unfoldable pub reply_to : Around → IssueRequest → ConfigEntry → Evaluated → IssueReply
reply_to a req entry (unresolved name) = issue_error 500 (text "server_error")
reply_to a req entry (decided d) = or_reject d.reject (grant a req entry d)

abbrev pub evaluated : Around → IssueRequest → ConfigEntry → Evaluated
evaluated a req entry =
    evaluate_attestation_policy a.ops a.verifiers entry.attestation_policy req.attestation
      (lookup_verifier new_verifier_registry) (resolve_config_ttl (some entry))

abbrev pub after_limit :
    Around
    → IssueRequest
    → ConfigEntry
    → IssueState
    → RateLimiter × Decision
    → IssueState × IssueReply
after_limit a req entry s (limiter, decision) = (
  record {
    configs = s.configs;
    issuance_limiter = limiter;
    attestation_challenges = s.attestation_challenges;
    request_replay = s.request_replay;
  },
  if not decision.allowed
      then rate_limited (retry_after_sec decision.retry_after)
      else reply_to a req entry (evaluated a req entry),
)

-- The limit of the device and the config, over an hour.
abbrev pub limited : Around → IssueRequest → ConfigEntry → IssueState → RateLimiter × Decision
limited a req entry s =
    allow (limiter_key req) (issuance_limit entry.attestation_policy) hour a.limit_now
      s.issuance_limiter

abbrev pub after_binding :
    Around → IssueRequest → ConfigEntry → IssueState → Option (ℕ × Text) → IssueState × IssueReply
after_binding a req entry s (some (status, code)) = (s, issue_error status code)
after_binding a req entry s none = after_limit a req entry s (limited a req entry s)

abbrev pub on_entry :
    Around → IssueRequest → IssueState → Option ConfigEntry → IssueState × IssueReply
on_entry a req s none = (s, issue_error 404 (text "config_not_found"))
on_entry a req s (some entry) =
    after_binding a req entry s
      (check_binding a.ops a.challenge_now req entry.attestation_policy s.attestation_challenges)

abbrev pub with_replay : ReplayCache → IssueState → IssueState
with_replay cache s = record {
  configs = s.configs;
  issuance_limiter = s.issuance_limiter;
  attestation_challenges = s.attestation_challenges;
  request_replay = cache;
}

abbrev pub after_nonce :
    Around → IssueRequest → IssueState → Option (ℕ × Text) → IssueState × IssueReply
after_nonce a req s none = on_entry a req s (config_by_id req.config_id s.configs)
after_nonce a req s (some (status, code)) = (s, issue_error status code)

abbrev pub after_replay :
    Around → IssueRequest → IssueState → ReplayCache × Option (ℕ × Text) → IssueState × IssueReply
after_replay a req s (cache, refusal) = after_nonce a req (with_replay cache s) refusal

abbrev pub after_check :
    Around → IssueRequest → IssueState → Option (ℕ × Text) → IssueState × IssueReply
after_check a req s (some (status, code)) = (s, issue_error status code)
after_check a req s none = after_replay a req s (check_replay a.replay_now req s.request_replay)

unfoldable pub handle_body : Around → IssueBody → IssueState → IssueState × IssueReply
handle_body a read_error s = (s, issue_error 400 (text "bad_request"))
handle_body a parse_error s = (s, issue_error 400 (text "bad_request"))
handle_body a (parsed req) s = after_check a req s (check_request a.crypto req)

abbrev pub reload : Around → IssueState → IssueState
reload a s = record {
  configs = (reload_configs_if_changed a.json_shape a.stat a.file s.configs).0;
  issuance_limiter = s.issuance_limiter;
  attestation_challenges = s.attestation_challenges;
  request_replay = s.request_replay;
}

unfoldable pub handle_issue : Around → IssueBody → IssueState → IssueState × IssueReply
handle_issue a body s = handle_body a body (reload a s)
