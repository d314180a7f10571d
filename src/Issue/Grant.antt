-- ===== src/Issue/Grant.antt =====
-- `handleIssue` of server.go, where it issues a config.
use npvtunnel_creator_server.Base.{
  ℕ, ◌*◌, ◌≡◌, ◌≢◌, ◌⊎◌, inl, inr, refl, Bool, true, false, [], Option, none, some, Bytes, Text,
  str_eq, str_eq_iff, length, pos, arith, Bool-cases, Option-cases,
}
use npvtunnel_creator_server.Base64.{decode_string, encode_to_string}
use npvtunnel_creator_server.RateLimit.{RateLimiter, Decision}
use npvtunnel_creator_server.Replay.{ReplayCache, use_key}
use npvtunnel_creator_server.Challenge.{ChallengeManager, is_valid}
use npvtunnel_creator_server.Policy.{
  TextOps, AttestationArm, AttestationPolicy, mode_strict, arm_for, android_verifier_name,
}
use npvtunnel_creator_server.Policy.Evaluate.{AttestationDecision, Evaluated, decided, unresolved}
use npvtunnel_creator_server.Configs.{ConfigEntry, config_by_id}
use npvtunnel_creator_server.Signing.{
  IssueRequest, IssueBody, read_error, parse_error, parsed, Crypto, verify_issue_request_signature,
}
use npvtunnel_creator_server.Issue.{
  IssueState, Around, IssueReply, issued, hour, add_ttl, check_request, replay_key, is_nonce,
  if_fresh, check_replay, check_binding, binding_refusal, with_receipt, reply_to, grant, evaluated,
  limited, after_limit, on_entry, after_replay, after_check, with_replay, handle_body, handle_issue,
  reload,
}

pub check_request-none :
    (c : Crypto) (req : IssueRequest)
    → check_request c req ≡ none
    → ((req.v ≡ pos 1) ⊎ (req.v ≡ pos 2)) × (verify_issue_request_signature c req ≡ some true)
unfolding check_request
check_request-none c req h = (ground arith, ground arith)

-- A request of version 2 brings a nonce of 16 bytes that the replay cache does not hold for it; of
-- version 1 nothing is asked.
abbrev pub IsFresh : ℕ → IssueRequest → ReplayCache → Type 0
IsFresh now req cache =
    (req.v ≡ pos 1)
    ⊎ ((nonce : Bytes) × (decode_string req.request_nonce ≡ some nonce)
        × (length nonce ≡ 16)
        × ((use_key (replay_key req) now (25 * hour) cache).1 ≡ true))

is_nonce-length :
    (o : Option Bytes)
    → is_nonce o ≡ true
    → (nonce : Bytes) × (o ≡ some nonce) × (length nonce ≡ 16)
is_nonce-length none h = absurd (cc h)
is_nonce-length (some nonce) h = (nonce, refl, ground arith)

pub if_fresh-none : (r : ReplayCache × Bool) → (if_fresh r).1 ≡ none → r.1 ≡ true
if_fresh-none (cache, true) h = refl
if_fresh-none (cache, false) h = absurd (cc h)

check_replay-none :
    (now : ℕ) (req : IssueRequest) (cache : ReplayCache)
    → (req.v ≡ pos 1) ⊎ (req.v ≡ pos 2)
    → (check_replay now req cache).1 ≡ none
    → IsFresh now req cache
unfolding check_replay
check_replay-none now req cache (inl one) h = inl one
check_replay-none now req cache (inr two) h =
    elim (Bool-cases (is_nonce (decode_string req.request_nonce))) [
      | inl sixteen ↦
          let (nonce, is, len) = is_nonce-length (decode_string req.request_nonce) sixteen in
          inr (nonce, is, len, if_fresh-none _ (rw (two, sixteen) at h))
      | inr other ↦ absurd (cc (rw (two, other) at h))
    ]

-- Under a strict policy whose arm for the platform is Android's, the attestation is bound to the key
-- of the request and answers a live challenge.
abbrev pub IsBound :
    TextOps → ℕ → IssueRequest → Option AttestationPolicy → ChallengeManager → Type 0
IsBound ops now req o challenges =
    (policy : AttestationPolicy) (arm : AttestationArm)
    → o ≡ some policy
    → arm_for ops (some policy) req.attestation.platform ≡ some arm
    → arm.verifier ≡ android_verifier_name
    → policy.mode ≡ mode_strict
    → (req.v ≢ pos 1)
      × (req.attestation.bound_device_pk ≡ req.device_pk)
      × (req.attestation.proof ≢ [])
      × (is_valid req.attestation.nonce now challenges ≡ true)

binding_tests :
    (now : ℕ) (req : IssueRequest) (challenges : ChallengeManager)
    → binding_refusal now req challenges ≡ none
    → (req.v ≢ pos 1)
      × (req.attestation.bound_device_pk ≡ req.device_pk)
      × (req.attestation.proof ≢ [])
      × (is_valid req.attestation.nonce now challenges ≡ true)
binding_tests now req challenges h = (
  λ one. ground arith,
  ground (arith, str_eq_iff req.attestation.bound_device_pk req.device_pk),
  (λ bare. ground (arith, str_eq_iff req.attestation.proof [])),
  ground arith,
)

check_binding-none :
    (ops : TextOps) (now : ℕ) (req : IssueRequest) (o : Option AttestationPolicy)
    (challenges : ChallengeManager)
    → check_binding ops now req o challenges ≡ none
    → IsBound ops now req o challenges
unfolding check_binding
check_binding-none ops now req o challenges h policy arm is has android strict =
    let a : str_eq arm.verifier android_verifier_name ≡ true =
      (str_eq_iff arm.verifier android_verifier_name).1 android in
    let s : str_eq policy.mode mode_strict ≡ true = (str_eq_iff policy.mode mode_strict).1 strict in
    binding_tests now req challenges (rw (is, has, a, s) at h)

-- What a granted request has shown, in the state that the config reload left.
pub record Earned (a : Around) (req : IssueRequest) (s : IssueState) (config_b64 expires_at : Text)
    : Type 0 where
  pub version : (req.v ≡ pos 1) ⊎ (req.v ≡ pos 2)
  pub signed : verify_issue_request_signature a.crypto req ≡ some true
  pub fresh : IsFresh a.replay_now req s.request_replay
  pub entry : ConfigEntry
  pub known : config_by_id req.config_id s.configs ≡ some entry
  pub bound : IsBound a.ops a.challenge_now req entry.attestation_policy s.attestation_challenges
  pub within_limit : (limited a req entry s).1.allowed ≡ true
  pub decision : AttestationDecision
  pub evaluates : evaluated a req entry ≡ decided decision
  pub passes : decision.reject ≡ none
  pub payload : config_b64 ≡ encode_to_string entry.config
  pub lifetime : expires_at ≡ a.format_time (add_ttl a.grant_now decision.ttl)

module _ (a : Around) (req : IssueRequest) (config_b64 expires_at receipt : Text) where
  abbrev success : IssueReply
  success = issued config_b64 expires_at receipt

  with_receipt-issued :
      (b e : Text) (o : Option Text)
      → with_receipt b e o ≡ success
      → (config_b64 ≡ b) × (expires_at ≡ e)
  with_receipt-issued b e none h = absurd (cc h)
  with_receipt-issued b e (some r) h = (cc h, cc h)

  reply_to-issued :
      (entry : ConfigEntry) (v : Evaluated)
      → reply_to a req entry v ≡ success
      → (d : AttestationDecision) × (v ≡ decided d)
        × (d.reject ≡ none)
        × (config_b64 ≡ encode_to_string entry.config)
        × (expires_at ≡ a.format_time (add_ttl a.grant_now d.ttl))
  unfolding reply_to grant
  reply_to-issued entry (unresolved name) h = absurd (cc h)
  reply_to-issued entry (decided d) h = elim (Option-cases d.reject) [
    | inl passes ↦
        let (payload, lifetime) = with_receipt-issued _ _ _ (rw passes at h) in
        (d, refl, passes, payload, lifetime)
    | inr (reason, rejected) ↦ absurd (cc (rw rejected at h))
  ]

  after_limit-issued :
      (entry : ConfigEntry) (s : IssueState) (r : RateLimiter × Decision)
      → (after_limit a req entry s r).1 ≡ success
      → (r.1.allowed ≡ true) × (reply_to a req entry (evaluated a req entry) ≡ success)
  after_limit-issued entry s (limiter, decision) h = elim (Bool-cases decision.allowed) [
    | inl allowed ↦ (allowed, rw allowed at h)
    | inr denied ↦ absurd (cc (rw denied at h))
  ]

  on_entry-issued :
      (s : IssueState) (o : Option ConfigEntry)
      → (on_entry a req s o).1 ≡ success
      → (entry : ConfigEntry) × (o ≡ some entry)
        × IsBound a.ops a.challenge_now req entry.attestation_policy s.attestation_challenges
        × ((limited a req entry s).1.allowed ≡ true)
        × (reply_to a req entry (evaluated a req entry) ≡ success)
  on_entry-issued s none h = absurd (cc h)
  on_entry-issued s (some entry) h =
      elim (Option-cases (
        check_binding a.ops a.challenge_now req entry.attestation_policy
          s.attestation_challenges)) [
            | inl binds ↦
                let (within, replied) =
                  after_limit-issued entry s (limited a req entry s) (rw binds at h) in
                (
                  entry,
                  refl,
                  check_binding-none a.ops a.challenge_now req entry.attestation_policy
                      s.attestation_challenges binds,
                  within,
                  replied,
                )
            | inr ((status, code), loose) ↦ absurd (cc (rw loose at h))
          ]

  pub after_replay-issued :
      (s : IssueState) (r : ReplayCache × Option (ℕ × Text))
      → (after_replay a req s r).1 ≡ success
      → (r.1 ≡ none)
        × ((on_entry a req (with_replay r.0 s) (config_by_id req.config_id s.configs)).1 ≡ success)
  after_replay-issued s (cache, none) h = (refl, h)
  after_replay-issued s (cache, some (status, code)) h = absurd (cc h)

  after_check-Earned :
      (s : IssueState) (o : Option (ℕ × Text))
      → check_request a.crypto req ≡ o
      → (after_check a req s o).1 ≡ success
      → Earned a req s config_b64 expires_at
  after_check-Earned s (some (status, code)) e h = absurd (cc h)
  after_check-Earned s none e h =
      let (version, signed) = check_request-none a.crypto req e in
      let (used, found) =
        after_replay-issued s (check_replay a.replay_now req s.request_replay) h in
      let (entry, known, bound, within, replied) = on_entry-issued _ _ found in
      let (d, evaluates, passes, payload, lifetime) = reply_to-issued entry _ replied in
      record {
        version = version;
        signed = signed;
        fresh = check_replay-none a.replay_now req s.request_replay version used;
        entry = entry;
        known = known;
        bound = bound;
        within_limit = within;
        decision = d;
        evaluates = evaluates;
        passes = passes;
        payload = payload;
        lifetime = lifetime;
      }

-- A config is issued only to a request of version 1 or 2 whose signature verifies, whose nonce, for
-- version 2 (of version 1 it is not checked), is 16 bytes that the replay cache does not hold for
-- this device and config, whose config is registered, whose attestation is bound to its key where
-- the policy is strict and the arm Android's, which is within the limit of its device and config,
-- and which passes the policy; the reply holds the config's payload and the lifetime of the
-- decision.
pub handle_issue-Earned :
    (a : Around) (body : IssueBody) (s : IssueState) (config_b64 expires_at receipt : Text)
    → (handle_issue a body s).1 ≡ issued config_b64 expires_at receipt
    → (req : IssueRequest) × (body ≡ parsed req) × Earned a req (reload a s) config_b64 expires_at
unfolding handle_issue handle_body
handle_issue-Earned a read_error s b e r h = absurd (cc h)
handle_issue-Earned a parse_error s b e r h = absurd (cc h)
handle_issue-Earned a (parsed req) s b e r h =
    (req, refl, after_check-Earned a req b e r (reload a s) (check_request a.crypto req) refl h)
