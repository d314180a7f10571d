-- ===== src/Tests/Issuance.antt =====
-- Issue requests of version 2 against one config that blocks rooted devices.
use npvtunnel_creator_server.Base.{
  ℕ, zero, suc, ◌*◌, ◌≤◌, ◌≡◌, ◌≢◌, ◌⊎◌, refl, Text, text, Bytes, true, [], ◌∷◌, ◌++◌, none, some,
  str_eq, lookup, insert, retain, size, pos, arith,
}
use npvtunnel_creator_server.Base64.{decode_string, encode_to_string, digit, value, values, regroup}
use npvtunnel_creator_server.RateLimit.{new_rate_limiter, allow, decide}
use npvtunnel_creator_server.Replay.{new_replay_cache, use_key}
use npvtunnel_creator_server.Challenge.{is_valid}
use npvtunnel_creator_server.Policy.{
  android_key_attestation, apple_app_attest, arm_for, lookup_verifier,
}
use npvtunnel_creator_server.Policy.Evaluate.{
  run_verifier, evaluate_attestation_policy, apply_mode, is_attested, resolve_issuance_limit,
}
use npvtunnel_creator_server.Policy.Device.{
  strict_device_attestation_policy, platform_key, GenuineAndroid, GenuineIos,
}
use npvtunnel_creator_server.Configs.{
  json_object, ConfigEntry, not_exist, config_by_id, reload_configs_if_changed,
}
use npvtunnel_creator_server.Signing.{
  IssueRequest, parsed, Crypto, decode_p256_compressed, verify_p1363_signature,
  issue_request_signing_input, verify_issue_request_signature, sign_receipt,
  issue_receipt_signing_input, left_padded,
}
use npvtunnel_creator_server.Issue.{
  IssueState, Around, issued, issue_error, hour, check_request, check_replay, check_binding,
  issuance_limit, grant, reply_to, handle_body, handle_issue, reload,
}
use npvtunnel_creator_server.Signing.Receipt.{KeyPair, sign_receipt-verifies}
use npvtunnel_creator_server.Issue.Grant.{Earned, handle_issue-Earned}
use npvtunnel_creator_server.Issue.Replays.{run, handle_issue_once}
use npvtunnel_creator_server.Issue.Unsigned.{handle_issue-unsigned}
use npvtunnel_creator_server.Issue.Genuine.{handle_issue-genuine}
use npvtunnel_creator_server.Tests.Policies.{ops, verifiers}

abbrev pub repeated : ℕ → Bytes
repeated zero = []
repeated (suc n) = 2 ∷ repeated n

abbrev pub crypto : Crypto
crypto = record {
  on_curve = λ raw. true;
  ecdsa_verify = λ key msg r s. true;
  ecdsa_sign = λ msg. some (7 ∷ [], 8 ∷ []);
}

abbrev challenge : Bytes
challenge = repeated 32

abbrev device_pk : Text
device_pk = encode_to_string (repeated 33)

abbrev request : IssueRequest
request = record {
  v = pos 2;
  device_pk = device_pk;
  attestation = record {
    platform = text "ANDROID";
    token = text "chain";
    nonce = encode_to_string challenge;
    bound_device_pk = device_pk;
    proof = text "proof";
  };
  config_id = text "config";
  request_nonce = encode_to_string (repeated 16);
  request_signature = encode_to_string (repeated 64);
}

abbrev entry : ConfigEntry
entry = record {
  config_id = text "config";
  config = text "{}";
  display_name = [];
  attestation_policy = some (strict_device_attestation_policy []);
  issued_policy = none;
  config_ttl_sec = pos 60;
}

abbrev at_time : ℕ → Around
at_time now = record {
  ops = ops;
  verifiers = verifiers;
  crypto = crypto;
  json_shape = λ config. json_object;
  format_time = λ time. text "later";
  stat = not_exist;
  file = none;
  replay_now = now;
  challenge_now = now;
  limit_now = now;
  grant_now = now;
}

abbrev server : IssueState
server = record {
  configs = record { configs = some ((text "config", entry) ∷ []); has_path = true; mtime = 0 };
  issuance_limiter = new_rate_limiter;
  attestation_challenges = record { current = challenge; expires_at = 24 * hour };
  request_replay = new_replay_cache;
}

abbrev receipt : Text
receipt = encode_to_string (left_padded (7 ∷ []) ++ left_padded (8 ∷ []))

granted :
    (handle_issue (at_time hour) (parsed request) server).1
    ≡ issued (encode_to_string (text "{}")) (text "later") receipt
unfolding handle_issue handle_body check_request verify_issue_request_signature
    decode_p256_compressed verify_p1363_signature issue_request_signing_input check_replay
    check_binding use_key lookup insert retain is_valid config_by_id reload_configs_if_changed
    arm_for size strict_device_attestation_policy lookup_verifier evaluate_attestation_policy
    apply_mode is_attested run_verifier issuance_limit resolve_issuance_limit allow decide grant
    reply_to sign_receipt issue_receipt_signing_input decode_string encode_to_string digit value
    values regroup str_eq
granted = refl

handle_issue-Earned_example :
    (req : IssueRequest) × (parsed request ≡ parsed req)
    × Earned
        (at_time hour)
        req
        (reload (at_time hour) server)
        (encode_to_string (text "{}"))
        (text "later")
handle_issue-Earned_example =
    handle_issue-Earned (at_time hour) (parsed request) server (encode_to_string (text "{}"))
      (text "later") receipt granted

handle_issue_once_example :
    (handle_issue (at_time (20 * hour)) (parsed request) (
      run
        ((at_time (2 * hour), parsed request) ∷ [])
        (handle_issue (at_time hour) (parsed request) server).0)).1
    ≢ issued [] [] []
handle_issue_once_example =
    handle_issue_once (at_time hour) request server (encode_to_string (text "{}")) (text "later")
      receipt ((at_time (2 * hour), parsed request) ∷ []) (at_time (20 * hour)) request [] [] []
      refl granted (omega arith, omega arith) (omega arith) refl refl

known : config_by_id (text "config") (reload (at_time hour) server).configs ≡ some entry
unfolding config_by_id reload_configs_if_changed lookup str_eq
known = refl

handle_issue-genuine_example :
    ((platform_key ops request.attestation ≡ text "ANDROID")
      × GenuineAndroid ops (run_verifier verifiers android_key_attestation request.attestation []))
    ⊎ ((platform_key ops request.attestation ≡ text "IOS")
        × (◌≢◌ {A = Text} [] [])
        × GenuineIos (run_verifier verifiers apple_app_attest request.attestation []))
handle_issue-genuine_example =
    handle_issue-genuine (at_time hour) request server (encode_to_string (text "{}")) (text "later")
      receipt entry [] known refl granted

abbrev unsigned : IssueRequest
unsigned = record request { request_signature = text "AAAA" }

not_signed : verify_issue_request_signature crypto unsigned ≢ some true
unfolding verify_issue_request_signature decode_p256_compressed verify_p1363_signature decode_string
    encode_to_string digit value values regroup
not_signed = λ e. cc e

handle_issue-unsigned_example :
    (status : ℕ) × (code : Text) × (handle_issue (at_time hour) (parsed unsigned) server
      ≡ (reload (at_time hour) server, issue_error status code))
    × (400 ≤ status)
    × (status ≤ 401)
handle_issue-unsigned_example =
    handle_issue-unsigned (at_time hour) (parsed unsigned) server of_body
  where
    of_body :
        (req : IssueRequest)
        → parsed unsigned ≡ parsed req
        → verify_issue_request_signature crypto req ≢ some true
    of_body req e = let own : req ≡ unsigned = cc e in rw own not_signed

pub key_pair : KeyPair crypto (repeated 33)
key_pair = record {
  small = λ msg r s e.
      let first : r ≡ 7 ∷ [] = cc e in
      let second : s ≡ 8 ∷ [] = cc e in
      rw (first, second) ((omega arith, tt), (omega arith, tt), omega arith, omega arith);
  verifies = λ msg r s m n e. refl;
}

signs_receipt :
    sign_receipt crypto device_pk (text "nonce") (text "later") (text "e30") ≡ some receipt
unfolding sign_receipt issue_receipt_signing_input
signs_receipt = refl

sign_receipt-verifies_example :
    (signature : Bytes) × (decode_string receipt ≡ some signature)
    × (verify_p1363_signature crypto
          (repeated 33)
          (issue_receipt_signing_input device_pk (text "nonce") (text "later") (text "e30"))
          signature
        ≡ true)
sign_receipt-verifies_example =
    sign_receipt-verifies crypto (repeated 33) device_pk (text "nonce") (text "later") (text "e30")
      receipt key_pair signs_receipt
