-- ===== src/Policy/Evaluate.antt =====
-- policy.go: `evaluateAttestationPolicy` and its helpers.
use npvtunnel_creator_server.Base.{
  ◌*◌, Bool, true, false, not, ◌&&◌, ◌||◌, List, [], ◌++◌, Option, none, some, Text, text,
  if◌then◌else◌, str_eq, any, ℤ, pos, is_pos, pos_part, ltb_ℤ, to_int64,
}
use npvtunnel_creator_server.Policy.{
  TextOps, AttestationBlob, Verdict, AttestationArm, AttestationPolicy, mode_off, mode_observe,
  mode_soft, mode_strict, arm_for, Verifier, android_key_attestation, apple_app_attest,
  android_verifier_name, Resolved, no_verifier, verifier, unknown_verifier, VerifyResult, verdict,
  failed, Verifiers,
}

abbrev pub default_android_package_name : Text
default_android_package_name = text "com.napsternetlabs.napsternetv"

abbrev pub default_android_signing_cert_sha256 : Text
default_android_signing_cert_sha256 =
    text "e03dcc51aad45456b97b6331c08a2f6a67eb9516e931a3e6cefcd0eeee5801d4"

-- Why a request is rejected: the texts of the source, with what they quote.
pub data RejectReason : Type 0 where
  no_attestation_claimed : RejectReason
  no_rule_for_platform : Text → RejectReason
  verifier_rejected : Text → RejectReason
  needs_hardware_backed : Text → RejectReason
  needs_trusted_root : RejectReason
  needs_verified_boot : Text → Bool → RejectReason
  wrong_application : RejectReason

pub record AttestationDecision : Type 0 where
  pub reject : Option RejectReason
  pub ttl : ℤ
  pub log_attestation : Bool
  pub verdict : Option Verdict

-- The decision, or the error of the verifier lookup.
pub data Evaluated : Type 0 where
  decided : AttestationDecision → Evaluated
  unresolved : Text → Evaluated

abbrev pub contains_string : List Text → Text → Bool
contains_string values expected = any (λ v. str_eq v expected) values

abbrev pub contains_fold : TextOps → List Text → Text → Bool
contains_fold ops values expected = any (λ v. ops.equal_fold v expected) values

unfoldable pub claims_attestation : AttestationBlob → Bool
claims_attestation a =
    if str_eq a.platform [] || str_eq a.platform (text "NONE")
    then false
    else if str_eq a.token []
    then false
    else true

-- `time.Duration(sec) * time.Second`, in the 64 bits of a `time.Duration`.
abbrev pub seconds : ℤ → ℤ
seconds sec = to_int64 (pos_part sec * 1_000_000_000)

unfoldable pub soft_failure_ttl : AttestationPolicy → ℤ
soft_failure_ttl p =
    let sec = if is_pos p.soft_failure_ttl_sec then p.soft_failure_ttl_sec else pos 300 in
    seconds sec

abbrev pub or_default : Text → Text → Text
or_default t d = if str_eq t [] then d else t

-- The conditions that the source tests twice, for the decision and for the reason.
abbrev pub lacks_hardware : AttestationArm → Verdict → Bool
lacks_hardware arm v = arm.require_hardware_backed && not v.hardware_backed

abbrev pub lacks_root : AttestationArm → Verdict → Bool
lacks_root arm v = arm.require_trusted_root && not v.trusted_root

abbrev pub lacks_boot : AttestationArm → Verdict → Bool
lacks_boot arm v =
    arm.require_verified_boot
    && not (str_eq v.verified_boot_state (text "verified") && v.device_locked)

abbrev pub other_application : TextOps → AttestationArm → Verdict → Bool
other_application ops arm v =
    str_eq arm.verifier android_verifier_name
    && (not (
          contains_string v.app_package_names
            (or_default arm.android_package_name default_android_package_name))
        || not (
            contains_fold ops v.app_signing_cert_sha256_hex
              (or_default arm.android_signing_cert_sha256 default_android_signing_cert_sha256)))

-- A verifier error is an unverified verdict. Its text is "verifier error: " and the error.
abbrev pub fold_error : VerifyResult → Verdict
fold_error (verdict v) = v
fold_error (failed e) = record {
  verified = false;
  security_level = [];
  hardware_backed = false;
  trusted_root = false;
  verified_boot_state = [];
  device_locked = false;
  app_package_names = [];
  app_signing_cert_sha256_hex = [];
  reason = text "verifier error: " ++ e;
}

unfoldable pub run_verifier : Verifiers → Verifier → AttestationBlob → Text → Verdict
run_verifier vs android_key_attestation blob app_id = fold_error (vs.verify_android blob)
run_verifier vs apple_app_attest blob app_id = fold_error (vs.verify_apple blob app_id)

-- The verifier of an arm; with no arm there is none.
abbrev pub resolve : (Text → Resolved) → Option AttestationArm → Resolved
resolve find none = no_verifier
resolve find (some arm) = if not (str_eq arm.verifier []) then find arm.verifier else no_verifier

abbrev pub app_id_of : Option AttestationArm → Text
app_id_of none = []
app_id_of (some arm) = arm.app_id

abbrev pub verdict_of :
    Verifiers → AttestationBlob → Option AttestationArm → Resolved → Option Verdict
verdict_of vs blob arm (verifier v) =
    if not (str_eq blob.token []) then some (run_verifier vs v blob (app_id_of arm)) else none
verdict_of vs blob arm _ = none

-- A verdict comes with an arm: the last case does not occur.
unfoldable pub is_attested :
    TextOps → AttestationBlob → Option AttestationArm → Option Verdict → Bool
is_attested ops blob (some arm) (some v) =
    v.verified
    && not (lacks_hardware arm v)
    && not (lacks_root arm v)
    && not (lacks_boot arm v)
    && not (other_application ops arm v)
is_attested ops blob (some arm) none = claims_attestation blob
is_attested ops blob none _ = false

-- The last test that fails gives the reason.
unfoldable pub reject_reason :
    TextOps → AttestationBlob → Option AttestationArm → Option Verdict → RejectReason
reject_reason ops blob none _ = no_rule_for_platform blob.platform
reject_reason ops blob (some arm) none = no_attestation_claimed
reject_reason ops blob (some arm) (some v) =
    if other_application ops arm v
    then wrong_application
    else if lacks_boot arm v
    then needs_verified_boot v.verified_boot_state v.device_locked
    else if lacks_root arm v
    then needs_trusted_root
    else if lacks_hardware arm v
    then needs_hardware_backed v.security_level
    else verifier_rejected v.reason

abbrev pub granted : ℤ → Option Verdict → AttestationDecision
granted ttl v = record { reject = none; ttl = ttl; log_attestation = false; verdict = v }

-- The switch on the mode, once it is known whether the request is attested.
unfoldable pub apply_mode :
    TextOps
    → AttestationPolicy
    → AttestationBlob
    → Option AttestationArm
    → Option Verdict
    → ℤ
    → AttestationDecision
apply_mode ops p blob arm v base_ttl =
    if str_eq p.mode mode_observe
    then record { reject = none; ttl = base_ttl; log_attestation = true; verdict = v }
    else if str_eq p.mode mode_soft
    then if is_attested ops blob arm v
      then granted base_ttl v
      else (let ttl = soft_failure_ttl p in
          granted (if ltb_ℤ base_ttl ttl then base_ttl else ttl) v)
    else if str_eq p.mode mode_strict
    then if is_attested ops blob arm v then granted base_ttl v else record {
      reject = some (reject_reason ops blob arm v);
      ttl = base_ttl;
      log_attestation = false;
      verdict = v;
    }
    else granted base_ttl none

abbrev pub with_verifier :
    TextOps
    → Verifiers
    → AttestationPolicy
    → AttestationBlob
    → Option AttestationArm
    → ℤ
    → Resolved
    → Evaluated
with_verifier ops vs p blob arm base_ttl (unknown_verifier name) = unresolved name
with_verifier ops vs p blob arm base_ttl found =
    decided (apply_mode ops p blob arm (verdict_of vs blob arm found) base_ttl)

unfoldable pub evaluate_attestation_policy :
    TextOps
    → Verifiers
    → Option AttestationPolicy
    → AttestationBlob
    → (Text → Resolved)
    → ℤ
    → Evaluated
evaluate_attestation_policy ops vs none blob find base_ttl = decided (granted base_ttl none)
evaluate_attestation_policy ops vs (some p) blob find base_ttl =
    if str_eq p.mode mode_off
    then decided (granted base_ttl none)
    else (let arm = arm_for ops (some p) blob.platform in
        with_verifier ops vs p blob arm base_ttl (resolve find arm))

unfoldable pub resolve_issuance_limit : Option AttestationPolicy → ℤ
resolve_issuance_limit none = pos 0
resolve_issuance_limit (some p) =
    if str_eq p.mode mode_off
    then pos 0
    else if is_pos p.max_issuances_per_hour
    then p.max_issuances_per_hour
    else pos 10
