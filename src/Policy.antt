-- ===== src/Policy.antt =====
-- policy.go, verifier.go and the policy types of state.go and types.go: what a config demands of the
-- device that asks for it. `strings.ToUpper`, `strings.TrimSpace` and `strings.EqualFold` rest on
-- Unicode tables: they are arguments (`TextOps`), and what is proved holds for any such functions.
-- The two verifiers are arguments too (`Verifiers`); the registry that names them is modelled.
pub mod Evaluate
pub mod Strict
pub mod Ttl
pub mod Device
use npvtunnel_creator_server.Base.{
  ℕ, Bool, true, false, List, [], ◌∷◌, Option, none, some, Bytes, Text, text, if◌then◌else◌, str_eq,
  lookup, insert, size, ℤ, pos, ◌==◌,
}

pub record TextOps : Type 0 where
  pub to_upper : Text → Text
  pub trim_space : Text → Text
  pub equal_fold : Text → Text → Bool

pub record AttestationBlob : Type 0 where
  pub platform : Text
  pub token : Text
  pub nonce : Text
  pub bound_device_pk : Text
  pub proof : Text

pub record Verdict : Type 0 where
  pub verified : Bool
  pub security_level : Text
  pub hardware_backed : Bool
  pub trusted_root : Bool
  pub verified_boot_state : Text
  pub device_locked : Bool
  pub app_package_names : List Text
  pub app_signing_cert_sha256_hex : List Text
  pub reason : Text

pub record AttestationArm : Type 0 where
  pub verifier : Text
  pub require_hardware_backed : Bool
  pub require_trusted_root : Bool
  pub require_verified_boot : Bool
  pub app_id : Text
  pub android_package_name : Text
  pub android_signing_cert_sha256 : Text

-- A key of `platforms` may hold a nil arm.
pub record AttestationPolicy : Type 0 where
  pub mode : Text
  pub soft_failure_ttl_sec : ℤ
  pub max_issuances_per_hour : ℤ
  pub platforms : List (Text × Option AttestationArm)
  pub legacy_arm : AttestationArm

abbrev pub mode_off : Text
mode_off = text "off"

abbrev pub mode_observe : Text
mode_observe = text "observe"

abbrev pub mode_soft : Text
mode_soft = text "soft"

abbrev pub mode_strict : Text
mode_strict = text "strict"

unfoldable pub valid_attestation_mode : Text → Bool
valid_attestation_mode m =
    if str_eq m mode_off
    then true
    else if str_eq m mode_observe
    then true
    else if str_eq m mode_soft
    then true
    else str_eq m mode_strict

abbrev present : Option (Option AttestationArm) → Option AttestationArm
present none = none
present (some arm) = arm

-- `armFor`, where `none` is the second result `false`.
unfoldable pub arm_for : TextOps → Option AttestationPolicy → Text → Option AttestationArm
arm_for ops none platform = none
arm_for ops (some p) platform =
    if size p.platforms == 0
    then some p.legacy_arm
    else present (lookup (ops.to_upper (ops.trim_space platform)) p.platforms)

pub data Verifier : Type 0 where
  android_key_attestation apple_app_attest : Verifier

abbrev pub android_verifier_name : Text
android_verifier_name = text "android-key-attestation"

abbrev pub apple_verifier_name : Text
apple_verifier_name = text "apple-app-attest"

abbrev pub VerifierRegistry : Type 0
VerifierRegistry = List (Text × Verifier)

abbrev pub new_verifier_registry : VerifierRegistry
new_verifier_registry =
    (android_verifier_name, android_key_attestation) ∷ (apple_verifier_name, apple_app_attest) ∷ []

-- `Lookup`: no verifier, a verifier, or the error that the name is unknown.
pub data Resolved : Type 0 where
  no_verifier : Resolved
  verifier : Verifier → Resolved
  unknown_verifier : Text → Resolved

abbrev or_unknown : Text → Option Verifier → Resolved
or_unknown name none = unknown_verifier name
or_unknown name (some v) = verifier v

unfoldable pub lookup_verifier : VerifierRegistry → Text → Resolved
lookup_verifier r name = if str_eq name [] then no_verifier else or_unknown name (lookup name r)

-- What a verifier returns: a verdict, or an error with its text.
pub data VerifyResult : Type 0 where
  verdict : Verdict → VerifyResult
  failed : Text → VerifyResult

pub record Verifiers : Type 0 where
  pub verify_android : AttestationBlob → VerifyResult
  pub verify_apple : AttestationBlob → Text → VerifyResult
