-- ===== src/Policy/Device.antt =====
-- `strictDeviceAttestationPolicy` of policy.go, the policy behind "block rooted devices".
use mathlib.Core.Path.{subst}
use npvtunnel_creator_server.Base.{
  ◌≡◌, ◌≢◌, ◌⊎◌, inl, inr, refl, size, lookup, insert, true, false, not, List, [], ◌∷◌, Option,
  none, some, Text, text, if◌then◌else◌, str_eq, ℤ, pos, str_eq_iff, arith,
}
use npvtunnel_creator_server.Policy.{
  TextOps, AttestationBlob, Verdict, AttestationArm, AttestationPolicy, mode_strict, arm_for,
  android_key_attestation, apple_app_attest, android_verifier_name, verifier, Verifiers,
  lookup_verifier, new_verifier_registry, apple_verifier_name,
}
use npvtunnel_creator_server.Policy.Strict.{Attests, by_verdict, by_claim, Meets, evaluate-strict}
use npvtunnel_creator_server.Policy.Evaluate.{
  AttestationDecision, decided, default_android_package_name, default_android_signing_cert_sha256,
  contains_string, contains_fold, run_verifier, evaluate_attestation_policy,
}

abbrev pub android_arm : AttestationArm
android_arm = record {
  verifier = android_verifier_name;
  require_hardware_backed = true;
  require_trusted_root = true;
  require_verified_boot = true;
  app_id = [];
  android_package_name = default_android_package_name;
  android_signing_cert_sha256 = default_android_signing_cert_sha256;
}

abbrev pub ios_arm : Text → AttestationArm
ios_arm app_id = record {
  verifier = apple_verifier_name;
  require_hardware_backed = true;
  require_trusted_root = true;
  require_verified_boot = false;
  app_id = app_id;
  android_package_name = [];
  android_signing_cert_sha256 = [];
}

abbrev empty_arm : AttestationArm
empty_arm = record {
  verifier = [];
  require_hardware_backed = false;
  require_trusted_root = false;
  require_verified_boot = false;
  app_id = [];
  android_package_name = [];
  android_signing_cert_sha256 = [];
}

abbrev pub platform_arms : Text → List (Text × Option AttestationArm)
platform_arms ios_app_id =
    let arms = (text "ANDROID", some android_arm) ∷ [] in
    if not (str_eq ios_app_id [])
    then insert (text "IOS") (some (ios_arm ios_app_id)) arms
    else arms

unfoldable pub strict_device_attestation_policy : Text → AttestationPolicy
strict_device_attestation_policy ios_app_id = record {
  mode = mode_strict;
  soft_failure_ttl_sec = pos 0;
  max_issuances_per_hour = pos 0;
  platforms = platform_arms ios_app_id;
  legacy_arm = empty_arm;
}

-- The platform that a policy looks up.
abbrev pub platform_key : TextOps → AttestationBlob → Text
platform_key ops blob = ops.to_upper (ops.trim_space blob.platform)

arm_cases :
    (ops : TextOps) (ios_app_id : Text) (blob : AttestationBlob) (arm : AttestationArm)
    → arm_for ops (some (strict_device_attestation_policy ios_app_id)) blob.platform ≡ some arm
    → ((platform_key ops blob ≡ text "ANDROID") × (arm ≡ android_arm))
      ⊎ ((platform_key ops blob ≡ text "IOS") × (ios_app_id ≢ []) × (arm ≡ ios_arm ios_app_id))
unfolding arm_for strict_device_attestation_policy lookup insert size
arm_cases ops ios_app_id blob arm e = ground (
  arith,
  str_eq_iff ios_app_id [],
  str_eq_iff (text "ANDROID") (platform_key ops blob),
  str_eq_iff (text "IOS") (platform_key ops blob),
)

-- What the verifiers said of a device that passes.
pub record GenuineAndroid (ops : TextOps) (v : Verdict) : Type 0 where
  pub verified : v.verified ≡ true
  pub hardware : v.hardware_backed ≡ true
  pub root : v.trusted_root ≡ true
  pub boot : v.verified_boot_state ≡ text "verified"
  pub locked : v.device_locked ≡ true
  pub app_package : contains_string v.app_package_names default_android_package_name ≡ true
  pub certificate :
      contains_fold ops v.app_signing_cert_sha256_hex default_android_signing_cert_sha256 ≡ true

pub record GenuineIos (v : Verdict) : Type 0 where
  pub verified : v.verified ≡ true
  pub hardware : v.hardware_backed ≡ true
  pub root : v.trusted_root ≡ true

Meets-GenuineAndroid :
    (ops : TextOps) (v : Verdict) → Meets ops android_arm v → GenuineAndroid ops v
Meets-GenuineAndroid ops v m = ground arith

Meets-GenuineIos :
    (ops : TextOps) (v : Verdict) (id : Text) → Meets ops (ios_arm id) v → GenuineIos v
Meets-GenuineIos ops v id m = ground arith

pub android_lookup :
    lookup_verifier new_verifier_registry android_verifier_name ≡ verifier android_key_attestation
unfolding lookup_verifier lookup str_eq
android_lookup = refl

pub apple_lookup :
    lookup_verifier new_verifier_registry apple_verifier_name ≡ verifier apple_app_attest
unfolding lookup_verifier lookup str_eq
apple_lookup = refl

-- Under the policy that blocks rooted devices, with the registry of the server, a request that
-- passes carries a token, and either its platform is Android and the Android verifier found a
-- hardware-backed key under a trusted root, a verified boot, a locked bootloader and the released
-- app, or its platform is iOS, the creator named an app, and the Apple verifier found a
-- hardware-backed key of that app under a trusted root.
pub device_policy_passes :
    (ops : TextOps) (vs : Verifiers) (ios_app_id : Text) (blob : AttestationBlob) (base_ttl : ℤ)
    (d : AttestationDecision)
    → evaluate_attestation_policy ops vs
        (some (strict_device_attestation_policy ios_app_id))
        blob
        (lookup_verifier new_verifier_registry)
        base_ttl
      ≡ decided d
    → d.reject ≡ none
    → (blob.token ≢ [])
      × (((platform_key ops blob ≡ text "ANDROID")
            × GenuineAndroid ops (run_verifier vs android_key_attestation blob []))
          ⊎ ((platform_key ops blob ≡ text "IOS")
              × (ios_app_id ≢ [])
              × GenuineIos (run_verifier vs apple_app_attest blob ios_app_id)))
device_policy_passes ops vs ios_app_id blob base_ttl d e passes =
    let (arm, has, proof) =
      (evaluate-strict ops vs (lookup_verifier new_verifier_registry)
          (strict_device_attestation_policy ios_app_id) blob base_ttl d
          (unfold strict_device_attestation_policy in refl) e).0
        passes in
    elim (arm_cases ops ios_app_id blob arm has) [
      | inl (android, is) ↦
          let (t, m) =
            android_proof (
              subst (λ a. Attests ops vs (lookup_verifier new_verifier_registry) blob a) is
                proof) in
          (t, inl (android, m))
      | inr (ios, named, is) ↦
          let (t, m) =
            ios_proof (
              subst (λ a. Attests ops vs (lookup_verifier new_verifier_registry) blob a) is
                proof) in
          (t, inr (ios, named, m))
    ]
  where
    android_proof :
        Attests ops vs (lookup_verifier new_verifier_registry) blob android_arm
        → (blob.token ≢ []) × GenuineAndroid ops (run_verifier vs android_key_attestation blob [])
    android_proof (by_verdict w named found token m) =
        let same : w ≡ android_key_attestation = cc android_lookup in
        (
          token,
          Meets-GenuineAndroid ops _
              (subst (λ x. Meets ops android_arm (run_verifier vs x blob [])) same m),
        )
    android_proof (by_claim (inl bare) p q t) = absurd (cc bare)
    android_proof (by_claim (inr lost) p q t) = absurd (cc (android_lookup, lost))

    ios_proof :
        Attests ops vs (lookup_verifier new_verifier_registry) blob (ios_arm ios_app_id)
        → (blob.token ≢ []) × GenuineIos (run_verifier vs apple_app_attest blob ios_app_id)
    ios_proof (by_verdict w named found token m) =
        let same : w ≡ apple_app_attest = cc apple_lookup in
        (
          token,
          Meets-GenuineIos ops _ ios_app_id (
              subst (λ x. Meets ops (ios_arm ios_app_id) (run_verifier vs x blob ios_app_id)) same
                m),
        )
    ios_proof (by_claim (inl bare) p q t) = absurd (cc bare)
    ios_proof (by_claim (inr lost) p q t) = absurd (cc (apple_lookup, lost))
