-- ===== src/Tests/Policies.antt =====
-- Decisions of policy.go on one Android device and one that claims nothing.
use npvtunnel_creator_server.Base.{
  ℕ, ◌*◌, ◌≡◌, ◌≢◌, ◌⊎◌, ◌↔◌, refl, true, false, [], ◌∷◌, none, some, Text, text, str_eq, lookup,
  size, ℤ, pos, ◌≤ℤ◌, neg_part, to_int64, arith,
}
use npvtunnel_creator_server.Policy.{
  TextOps, AttestationBlob, Verdict, AttestationArm, AttestationPolicy, mode_soft, mode_strict,
  arm_for, verdict, failed, Verifiers, lookup_verifier, new_verifier_registry,
  android_key_attestation, apple_app_attest,
}
use npvtunnel_creator_server.Policy.Evaluate.{
  AttestationDecision, decided, granted, run_verifier, is_attested, apply_mode, soft_failure_ttl,
  evaluate_attestation_policy, claims_attestation, default_android_package_name,
  default_android_signing_cert_sha256,
}
use npvtunnel_creator_server.Policy.Strict.{Attests, evaluate-strict}
use npvtunnel_creator_server.Policy.Ttl.{
  shorter, evaluate-ttl-le, evaluate-soft, soft_failure_ttl_overflows,
}
use npvtunnel_creator_server.Policy.Device.{
  strict_device_attestation_policy, platform_key, platform_arms, GenuineAndroid, GenuineIos,
  device_policy_passes,
}

-- Upper-case texts without spaces are their own images.
abbrev pub ops : TextOps
ops = record { to_upper = λ t. t; trim_space = λ t. t; equal_fold = str_eq }

abbrev genuine : Verdict
genuine = record {
  verified = true;
  security_level = text "tee";
  hardware_backed = true;
  trusted_root = true;
  verified_boot_state = text "verified";
  device_locked = true;
  app_package_names = default_android_package_name ∷ [];
  app_signing_cert_sha256_hex = default_android_signing_cert_sha256 ∷ [];
  reason = [];
}

abbrev pub verifiers : Verifiers
verifiers = record {
  verify_android = λ b. verdict genuine;
  verify_apple = λ b id. failed (text "no app");
}

abbrev pub android : AttestationBlob
android = record {
  platform = text "ANDROID";
  token = text "chain";
  nonce = [];
  bound_device_pk = [];
  proof = [];
}

abbrev silent : AttestationBlob
silent = record {
  platform = text "ANDROID";
  token = [];
  nonce = [];
  bound_device_pk = [];
  proof = [];
}

abbrev day : ℤ
day = pos 86_400_000_000_000

abbrev passed : AttestationDecision
passed = granted day (some genuine)

passed_by_policy :
    evaluate_attestation_policy ops verifiers
      (some (strict_device_attestation_policy []))
      android
      (lookup_verifier new_verifier_registry)
      day
    ≡ decided passed
unfolding evaluate_attestation_policy strict_device_attestation_policy arm_for lookup size
    lookup_verifier apply_mode is_attested run_verifier str_eq
passed_by_policy = refl

evaluate-strict_example : (passed.reject ≡ none) ↔ (
    (arm : AttestationArm) × (arm_for ops
        (some (strict_device_attestation_policy []))
        android.platform
      ≡ some arm)
    × Attests ops verifiers (lookup_verifier new_verifier_registry) android arm)
evaluate-strict_example =
    evaluate-strict ops verifiers (lookup_verifier new_verifier_registry)
      (strict_device_attestation_policy []) android day passed
      (unfold strict_device_attestation_policy in refl) passed_by_policy

device_policy_passes_example :
    (android.token ≢ [])
    × (((platform_key ops android ≡ text "ANDROID")
          × GenuineAndroid ops (run_verifier verifiers android_key_attestation android []))
        ⊎ ((platform_key ops android ≡ text "IOS")
            × (◌≢◌ {A = Text} [] [])
            × GenuineIos (run_verifier verifiers apple_app_attest android [])))
device_policy_passes_example =
    device_policy_passes ops verifiers [] android day passed passed_by_policy refl

capped_lifetime :
    (passed.ttl ≤ℤ day)
    × ((passed.reject ≡ none) ⊎ ((strict_device_attestation_policy []).mode ≡ mode_strict))
    × ((passed.ttl ≡ day) ⊎ ((strict_device_attestation_policy []).mode ≡ mode_soft))
capped_lifetime =
    evaluate-ttl-le ops verifiers (lookup_verifier new_verifier_registry)
      (strict_device_attestation_policy []) android day passed passed_by_policy

abbrev soft_policy : ℕ → AttestationPolicy
soft_policy sec = record {
  mode = mode_soft;
  soft_failure_ttl_sec = pos sec;
  max_issuances_per_hour = pos 0;
  platforms = platform_arms [];
  legacy_arm = record {
    verifier = [];
    require_hardware_backed = false;
    require_trusted_root = false;
    require_verified_boot = false;
    app_id = [];
    android_package_name = [];
    android_signing_cert_sha256 = [];
  };
}

abbrev shortened : AttestationDecision
shortened = granted (pos (60 * 1_000_000_000)) none

shortened_by_policy :
    evaluate_attestation_policy ops verifiers
      (some (soft_policy 60))
      silent
      (lookup_verifier new_verifier_registry)
      day
    ≡ decided shortened
unfolding evaluate_attestation_policy arm_for lookup size lookup_verifier apply_mode is_attested
    claims_attestation soft_failure_ttl to_int64 str_eq
shortened_by_policy = refl

soft_mode :
    let Proves =
      (arm : AttestationArm) × (arm_for ops (some (soft_policy 60)) silent.platform ≡ some arm)
      × Attests ops verifiers (lookup_verifier new_verifier_registry) silent arm in
    (shortened.reject ≡ none)
    × ((Proves × (shortened.ttl ≡ day))
        ⊎ ((¬ Proves) × (shortened.ttl ≡ shorter day (soft_failure_ttl (soft_policy 60)))))
soft_mode =
    evaluate-soft ops verifiers (lookup_verifier new_verifier_registry) (soft_policy 60) silent day
      shortened refl shortened_by_policy

soft_failure_ttl_overflows_example : neg_part (soft_failure_ttl (soft_policy 10_000_000_000)) ≢ 0
soft_failure_ttl_overflows_example =
    soft_failure_ttl_overflows (soft_policy 10_000_000_000) 10_000_000_000 refl (omega arith)
      (omega arith)
