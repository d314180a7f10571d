-- ===== src/Android/Device.antt =====
-- The policy that blocks rooted devices (policy.go) with the Android verifier (aka.go) behind it.
use mathlib.Core.Path.{subst}
use npvtunnel_creator_server.Base.{
  ℕ, ◌≡◌, refl, true, ◌||◌, List, [], Option, none, some, Text, text, ◌⊎◌, inl, inr, arith, ℤ, pos,
  negsuc, Bool-cases,
}
use npvtunnel_creator_server.Base.Results.{Result, ok, err, stuck}
use npvtunnel_creator_server.Policy.{
  TextOps, AttestationBlob, Verdict, android_key_attestation, VerifyResult, verdict, failed,
  Verifiers, lookup_verifier, new_verifier_registry,
}
use npvtunnel_creator_server.Policy.Evaluate.{
  AttestationDecision, decided, default_android_package_name, default_android_signing_cert_sha256,
  contains_string, contains_fold, fold_error, run_verifier, evaluate_attestation_policy,
}
use npvtunnel_creator_server.Policy.Device.{
  strict_device_attestation_policy, platform_key, GenuineAndroid, device_policy_passes,
}
use npvtunnel_creator_server.Signing.{Crypto}
use npvtunnel_creator_server.Android.{Certificate, Certificates, Asn1, AkaParsed}
use npvtunnel_creator_server.Android.Description.{is_value}
use npvtunnel_creator_server.Android.Trust.{Trusted, verify-Trusted}
use npvtunnel_creator_server.Android.Verify.{verified_boot_state_string, assemble, verify}

-- A verifier that gives its caller what `Verify` returns.
abbrev pub Returns : Result Verdict → VerifyResult → Type 0
Returns (ok v) r = r ≡ verdict v
Returns (err e) r = r ≡ failed e
Returns stuck r = ⊥

-- What the attestation extension says of a device that passes.
pub record Untampered (ops : TextOps) (described : AkaParsed) : Type 0 where
  pub hardware : (described.security_level ≡ pos 1) ⊎ (described.security_level ≡ pos 2)
  pub reports_boot : described.root_of_trust_present ≡ true
  pub boot : described.verified_boot_state ≡ pos 0
  pub locked : described.device_locked ≡ true
  pub app_package : contains_string described.package_names default_android_package_name ≡ true
  pub certificate :
      contains_fold ops described.signing_cert_digests default_android_signing_cert_sha256 ≡ true

is_value-eq : (n : ℕ) (v : ℤ) → is_value n v ≡ true → v ≡ pos n
is_value-eq n (pos m) h = ground arith
is_value-eq n (negsuc m) h = cc

boot_state-verified :
    (state : ℤ) → verified_boot_state_string state ≡ text "verified" → state ≡ pos 0
unfolding verified_boot_state_string
boot_state-verified state h = ground (arith, is_value-eq 0 state)

hardware_level :
    (level : ℤ) → is_value 1 level || is_value 2 level ≡ true → (level ≡ pos 1) ⊎ (level ≡ pos 2)
hardware_level level h = elim (Bool-cases (is_value 1 level)) [
  | inl tee ↦ inl (is_value-eq 1 level tee)
  | inr other ↦ inr (is_value-eq 2 level (ground arith))
]

assemble-Untampered :
    (ops : TextOps) (described : AkaParsed)
    → GenuineAndroid ops (assemble described none)
    → Untampered ops described
unfolding assemble
assemble-Untampered ops described g = elim (Bool-cases described.root_of_trust_present) [
  | inr absent ↦ absurd (ground arith)
  | inl there ↦ record {
    hardware = hardware_level described.security_level g.hardware;
    reports_boot = there;
    boot = boot_state-verified described.verified_boot_state (ground arith);
    locked = ground arith;
    app_package = g.app_package;
    certificate = g.certificate;
  }
]

-- A verdict that says verified came from `Verify` without an error.
pub returned :
    (r : Result Verdict) (vr : VerifyResult)
    → Returns r vr
    → (fold_error vr).verified ≡ true
    → r ≡ ok (fold_error vr)
returned (ok v) vr e h = rw e refl
returned (err t) vr e h = absurd (ground arith)
returned stuck vr e h = absurd e

-- What stands behind an Android device that the policy lets pass.
pub record Attested (ops : TextOps) (x : Certificates) (asn1 : Asn1) (c : Crypto)
    (roots : Option (List Certificate)) (now : ℕ) (blob : AttestationBlob) : Type 0 where
  pub verdict_given : Verdict
  pub trust : Trusted x asn1 c roots now blob verdict_given
  pub device : Untampered ops trust.described

from_verdict :
    (ops : TextOps) (x : Certificates) (asn1 : Asn1) (c : Crypto) (corrupt_input : Text → Text)
    (roots : Option (List Certificate)) (now : ℕ) (vs : Verifiers) (blob : AttestationBlob)
    → Returns (verify x asn1 c corrupt_input roots now blob) (vs.verify_android blob)
    → GenuineAndroid ops (run_verifier vs android_key_attestation blob [])
    → Attested ops x asn1 c roots now blob
unfolding run_verifier
from_verdict ops x asn1 c corrupt_input roots now vs blob r g =
    let v = fold_error (vs.verify_android blob) in
    let t =
      verify-Trusted x asn1 c corrupt_input roots now blob v (returned _ _ r g.verified)
        g.verified in
    record {
      verdict_given = v;
      trust = t;
      device = assemble-Untampered ops t.described (subst (λ w. GenuineAndroid ops w) t.says g);
    }

-- Under the policy that blocks rooted devices, with the server's registry and the Android verifier
-- of aka.go, a request for the platform Android that is not rejected carries a signed chain that
-- anchors at the configured roots, and the attestation extension nearest the root says: a key in
-- secure hardware, a verified boot, a locked bootloader, and the released app with its certificate.
pub android_device_passes :
    (ops : TextOps) (x : Certificates) (asn1 : Asn1) (c : Crypto) (corrupt_input : Text → Text)
    (roots : Option (List Certificate)) (now : ℕ) (vs : Verifiers) (ios_app_id : Text)
    (blob : AttestationBlob) (base_ttl : ℤ) (d : AttestationDecision)
    → Returns (verify x asn1 c corrupt_input roots now blob) (vs.verify_android blob)
    → platform_key ops blob ≡ text "ANDROID"
    → evaluate_attestation_policy ops vs
        (some (strict_device_attestation_policy ios_app_id))
        blob
        (lookup_verifier new_verifier_registry)
        base_ttl
      ≡ decided d
    → d.reject ≡ none
    → Attested ops x asn1 c roots now blob
android_device_passes ops x asn1 c corrupt_input roots now vs ios_app_id blob base_ttl d r a e p =
    elim (device_policy_passes ops vs ios_app_id blob base_ttl d e p).1 [
      | inl (_, g) ↦ from_verdict ops x asn1 c corrupt_input roots now vs blob r g
      | inr (ios, _, _) ↦ absurd (ground arith)
    ]
