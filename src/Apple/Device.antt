-- ===== src/Apple/Device.antt =====
-- The policy that blocks rooted devices (policy.go) with the Apple verifier (app_attest.go) behind it.
use npvtunnel_creator_server.Base.{
  ℕ, ◌≡◌, sym, ap, ◌∙◌, List, Option, none, some, Text, text, inl, inr, arith, ℤ,
}
use npvtunnel_creator_server.Policy.{
  TextOps, AttestationBlob, Verdict, apple_app_attest, Verifiers, lookup_verifier,
  new_verifier_registry,
}
use npvtunnel_creator_server.Policy.Evaluate.{
  AttestationDecision, decided, fold_error, run_verifier, evaluate_attestation_policy,
}
use npvtunnel_creator_server.Policy.Device.{
  strict_device_attestation_policy, platform_key, GenuineIos, device_policy_passes,
}
use npvtunnel_creator_server.Android.{Certificate, Certificates, Asn1}
use npvtunnel_creator_server.Android.Device.{Returns, returned}
use npvtunnel_creator_server.Apple.{AppAttestOps}
use npvtunnel_creator_server.Apple.Bound.{AppBound}
use npvtunnel_creator_server.Apple.Trust.{Presented, verify_with_app_id-Genuine}
use npvtunnel_creator_server.Apple.Verify.{verify_with_app_id}

module _ (x : Certificates) (asn1 : Asn1) (o : AppAttestOps) (corrupt_input : Text → Text)
    (roots : Option (List Certificate)) (now : ℕ) (vs : Verifiers) (app_id : Text)
    (blob : AttestationBlob) where
  from_verdict :
      Returns
        (verify_with_app_id x asn1 o corrupt_input roots now blob app_id)
        (vs.verify_apple blob app_id)
      → GenuineIos (run_verifier vs apple_app_attest blob app_id)
      → (p : Presented x asn1 o roots now blob app_id) × AppBound o app_id p.leaf.public_key
          p.att.auth_data
          (fold_error (vs.verify_apple blob app_id))
  unfolding run_verifier
  from_verdict r g =
      let v = fold_error (vs.verify_apple blob app_id) in
      let (p, outcome) =
        verify_with_app_id-Genuine x asn1 o corrupt_input now blob app_id v roots
          (returned _ _ r g.verified) g.verified in
      elim outcome [
        | inl bound ↦ (p, bound)
        | inr bare ↦
            absurd (cc (sym (ap (λ (w : Verdict). w.hardware_backed) bare.says) ∙ g.hardware))
      ]

  -- Under the policy that blocks rooted devices, with the server's registry and the Apple verifier of
  -- app_attest.go, a request for the platform iOS that is not rejected carries an App Attest object
  -- under a signed chain that anchors at the configured roots, whose leaf embeds the request's nonce,
  -- and whose authenticator data parses and names the creator's app, the leaf's key and one of the
  -- two AAGUIDs.
  pub apple_device_passes :
      (ops : TextOps) (base_ttl : ℤ) (d : AttestationDecision)
      → Returns
          (verify_with_app_id x asn1 o corrupt_input roots now blob app_id)
          (vs.verify_apple blob app_id)
      → platform_key ops blob ≡ text "IOS"
      → evaluate_attestation_policy ops vs
          (some (strict_device_attestation_policy app_id))
          blob
          (lookup_verifier new_verifier_registry)
          base_ttl
        ≡ decided d
      → d.reject ≡ none
      → (p : Presented x asn1 o roots now blob app_id) × AppBound o app_id p.leaf.public_key
          p.att.auth_data
          (fold_error (vs.verify_apple blob app_id))
  apple_device_passes ops base_ttl d r ios e passes =
      elim (device_policy_passes ops vs app_id blob base_ttl d e passes).1 [
        | inl (android, _) ↦ absurd (ground arith)
        | inr (_, _, g) ↦ from_verdict r g
      ]
