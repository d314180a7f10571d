-- ===== src/Policy/Strict.antt =====
-- `evaluateAttestationPolicy` of policy.go in strict mode.
use mathlib.Core.Path.{subst}
use npvtunnel_creator_server.Base.{
  ◌≡◌, ◌∙◌, ◌≢◌, ◌⊎◌, ◌↔◌, inl, inr, refl, sym, ap, true, false, [], Option, none, some, Text, text,
  str_eq, ℤ, str_eq_iff, arith, Bool-cases,
}
use npvtunnel_creator_server.Policy.{
  TextOps, AttestationBlob, Verdict, AttestationArm, AttestationPolicy, mode_off, mode_strict,
  arm_for, Verifier, android_verifier_name, Resolved, no_verifier, verifier, unknown_verifier,
  Verifiers,
}
use npvtunnel_creator_server.Policy.Evaluate.{
  AttestationDecision, decided, default_android_package_name, default_android_signing_cert_sha256,
  contains_string, contains_fold, claims_attestation, or_default, run_verifier, resolve, verdict_of,
  is_attested, reject_reason, apply_mode, with_verifier, evaluate_attestation_policy,
}

-- What the arm demands of a verdict.
pub record Meets (ops : TextOps) (arm : AttestationArm) (v : Verdict) : Type 0 where
  pub verified : v.verified ≡ true
  pub hardware : (arm.require_hardware_backed ≡ false) ⊎ (v.hardware_backed ≡ true)
  pub root : (arm.require_trusted_root ≡ false) ⊎ (v.trusted_root ≡ true)
  pub boot :
      (arm.require_verified_boot ≡ false)
      ⊎ ((v.verified_boot_state ≡ text "verified") × (v.device_locked ≡ true))
  pub application :
      (arm.verifier ≢ android_verifier_name)
      ⊎ ((contains_string v.app_package_names
              (or_default arm.android_package_name default_android_package_name)
            ≡ true)
          × (contains_fold ops v.app_signing_cert_sha256_hex
                (or_default arm.android_signing_cert_sha256 default_android_signing_cert_sha256)
              ≡ true))

is_attested-Meets :
    (ops : TextOps) (blob : AttestationBlob) (arm : AttestationArm) (v : Verdict)
    → is_attested ops blob (some arm) (some v) ≡ true
    → Meets ops arm v
unfolding is_attested
is_attested-Meets ops blob arm v e = ground (
  arith,
  str_eq_iff v.verified_boot_state (text "verified"),
  str_eq_iff arm.verifier android_verifier_name,
)

Meets-is_attested :
    (ops : TextOps) (blob : AttestationBlob) (arm : AttestationArm) (v : Verdict)
    → Meets ops arm v
    → is_attested ops blob (some arm) (some v) ≡ true
unfolding is_attested
Meets-is_attested ops blob arm v m = ground (
  arith,
  str_eq_iff v.verified_boot_state (text "verified"),
  str_eq_iff arm.verifier android_verifier_name,
)

-- A request proves what the arm for its platform demands: by a verdict of the arm's verifier, or,
-- where the arm names none, by claiming an attestation.
pub data Attests (ops : TextOps) (vs : Verifiers) (find : Text → Resolved) (blob : AttestationBlob)
    (arm : AttestationArm) : Type 0 where
  by_verdict :
      (w : Verifier)
      → arm.verifier ≢ []
      → find arm.verifier ≡ verifier w
      → blob.token ≢ []
      → Meets ops arm (run_verifier vs w blob arm.app_id)
      → Attests ops vs find blob arm
  by_claim :
      (arm.verifier ≡ []) ⊎ (find arm.verifier ≡ no_verifier)
      → blob.platform ≢ []
      → blob.platform ≢ text "NONE"
      → blob.token ≢ []
      → Attests ops vs find blob arm

claims_iff :
    (blob : AttestationBlob)
    → (claims_attestation blob ≡ true)
      ↔ ((blob.platform ≢ []) × (blob.platform ≢ text "NONE") × (blob.token ≢ []))
unfolding claims_attestation
claims_iff blob = ground (
  arith,
  str_eq_iff blob.platform [],
  str_eq_iff blob.platform (text "NONE"),
  str_eq_iff blob.token [],
)

module _ (ops : TextOps) (vs : Verifiers) (find : Text → Resolved) (blob : AttestationBlob)
    (arm : AttestationArm) where
  abbrev the_verdict : Resolved → Option Verdict
  the_verdict r = verdict_of vs blob (some arm) r

  resolve-no_verifier :
      resolve find (some arm) ≡ no_verifier
      → (arm.verifier ≡ []) ⊎ (find arm.verifier ≡ no_verifier)
  resolve-no_verifier e = ground (arith, str_eq_iff arm.verifier [])

  resolve-verifier :
      (w : Verifier)
      → resolve find (some arm) ≡ verifier w
      → (arm.verifier ≢ []) × (find arm.verifier ≡ verifier w)
  resolve-verifier w e = ground (arith, str_eq_iff arm.verifier [])

  -- Without a token nothing counts.
  empty_token :
      (r : Resolved)
      → str_eq blob.token [] ≡ true
      → is_attested ops blob (some arm) (the_verdict r) ≡ false
  unfolding is_attested claims_attestation
  empty_token no_verifier e = ground arith
  empty_token (verifier w) e = ground arith
  empty_token (unknown_verifier n) e = ground arith

  is_attested-Attests :
      (r : Resolved)
      → resolve find (some arm) ≡ r
      → ((n : Text) → r ≢ unknown_verifier n)
      → is_attested ops blob (some arm) (the_verdict r) ≡ true
      → Attests ops vs find blob arm
  is_attested-Attests (unknown_verifier n) e k h = absurd (k n refl)
  is_attested-Attests no_verifier e k h =
      let (p, q, t) = (claims_iff blob).0 (unfold is_attested in h) in
      by_claim (resolve-no_verifier e) p q t
  is_attested-Attests (verifier w) e k h = elim (Bool-cases (str_eq blob.token [])) [
    | inl empty ↦ absurd (cc (empty_token (verifier w) empty))
    | inr given ↦
        let (named, found) = resolve-verifier w e in
        by_verdict w named found (λ p. ground (arith, str_eq_iff blob.token []))
          (is_attested-Meets ops blob arm _ (rw given at h))
  ]

  Attests-is_attested :
      Attests ops vs find blob arm
      → is_attested ops blob (some arm) (the_verdict (resolve find (some arm))) ≡ true
  Attests-is_attested (by_verdict w named found token m) =
      let bare : str_eq arm.verifier [] ≡ false = ground (arith, str_eq_iff arm.verifier []) in
      let given : str_eq blob.token [] ≡ false = ground (arith, str_eq_iff blob.token []) in
      rw (bare, found, given) (Meets-is_attested ops blob arm _ m)
  Attests-is_attested (by_claim (inl e) p q t) =
      let bare : str_eq arm.verifier [] ≡ true = (str_eq_iff arm.verifier []).1 e in
      rw bare (unfold is_attested in (claims_iff blob).1 (p, q, t))
  Attests-is_attested (by_claim (inr e) p q t) =
      let bare : resolve find (some arm) ≡ no_verifier = ground arith in
      rw bare (unfold is_attested in (claims_iff blob).1 (p, q, t))

with_verifier_inv :
    (ops : TextOps) (vs : Verifiers) (p : AttestationPolicy) (blob : AttestationBlob)
    (arm : Option AttestationArm) (base_ttl : ℤ) (r : Resolved) {d : AttestationDecision}
    → with_verifier ops vs p blob arm base_ttl r ≡ decided d
    → ((n : Text) → r ≢ unknown_verifier n)
      × (d ≡ apply_mode ops p blob arm (verdict_of vs blob arm r) base_ttl)
with_verifier_inv ops vs p blob arm base_ttl no_verifier h = (λ n e. cc, cc)
with_verifier_inv ops vs p blob arm base_ttl (verifier w) h = (λ n e. cc, cc)
with_verifier_inv ops vs p blob arm base_ttl (unknown_verifier m) h = (λ n e. cc, cc)

-- A decision under a policy that is not off is that of the mode, with the verdict of the arm.
pub decided_inv :
    (ops : TextOps) (vs : Verifiers) (find : Text → Resolved) (p : AttestationPolicy)
    (blob : AttestationBlob) (base_ttl : ℤ) {d : AttestationDecision}
    → p.mode ≢ mode_off
    → evaluate_attestation_policy ops vs (some p) blob find base_ttl ≡ decided d
    → let arm = arm_for ops (some p) blob.platform in
      ((n : Text) → resolve find arm ≢ unknown_verifier n)
      × (d ≡ apply_mode ops p blob arm (verdict_of vs blob arm (resolve find arm)) base_ttl)
unfolding evaluate_attestation_policy
decided_inv ops vs find p blob base_ttl on e =
    let mode : str_eq p.mode mode_off ≡ false = ground (arith, str_eq_iff p.mode mode_off) in
    with_verifier_inv ops vs p blob (arm_for ops (some p) blob.platform) base_ttl _ (rw mode at e)

module _ (ops : TextOps) (p : AttestationPolicy) (blob : AttestationBlob)
    (arm : Option AttestationArm) (v : Option Verdict) (base_ttl : ℤ)
    (strict : p.mode ≡ mode_strict) where
  abbrev the_decision : AttestationDecision
  the_decision = apply_mode ops p blob arm v base_ttl

  apply_mode-strict :
      ((the_decision.reject ≡ none) × (is_attested ops blob arm v ≡ true))
      ⊎ ((the_decision.reject ≡ some (reject_reason ops blob arm v))
          × (is_attested ops blob arm v ≡ false))
  unfolding apply_mode str_eq
  apply_mode-strict = rw strict (elim (Bool-cases (is_attested ops blob arm v)) [
    | inl proved ↦ inl (rw proved, proved)
    | inr unproved ↦ inr (rw unproved, unproved)
  ])

  pass_iff : (the_decision.reject ≡ none) ↔ (is_attested ops blob arm v ≡ true)
  pass_iff = elim apply_mode-strict [
    | inl (passes, proved) ↦ ((λ _. proved), λ _. passes)
    | inr (rejected, unproved) ↦ ((λ e. cc), λ e. cc)
  ]

-- A request counts as attested exactly if it has an arm and proves what the arm demands.
pub is_attested_iff :
    (ops : TextOps) (vs : Verifiers) (find : Text → Resolved) (blob : AttestationBlob)
    (o : Option AttestationArm)
    → ((n : Text) → resolve find o ≢ unknown_verifier n)
    → (is_attested ops blob o (verdict_of vs blob o (resolve find o)) ≡ true)
      ↔ ((arm : AttestationArm) × (o ≡ some arm) × Attests ops vs find blob arm)
is_attested_iff ops vs find blob none k =
    ((λ h. absurd (unfold is_attested in cc)), λ (arm, has, _). absurd (cc has))
is_attested_iff ops vs find blob (some arm) k = (
  (λ h. (arm, refl, is_attested-Attests ops vs find blob arm (resolve find (some arm)) refl k h)),
  λ (other, has, proof).
      let one : other ≡ arm = cc has in
      Attests-is_attested ops vs find blob arm (subst (λ a. Attests ops vs find blob a) one proof),
)

-- A strict policy lets a request pass exactly if it has an arm for the request's platform and the
-- request proves what that arm demands, whatever the verifiers answer and the registry holds; this
-- is said of every decision, that is, of each request whose verifier the registry resolves.
pub evaluate-strict :
    (ops : TextOps) (vs : Verifiers) (find : Text → Resolved) (p : AttestationPolicy)
    (blob : AttestationBlob) (base_ttl : ℤ) (d : AttestationDecision)
    → p.mode ≡ mode_strict
    → evaluate_attestation_policy ops vs (some p) blob find base_ttl ≡ decided d
    → (d.reject ≡ none) ↔ (
        (arm : AttestationArm) × (arm_for ops (some p) blob.platform ≡ some arm)
        × Attests ops vs find blob arm)
evaluate-strict ops vs find p blob base_ttl d strict e =
    let on : p.mode ≢ mode_off = λ off. strict_on (sym strict ∙ off) in
    let (known, is) = decided_inv ops vs find p blob base_ttl on e in
    let arm = arm_for ops (some p) blob.platform in
    let proves = is_attested_iff ops vs find blob arm known in
    let passes =
      pass_iff ops p blob arm (verdict_of vs blob arm (resolve find arm)) base_ttl strict in
    let same = ap (λ (x : AttestationDecision). x.reject) is in
    ((λ h. proves.0 (passes.0 (sym same ∙ h))), λ h. same ∙ passes.1 (proves.1 h))
  where
    strict_on : ◌≢◌ {A = Text} mode_strict mode_off
    strict_on = λ q. cc
