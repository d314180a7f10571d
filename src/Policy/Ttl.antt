-- ===== src/Policy/Ttl.antt =====
-- The lifetimes that policy.go grants, and its soft mode.
use npvtunnel_creator_server.Base.{
  ℕ, ◌≡◌, ◌∙◌, ◌≢◌, ◌⊎◌, inl, inr, sym, ap, true, Option, none, some, Text, if◌then◌else◌, str_eq,
  ℤ, pos, pos_part, neg_part, ◌≤ℤ◌, ◌≤◌, ltb_ℤ, to_int64, str_eq_iff, arith, Bool-cases,
}
use npvtunnel_creator_server.Policy.{
  TextOps, AttestationBlob, Verdict, AttestationArm, AttestationPolicy, mode_off, mode_soft,
  mode_strict, arm_for, Resolved, Verifiers,
}
use npvtunnel_creator_server.Policy.Strict.{Attests, is_attested_iff, decided_inv}
use npvtunnel_creator_server.Policy.Evaluate.{
  soft_failure_ttl, AttestationDecision, decided, resolve, verdict_of, is_attested, apply_mode,
  evaluate_attestation_policy,
}

-- `min`
abbrev pub shorter : ℤ → ℤ → ℤ
shorter a b = if ltb_ℤ a b then a else b

shorter-le : (a b : ℤ) → shorter a b ≤ℤ a
shorter-le a b = ground arith

apply_mode-ttl :
    (ops : TextOps) (p : AttestationPolicy) (blob : AttestationBlob) (arm : Option AttestationArm)
    (v : Option Verdict) (base_ttl : ℤ)
    → let d = apply_mode ops p blob arm v base_ttl in
      (d.ttl ≤ℤ base_ttl)
      × ((d.reject ≡ none) ⊎ (p.mode ≡ mode_strict))
      × ((d.ttl ≡ base_ttl) ⊎ (p.mode ≡ mode_soft))
unfolding apply_mode
apply_mode-ttl ops p blob arm v base_ttl =
    ground (arith, str_eq_iff p.mode mode_soft, str_eq_iff p.mode mode_strict)

off_decision :
    (ops : TextOps) (vs : Verifiers) (find : Text → Resolved) (p : AttestationPolicy)
    (blob : AttestationBlob) (base_ttl : ℤ) {d : AttestationDecision}
    → str_eq p.mode mode_off ≡ true
    → evaluate_attestation_policy ops vs (some p) blob find base_ttl ≡ decided d
    → (d.ttl ≡ base_ttl) × (d.reject ≡ none)
unfolding evaluate_attestation_policy
off_decision ops vs find p blob base_ttl off e = let h = rw off at e in ground arith

-- No decision grants more than the base lifetime, only a strict policy rejects, and only a soft one
-- shortens the lifetime.
pub evaluate-ttl-le :
    (ops : TextOps) (vs : Verifiers) (find : Text → Resolved) (p : AttestationPolicy)
    (blob : AttestationBlob) (base_ttl : ℤ) (d : AttestationDecision)
    → evaluate_attestation_policy ops vs (some p) blob find base_ttl ≡ decided d
    → (d.ttl ≤ℤ base_ttl)
      × ((d.reject ≡ none) ⊎ (p.mode ≡ mode_strict))
      × ((d.ttl ≡ base_ttl) ⊎ (p.mode ≡ mode_soft))
evaluate-ttl-le ops vs find p blob base_ttl d e = elim (Bool-cases (str_eq p.mode mode_off)) [
  | inl off ↦
      let (t, r) = off_decision ops vs find p blob base_ttl off e in
      (omega (arith, ap pos_part t, ap neg_part t), inl r, inl t)
  | inr on ↦
      let arm = arm_for ops (some p) blob.platform in
      rw
        (decided_inv ops vs find p blob base_ttl (λ q. ground (arith, str_eq_iff p.mode mode_off))
          e).1
        (apply_mode-ttl ops p blob arm (verdict_of vs blob arm (resolve find arm)) base_ttl)
]

apply_mode-soft :
    (ops : TextOps) (p : AttestationPolicy) (blob : AttestationBlob) (arm : Option AttestationArm)
    (v : Option Verdict) (base_ttl : ℤ)
    → p.mode ≡ mode_soft
    → let d = apply_mode ops p blob arm v base_ttl in
      (d.reject ≡ none)
      × (((is_attested ops blob arm v ≡ true) × (d.ttl ≡ base_ttl))
          ⊎ ((is_attested ops blob arm v ≢ true) × (d.ttl ≡ shorter base_ttl (soft_failure_ttl p))))
unfolding apply_mode str_eq
apply_mode-soft ops p blob arm v base_ttl soft = rw soft (ground arith)

-- Under a soft policy every request passes: for the base lifetime if it proves what the arm for its
-- platform demands, and otherwise for the soft-failure lifetime, if that is shorter.
pub evaluate-soft :
    (ops : TextOps) (vs : Verifiers) (find : Text → Resolved) (p : AttestationPolicy)
    (blob : AttestationBlob) (base_ttl : ℤ) (d : AttestationDecision)
    → p.mode ≡ mode_soft
    → evaluate_attestation_policy ops vs (some p) blob find base_ttl ≡ decided d
    → let Proves =
        (arm : AttestationArm) × (arm_for ops (some p) blob.platform ≡ some arm)
        × Attests ops vs find blob arm in
      (d.reject ≡ none)
      × ((Proves × (d.ttl ≡ base_ttl))
          ⊎ ((¬ Proves) × (d.ttl ≡ shorter base_ttl (soft_failure_ttl p))))
evaluate-soft ops vs find p blob base_ttl d soft e =
    let on : p.mode ≢ mode_off = λ off. soft_on (sym soft ∙ off) in
    let (known, is) = decided_inv ops vs find p blob base_ttl on e in
    let arm = arm_for ops (some p) blob.platform in
    let proves = is_attested_iff ops vs find blob arm known in
    let outcome =
      apply_mode-soft ops p blob arm (verdict_of vs blob arm (resolve find arm)) base_ttl soft in
    rw is (
      outcome.0,
      elim outcome.1 [
        | inl (h, t) ↦ inl (proves.0 h, t)
        | inr (h, t) ↦ inr ((λ proof. h (proves.1 proof)), t)
      ],
    )
  where
    soft_on : ◌≢◌ {A = Text} mode_soft mode_off
    soft_on = λ q. cc

-- From 9223372037 to 18446744073 seconds the product with a second overflows an `int64`, and the
-- lifetime is negative, though such a number of seconds is positive.
pub soft_failure_ttl_overflows :
    (p : AttestationPolicy) (sec : ℕ)
    → p.soft_failure_ttl_sec ≡ pos sec
    → 9_223_372_037 ≤ sec
    → sec ≤ 18_446_744_073
    → neg_part (soft_failure_ttl p) ≢ 0
unfolding soft_failure_ttl to_int64
soft_failure_ttl_overflows p sec e lo hi = rw e (ground arith)
