-- ===== src/Android/Ends.antt =====
-- The loops of aka.go end: each round of each takes a byte at least.
use npvtunnel_creator_server.Base.{
  ℕ, zero, suc, ◌+◌, ◌*◌, ◌≤◌, ◌≢◌, not, List, [], ◌∷◌, ◌++◌, Option, none, some, Bytes, Text, text,
  length, take, drop, ltb, decimal, length-drop, Bool-cases, Option-cases, ◌⊎◌, inl, inr, arith,
  if◌then◌else◌, str_eq,
}
use npvtunnel_creator_server.Base.Results.{
  Result, ok, stuck, ◌>>=◌, wrap, wrap-eq-ok, wrap-ne-stuck, in_context-ne-stuck, >>=-ne-stuck,
  if-ne-stuck, ok-ne-stuck,
}
use npvtunnel_creator_server.Base64.{decode_string}
use npvtunnel_creator_server.Policy.{AttestationBlob}
use npvtunnel_creator_server.Signing.{Crypto}
use npvtunnel_creator_server.Android.{
  Certificate, Certificates, Asn1, RawValue, KeyDescription, Consumes, Advances,
}
use npvtunnel_creator_server.Android.Chain.{parse_records, parse_length_prefixed_chain}
use npvtunnel_creator_server.Android.Description.{
  collect, sequence_of, set_of, parse_attestation_application_id, walk, is_entry, is_sequence,
  absent_or, application_id, find_attestation_application_id, root_of_trust, find_root_of_trust,
  hex_encode, whole, parse_key_description,
}
use npvtunnel_creator_server.Android.Verify.{
  decoded_token, judge_extension, judge_chain, judge_token, verify, check_links,
}

parse_records-ne-stuck :
    (x : Certificates) (fuel position : ℕ) (raw : Bytes) (chain : List Certificate)
    → length raw ≤ fuel
    → parse_records x fuel position raw chain ≢ stuck
unfolding parse_records
parse_records-ne-stuck x fuel position [] chain h = λ e. cc
parse_records-ne-stuck x fuel position (b ∷ []) chain h = λ e. cc
parse_records-ne-stuck x zero position (hi ∷ lo ∷ rest) chain h = absurd (omega arith)
parse_records-ne-stuck x (suc fuel) position (hi ∷ lo ∷ rest) chain h =
    elim (Bool-cases (ltb (length rest) (hi * 256 + lo))) [
      | inl short ↦ rw short (λ e. cc)
      | inr fits ↦ rw fits (
          >>=-ne-stuck
            (wrap (text "parse cert " ++ decimal (length chain))
              (x.parse_certificate (take (hi * 256 + lo) rest)))
            (λ cert.
              parse_records x fuel (position + 2 + (hi * 256 + lo)) (drop (hi * 256 + lo) rest)
                (chain ++ cert ∷ []))
            (wrap-ne-stuck (text "parse cert " ++ decimal (length chain)) _)
            (λ cert _.
              parse_records-ne-stuck x fuel (position + 2 + (hi * 256 + lo))
                (drop (hi * 256 + lo) rest) (chain ++ cert ∷ [])
                (omega (arith, length-drop (hi * 256 + lo) rest))))
    ]

collect-ne-stuck :
    {A : Type 0} (unmarshal : Bytes → Text ⊎ (A × Bytes)) (context : Text) (read : A → Text)
    (fuel : ℕ) (values : Bytes) (out : List Text)
    → Consumes unmarshal
    → length values ≤ fuel
    → collect unmarshal context read fuel values out ≢ stuck
unfolding collect
collect-ne-stuck unmarshal context read fuel [] out c h = λ e. cc
collect-ne-stuck unmarshal context read zero (b ∷ bs) out c h = absurd (omega arith)
collect-ne-stuck unmarshal context read (suc fuel) (b ∷ bs) out c h =
    >>=-ne-stuck (wrap context (unmarshal (b ∷ bs)))
      (λ p. collect unmarshal context read fuel p.1 (out ++ read p.0 ∷ []))
      (wrap-ne-stuck context _)
      (λ (a, rest) e.
        collect-ne-stuck unmarshal context read fuel rest (out ++ read a ∷ []) c
          (omega (arith, c (b ∷ bs) a rest (wrap-eq-ok context (unmarshal (b ∷ bs)) e))))

sequence_of-ne-stuck : (r : Text ⊎ (RawValue × Bytes)) → sequence_of r ≢ stuck
sequence_of-ne-stuck (inl e) h = cc
sequence_of-ne-stuck (inr (v, rest)) h = ground arith

set_of-ne-stuck : (message : Text) (r : Text ⊎ (RawValue × Bytes)) → set_of message r ≢ stuck
set_of-ne-stuck message (inl e) h = cc
set_of-ne-stuck message (inr (v, rest)) h = ground arith

absent_or-ne-stuck :
    {A : Type 0} (message : Text) (b : Option Bytes) → absent_or {A = A} message b ≢ stuck
absent_or-ne-stuck message none h = cc
absent_or-ne-stuck message (some b) h = cc

whole-ne-stuck : (p : KeyDescription × Bytes) → whole p ≢ stuck
whole-ne-stuck (kd, rest) h = ground arith

module _ (asn1 : Asn1) (advances : Advances asn1) where
  walk-ne-stuck :
      {A : Type 0} (tag : ℕ) (decode : Bytes → Result A) (fuel : ℕ) (body : Bytes)
      → ((bytes : Bytes) → decode bytes ≢ stuck)
      → length body ≤ fuel
      → walk asn1 tag decode fuel body ≢ stuck
  unfolding walk
  walk-ne-stuck tag decode fuel [] d h = λ e. cc
  walk-ne-stuck tag decode zero (b ∷ bs) d h = absurd (omega arith)
  walk-ne-stuck tag decode (suc fuel) (b ∷ bs) d h =
      >>=-ne-stuck (wrap (text "iterate AuthorizationList") (asn1.raw_value (b ∷ bs)))
        (λ p.
          if is_entry tag p.0
          then (decode p.0.bytes >>= λ a. ok (some a))
          else walk asn1 tag decode fuel p.1)
        (wrap-ne-stuck (text "iterate AuthorizationList") _)
        (λ (elem, rest) e.
          if-ne-stuck (is_entry tag elem) (decode elem.bytes >>= λ a. ok (some a))
            (walk asn1 tag decode fuel rest)
            (>>=-ne-stuck (decode elem.bytes) (λ a. ok (some a)) (d elem.bytes) (λ a _ h. cc))
            (walk-ne-stuck tag decode fuel rest d (
              omega (
                arith,
                advances.raw_value_consumes (b ∷ bs) elem rest
                    (wrap-eq-ok (text "iterate AuthorizationList") _ e),
              ))))

  parse_attestation_application_id-ne-stuck :
      (encoded : Bytes) → parse_attestation_application_id asn1 encoded ≢ stuck
  unfolding parse_attestation_application_id
  parse_attestation_application_id-ne-stuck encoded =
      >>=-ne-stuck (sequence_of (asn1.raw_value encoded)) _
        (sequence_of-ne-stuck (asn1.raw_value encoded))
        λ sequence _.
          >>=-ne-stuck (set_of (text "malformed packageInfos set") (asn1.raw_value sequence.bytes))
            _ (set_of-ne-stuck (text "malformed packageInfos set") (asn1.raw_value sequence.bytes))
            λ (package_set, rest) _.
              >>=-ne-stuck (set_of (text "malformed signatureDigests set") (asn1.raw_value rest)) _
                (set_of-ne-stuck (text "malformed signatureDigests set") (asn1.raw_value rest))
                λ (digest_set, _) _.
                  >>=-ne-stuck _ _
                    (collect-ne-stuck asn1.package_info (text "decode package info")
                      (λ i. i.package_name) (length package_set.bytes) package_set.bytes []
                      advances.package_info_consumes (omega arith))
                    λ packages _.
                      >>=-ne-stuck _ _
                        (collect-ne-stuck asn1.octets (text "decode signing digest") hex_encode
                          (length digest_set.bytes) digest_set.bytes [] advances.octets_consumes
                          (omega arith))
                        λ digests _ h. cc

  application_id-ne-stuck : (bytes : Bytes) → application_id asn1 bytes ≢ stuck
  application_id-ne-stuck bytes =
      >>=-ne-stuck _ _
        (wrap-ne-stuck (text "decode attestationApplicationId octets") (asn1.octets bytes))
        λ (encoded, _) _. parse_attestation_application_id-ne-stuck encoded

  root_of_trust-ne-stuck : (bytes : Bytes) → root_of_trust asn1 bytes ≢ stuck
  root_of_trust-ne-stuck bytes =
      >>=-ne-stuck _ _ (wrap-ne-stuck (text "decode RootOfTrust") (asn1.root_of_trust bytes))
        λ p _ h. cc

  find_attestation_application_id-ne-stuck :
      (v : RawValue) → find_attestation_application_id asn1 v ≢ stuck
  unfolding find_attestation_application_id
  find_attestation_application_id-ne-stuck v =
      if-ne-stuck (not (is_sequence v)) _ _
        (absent_or-ne-stuck (text "expected software AuthorizationList SEQUENCE") v.full_bytes)
        (walk-ne-stuck 709 (application_id asn1) (length v.bytes) v.bytes application_id-ne-stuck
          (omega arith))

  find_root_of_trust-ne-stuck : (v : RawValue) → find_root_of_trust asn1 v ≢ stuck
  unfolding find_root_of_trust
  find_root_of_trust-ne-stuck v =
      if-ne-stuck (not (is_sequence v)) _ _ (absent_or-ne-stuck _ v.full_bytes) (
        walk-ne-stuck 704 (root_of_trust asn1) (length v.bytes) v.bytes root_of_trust-ne-stuck
          (omega arith))

  parse_key_description-ne-stuck : (ext : Bytes) → parse_key_description asn1 ext ≢ stuck
  unfolding parse_key_description
  parse_key_description-ne-stuck ext =
      >>=-ne-stuck _ _ (wrap-ne-stuck (text "unmarshal KeyDescription") (asn1.key_description ext))
        λ decoded _. >>=-ne-stuck _ _ (whole-ne-stuck decoded) λ kd _.
          >>=-ne-stuck _ _
            (in_context-ne-stuck (text "walk softwareEnforced") _
              (find_attestation_application_id-ne-stuck kd.software_enforced))
            λ app _.
              >>=-ne-stuck _ _
                (in_context-ne-stuck (text "walk teeEnforced") _
                  (find_root_of_trust-ne-stuck kd.tee_enforced))
                λ rot _ h. cc

  module _ (x : Certificates) (c : Crypto) where
    judge_extension-ne-stuck :
        (blob : AttestationBlob) (verify_err : Option Text) (found : Option (Bytes × Certificate))
        → judge_extension asn1 c blob verify_err found ≢ stuck
    unfolding judge_extension
    judge_extension-ne-stuck blob verify_err none = ok-ne-stuck _
    judge_extension-ne-stuck blob verify_err (some (ext, cert)) =
        >>=-ne-stuck _ _
          (in_context-ne-stuck (text "parse attestation extension") _
            (parse_key_description-ne-stuck ext))
          λ parsed _ h. cc

    judge_chain-ne-stuck :
        (roots : List Certificate) (now : ℕ) (blob : AttestationBlob) (chain : List Certificate)
        → judge_chain x asn1 c roots now blob chain ≢ stuck
    unfolding judge_chain
    judge_chain-ne-stuck roots now blob [] = ok-ne-stuck _
    judge_chain-ne-stuck roots now blob (leaf ∷ rest) =
        elim (Option-cases (check_links x 0 (leaf ∷ rest))) [
          | inl fine ↦ rw fine (judge_extension-ne-stuck blob _ _)
          | inr (reason, bad) ↦ rw bad (λ h. cc)
        ]

    judge_token-ne-stuck :
        (corrupt_input : Text → Text) (roots : Option (List Certificate)) (now : ℕ)
        (blob : AttestationBlob)
        → judge_token x asn1 c corrupt_input roots now blob ≢ stuck
    unfolding judge_token parse_length_prefixed_chain
    judge_token-ne-stuck corrupt_input none now blob = ok-ne-stuck _
    judge_token-ne-stuck corrupt_input (some pool) now blob =
        >>=-ne-stuck _ _
          (wrap-ne-stuck (text "decode token base64")
            (decoded_token corrupt_input blob.token (decode_string blob.token)))
          λ bytes _.
            >>=-ne-stuck _ _
              (in_context-ne-stuck (text "parse cert chain") _
                (parse_records-ne-stuck x (length bytes) 0 bytes [] (omega arith)))
              λ chain _. judge_chain-ne-stuck pool now blob chain

    -- The verifier always returns: no loop over the chain, the authorization lists, the packages or
    -- the digests runs out of the rounds that its input's length allows, if each value that
    -- `asn1.Unmarshal` decodes takes a byte at least.
    pub verify-ne-stuck :
        (corrupt_input : Text → Text) (roots : Option (List Certificate)) (now : ℕ)
        (blob : AttestationBlob)
        → verify x asn1 c corrupt_input roots now blob ≢ stuck
    unfolding verify
    verify-ne-stuck corrupt_input roots now blob =
        if-ne-stuck (not (str_eq blob.platform (text "ANDROID"))) _ _ (ok-ne-stuck _) (
          if-ne-stuck (str_eq blob.token []) _ _ (ok-ne-stuck _)
            (judge_token-ne-stuck corrupt_input roots now blob))
