-- ===== src/Apple/Trust.antt =====
-- `verifyWithAppID` of app_attest.go, on the objects that it accepts.
use npvtunnel_creator_server.Base.{
  ℕ, ◌≡◌, ◌≢◌, refl, ap, ◌∙◌, true, List, [], ◌∷◌, Option, none, some, Bytes, Text, text, str_eq,
  str_eq_iff, ◌⊎◌, inl, inr, arith, Option-cases, Bool-cases,
}
use npvtunnel_creator_server.Base.Results.{ok, ◌>>=◌, >>=-went_well, wrap, wrap-eq-ok}
use npvtunnel_creator_server.Base64.{decode_string}
use npvtunnel_creator_server.Policy.{AttestationBlob, Verdict}
use npvtunnel_creator_server.Android.{Certificate, Certificates, Asn1}
use npvtunnel_creator_server.Android.Verify.{check_links}
use npvtunnel_creator_server.Apple.{AppAttestObject, AppAttestOps}
use npvtunnel_creator_server.Apple.Bound.{AppBound, Unparsed, nonce-verified}
use npvtunnel_creator_server.Apple.Verify.{
  extract_app_attest_nonce, expected_nonce, parse_certificates, judge_x5c, judge_object, judge_blob,
  verify_with_app_id,
}

-- An object for a named app under a signed, anchored chain whose leaf embeds the challenge.
pub record Presented (x : Certificates) (asn1 : Asn1) (o : AppAttestOps)
    (roots : Option (List Certificate)) (now : ℕ) (blob : AttestationBlob) (app_id : Text)
    : Type 0 where
  pub pool : List Certificate
  pub token_bytes : Bytes
  pub challenge : Bytes
  pub att : AppAttestObject
  pub leaf : Certificate
  pub intermediates : List Certificate
  pub for_ios : blob.platform ≡ text "IOS"
  pub given : blob.token ≢ []
  pub app_named : app_id ≢ []
  pub has_roots : roots ≡ some pool
  pub decodes : decode_string blob.token ≡ some token_bytes
  pub challenged : decode_string blob.nonce ≡ some challenge
  pub object : o.unmarshal token_bytes ≡ inr att
  pub format : att.fmt ≡ text "apple-appattest"
  pub chain : parse_certificates x 0 att.x5c ≡ ok (leaf ∷ intermediates)
  pub links : check_links x 0 (leaf ∷ intermediates) ≡ none
  pub anchored : x.verify pool intermediates now leaf ≡ none
  pub embeds :
      extract_app_attest_nonce asn1 leaf.extensions ≡ ok (expected_nonce o att.auth_data challenge)

module _ (x : Certificates) (asn1 : Asn1) (o : AppAttestOps) where
  chain-verified :
      (pool : List Certificate) (now : ℕ) (app_id : Text) (challenge auth_data : Bytes)
      (chain : List Certificate) (v : Verdict)
      → judge_x5c x asn1 o pool now app_id challenge auth_data chain ≡ ok v
      → v.verified ≡ true
      → (leaf : Certificate) × (rest : List Certificate) × (chain ≡ leaf ∷ rest)
        × (check_links x 0 (leaf ∷ rest) ≡ none)
        × (x.verify pool rest now leaf ≡ none)
        × (extract_app_attest_nonce asn1 leaf.extensions
            ≡ ok (expected_nonce o auth_data challenge))
        × (AppBound o app_id leaf.public_key auth_data v ⊎ Unparsed auth_data v)
  unfolding judge_x5c
  chain-verified pool now app_id challenge auth_data [] v e h = absurd (ground arith)
  chain-verified pool now app_id challenge auth_data (leaf ∷ rest) v e h =
      elim (Option-cases (check_links x 0 (leaf ∷ rest))) [
        | inr (reason, bad) ↦ absurd (ground arith)
        | inl fine ↦
            let (embeds, anchored, outcome) =
              nonce-verified o app_id (x.verify pool rest now leaf) leaf.public_key challenge
                auth_data (extract_app_attest_nonce asn1 leaf.extensions) v (rw fine at e) h in
            (leaf, rest, refl, fine, anchored, embeds, outcome)
      ]

  object-verified :
      (pool : List Certificate) (now : ℕ) (app_id : Text) (challenge : Bytes)
      (att : AppAttestObject) (v : Verdict)
      → judge_object x asn1 o pool now app_id challenge att ≡ ok v
      → v.verified ≡ true
      → (att.fmt ≡ text "apple-appattest")
        × (chain : List Certificate) × (parse_certificates x 0 att.x5c ≡ ok chain)
        × (judge_x5c x asn1 o pool now app_id challenge att.auth_data chain ≡ ok v)
  unfolding judge_object
  object-verified pool now app_id challenge att v e h =
      elim (Bool-cases (str_eq att.fmt (text "apple-appattest"))) [
        | inr other ↦ absurd (ground arith)
        | inl same ↦
            let (chain, p, e) =
              >>=-went_well (parse_certificates x 0 att.x5c)
                (λ chain. judge_x5c x asn1 o pool now app_id challenge att.auth_data chain)
                (rw same at e) in
            ((str_eq_iff att.fmt (text "apple-appattest")).0 same, chain, p, e)
      ]

-- What stands behind a verdict that says verified.
abbrev pub Genuine :
    Certificates
    → Asn1
    → AppAttestOps
    → Option (List Certificate)
    → ℕ
    → AttestationBlob
    → Text
    → Verdict
    → Type 0
Genuine x asn1 o roots now blob app_id v =
    (p : Presented x asn1 o roots now blob app_id) × (AppBound o app_id p.leaf.public_key
        p.att.auth_data v
      ⊎ Unparsed p.att.auth_data v)

module _ (x : Certificates) (asn1 : Asn1) (o : AppAttestOps) (corrupt_input : Text → Text) (now : ℕ)
    (blob : AttestationBlob) (app_id : Text) (v : Verdict) where
  -- From the decoded token and nonce on.
  bytes-Genuine :
      (pool : List Certificate) (bytes challenge : Bytes)
      → (wrap (text "decode CBOR attestation") (o.unmarshal bytes) >>= λ att.
          judge_object x asn1 o pool now app_id challenge att)
        ≡ ok v
      → v.verified ≡ true
      → (blob.platform ≡ text "IOS")
        × (blob.token ≢ [])
        × (app_id ≢ [])
        × (decode_string blob.token ≡ some bytes)
        × (decode_string blob.nonce ≡ some challenge)
      → Genuine x asn1 o (some pool) now blob app_id v
  bytes-Genuine pool bytes challenge e h (ios, given, app_named, d, n) =
      let (att, object, e) =
        >>=-went_well (wrap (text "decode CBOR attestation") (o.unmarshal bytes))
          (λ att. judge_object x asn1 o pool now app_id challenge att) e in
      let (format, chain, p, e) = object-verified x asn1 o pool now app_id challenge att v e h in
      let (leaf, rest, is, links, anchored, embeds, outcome) =
        chain-verified x asn1 o pool now app_id challenge att.auth_data chain v e h in
      (
        record {
          pool = pool;
          token_bytes = bytes;
          challenge = challenge;
          att = att;
          leaf = leaf;
          intermediates = rest;
          for_ios = ios;
          given = given;
          app_named = app_named;
          has_roots = refl;
          decodes = d;
          challenged = n;
          object = wrap-eq-ok (text "decode CBOR attestation") (o.unmarshal bytes) object;
          format = format;
          chain = p ∙ ap ok is;
          links = links;
          anchored = anchored;
          embeds = embeds;
        },
        outcome,
      )

  token-Genuine :
      (roots : Option (List Certificate))
      → judge_blob x asn1 o corrupt_input roots now blob app_id ≡ ok v
      → v.verified ≡ true
      → blob.platform ≡ text "IOS"
      → blob.token ≢ []
      → Genuine x asn1 o roots now blob app_id v
  token-Genuine none e h ios given = absurd (ground arith)
  token-Genuine (some pool) e h ios given = elim (Bool-cases (str_eq app_id [])) [
    | inl unnamed ↦ absurd (ground arith)
    | inr app_named ↦ elim (Option-cases (decode_string blob.token)) [
      | inl bad ↦ absurd (ground arith)
      | inr (bytes, d) ↦ elim (Option-cases (decode_string blob.nonce)) [
        | inl bad ↦ absurd (ground arith)
        | inr (challenge, n) ↦
            bytes-Genuine pool bytes challenge (rw (app_named, d, n) at e) h
              (ios, given, λ no_app. ground (arith, str_eq_iff app_id []), d, n)
      ]
    ]
  ]

  -- A verdict of the Apple verifier that says verified is about an iOS token and a named app; the
  -- token is an App Attest object whose certificates are each signed by the next, whose leaf
  -- validates to the configured roots and embeds the digest of the authenticator data and the
  -- request's nonce. Either the authenticator data names the app and the leaf's key, its AAGUID is
  -- one of Apple's two, and the verdict says hardware-backed; or the authenticator data does not
  -- parse, and the verdict does not say hardware-backed.
  pub verify_with_app_id-Genuine :
      (roots : Option (List Certificate))
      → verify_with_app_id x asn1 o corrupt_input roots now blob app_id ≡ ok v
      → v.verified ≡ true
      → Genuine x asn1 o roots now blob app_id v
  unfolding verify_with_app_id
  verify_with_app_id-Genuine roots e h = elim (Bool-cases (str_eq blob.platform (text "IOS"))) [
    | inr other ↦ absurd (ground arith)
    | inl ios ↦ elim (Bool-cases (str_eq blob.token [])) [
      | inl bare ↦ absurd (ground arith)
      | inr given ↦
          token-Genuine roots (rw (ios, given) at e) h
            ((str_eq_iff blob.platform (text "IOS")).0 ios)
            (λ bare. ground (arith, str_eq_iff blob.token []))
    ]
  ]
