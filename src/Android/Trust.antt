-- ===== src/Android/Trust.antt =====
-- `Verify` of aka.go, on the tokens that it accepts.
use npvtunnel_creator_server.Base.{
  ℕ, ◌≡◌, ◌≢◌, refl, sym, ap, ◌∙◌, true, List, [], ◌∷◌, Option, none, some, Bytes, Text, text,
  str_eq, str_eq_iff, reverse, ◌⊎◌, inl, inr, arith, Option-cases, Bool-cases,
}
use npvtunnel_creator_server.Base.Results.{ok, ◌>>=◌, >>=-went_well, in_context-eq-ok, in_context}
use npvtunnel_creator_server.Base64.{decode_string}
use npvtunnel_creator_server.Policy.{AttestationBlob, Verdict}
use npvtunnel_creator_server.Signing.{Crypto, verify_p1363_signature, attestation_binding_input}
use npvtunnel_creator_server.Android.{Certificate, Certificates, Asn1, AkaParsed}
use npvtunnel_creator_server.Android.Chain.{parse_length_prefixed_chain}
use npvtunnel_creator_server.Android.Description.{parse_key_description}
use npvtunnel_creator_server.Android.Links.{
  Signed, NearestRoot, check_links-Signed, locate-reverse-some,
}
use npvtunnel_creator_server.Android.Verify.{
  locate, check_links, nonce_matches, proof_holds, assemble, judge, judge_extension, judge_chain,
  judge_token, verify,
}

-- The key proof: the certificate's key signed the binding of nonce and device key.
pub record KeySigned (c : Crypto) (blob : AttestationBlob) (cert : Certificate) : Type 0 where
  pub key : Bytes
  pub proof : Bytes
  pub is_ecdsa : cert.public_key ≡ some key
  pub decodes : decode_string blob.proof ≡ some proof
  pub verifies : verify_p1363_signature c key (attestation_binding_input blob) proof ≡ true

nonce_matches-fresh :
    (blob : AttestationBlob) (parsed : AkaParsed)
    → nonce_matches blob parsed ≡ true
    → blob.nonce ≢ []
    → decode_string blob.nonce ≡ some parsed.challenge
unfolding nonce_matches
nonce_matches-fresh blob parsed h given = elim (Option-cases (decode_string blob.nonce)) [
  | inl e ↦ ground (arith, str_eq_iff blob.nonce [])
  | inr (bytes, e) ↦ ground (arith, str_eq_iff blob.nonce [], str_eq_iff bytes parsed.challenge)
]

proof_holds-KeySigned :
    (c : Crypto) (blob : AttestationBlob) (cert : Certificate)
    → proof_holds c blob cert ≡ true
    → (blob.bound_device_pk ≢ []) ⊎ (blob.proof ≢ [])
    → KeySigned c blob cert
unfolding proof_holds
proof_holds-KeySigned c blob cert h given = elim (Option-cases cert.public_key) [
  | inl e ↦ absurd (ground (arith, str_eq_iff blob.bound_device_pk [], str_eq_iff blob.proof []))
  | inr (key, k) ↦ elim (Option-cases (decode_string blob.proof)) [
    | inl e ↦ absurd (ground (arith, str_eq_iff blob.bound_device_pk [], str_eq_iff blob.proof []))
    | inr (proof, d) ↦ record {
      key = key;
      proof = proof;
      is_ecdsa = k;
      decodes = d;
      verifies = ground (arith, str_eq_iff blob.bound_device_pk [], str_eq_iff blob.proof []);
    }
  ]
]

-- What stands behind a verdict.
pub record Trusted (x : Certificates) (asn1 : Asn1) (c : Crypto) (roots : Option (List Certificate))
    (now : ℕ) (blob : AttestationBlob) (v : Verdict) : Type 0 where
  pub pool : List Certificate
  pub token_bytes : Bytes
  pub leaf : Certificate
  pub intermediates : List Certificate
  pub ext : Bytes
  pub cert : Certificate
  pub described : AkaParsed
  pub for_android : blob.platform ≡ text "ANDROID"
  pub has_roots : roots ≡ some pool
  pub decodes : decode_string blob.token ≡ some token_bytes
  pub chain : parse_length_prefixed_chain x token_bytes ≡ ok (leaf ∷ intermediates)
  pub signed : Signed x (leaf ∷ intermediates)
  pub anchored : x.verify pool intermediates now leaf ≡ none
  pub attests : NearestRoot (leaf ∷ intermediates) ext cert
  pub describes : parse_key_description asn1 ext ≡ ok described
  pub fresh : blob.nonce ≢ [] → decode_string blob.nonce ≡ some described.challenge
  pub proved : (blob.bound_device_pk ≢ []) ⊎ (blob.proof ≢ []) → KeySigned c blob cert
  pub says : v ≡ assemble described none

judge-verified :
    (c : Crypto) (blob : AttestationBlob) (verify_err : Option Text) (cert : Certificate)
    (parsed : AkaParsed)
    → (judge c blob verify_err cert parsed).verified ≡ true
    → (nonce_matches blob parsed ≡ true)
      × (proof_holds c blob cert ≡ true)
      × (verify_err ≡ none)
      × (judge c blob verify_err cert parsed ≡ assemble parsed none)
unfolding judge assemble
judge-verified c blob none cert parsed h = ground arith
judge-verified c blob (some e) cert parsed h = absurd (ground arith)

module _ (x : Certificates) (asn1 : Asn1) (c : Crypto) where
  extension-verified :
      (blob : AttestationBlob) (verify_err : Option Text) (found : Option (Bytes × Certificate))
      (v : Verdict)
      → judge_extension asn1 c blob verify_err found ≡ ok v
      → v.verified ≡ true
      → (p : Bytes × Certificate) × (parsed : AkaParsed) × (found ≡ some p)
        × (parse_key_description asn1 p.0 ≡ ok parsed)
        × (v ≡ judge c blob verify_err p.1 parsed)
  unfolding judge_extension
  extension-verified blob verify_err none v e h = absurd (ground arith)
  extension-verified blob verify_err (some (ext, cert)) v e h =
      let (parsed, d, r) =
        >>=-went_well
          (in_context (text "parse attestation extension") (parse_key_description asn1 ext))
          (λ p. ok (judge c blob verify_err cert p)) e in
      (
        (ext, cert),
        parsed,
        refl,
        in_context-eq-ok (text "parse attestation extension") _ d,
        ground arith,
      )

  chain-verified :
      (roots : List Certificate) (now : ℕ) (blob : AttestationBlob) (chain : List Certificate)
      (v : Verdict)
      → judge_chain x asn1 c roots now blob chain ≡ ok v
      → v.verified ≡ true
      → (leaf : Certificate) × (rest : List Certificate) × (chain ≡ leaf ∷ rest)
        × (check_links x 0 (leaf ∷ rest) ≡ none)
        × (judge_extension asn1 c blob
              (x.verify roots rest now leaf)
              (locate (reverse (leaf ∷ rest)))
            ≡ ok v)
  unfolding judge_chain
  chain-verified roots now blob [] v e h = absurd (ground arith)
  chain-verified roots now blob (leaf ∷ rest) v e h =
      elim (Option-cases (check_links x 0 (leaf ∷ rest))) [
        | inl fine ↦ (leaf, rest, refl, fine, rw fine at e)
        | inr (reason, bad) ↦ absurd (ground arith)
      ]

module _ (x : Certificates) (asn1 : Asn1) (c : Crypto) where
  -- From the token's bytes on.
  bytes-Trusted :
      (pool : List Certificate) (now : ℕ) (blob : AttestationBlob) (bytes : Bytes) (v : Verdict)
      → (in_context (text "parse cert chain") (parse_length_prefixed_chain x bytes) >>= λ chain.
          judge_chain x asn1 c pool now blob chain)
        ≡ ok v
      → v.verified ≡ true
      → blob.platform ≡ text "ANDROID"
      → decode_string blob.token ≡ some bytes
      → Trusted x asn1 c (some pool) now blob v
  bytes-Trusted pool now blob bytes v e h a d =
      let (chain, p, e) =
        >>=-went_well (in_context (text "parse cert chain") (parse_length_prefixed_chain x bytes))
          (λ chain. judge_chain x asn1 c pool now blob chain) e in
      let (leaf, rest, is, fine, e) = chain-verified x asn1 c pool now blob chain v e h in
      let ((ext, cert), parsed, found, described, says) =
        extension-verified x asn1 c blob (x.verify pool rest now leaf) _ v e h in
      let (n, k, anchored, shape) =
        judge-verified c blob (x.verify pool rest now leaf) cert parsed
          (ap (λ (w : Verdict). w.verified) (sym says) ∙ h) in
      record {
        pool = pool;
        token_bytes = bytes;
        leaf = leaf;
        intermediates = rest;
        ext = ext;
        cert = cert;
        described = parsed;
        for_android = a;
        has_roots = refl;
        decodes = d;
        chain = in_context-eq-ok (text "parse cert chain") _ p ∙ ap ok is;
        signed = check_links-Signed x 0 (leaf ∷ rest) fine;
        anchored = anchored;
        attests = locate-reverse-some _ ext cert found;
        describes = described;
        fresh = nonce_matches-fresh blob parsed n;
        proved = proof_holds-KeySigned c blob cert k;
        says = says ∙ shape;
      }

  token-Trusted :
      (corrupt_input : Text → Text) (roots : Option (List Certificate)) (now : ℕ)
      (blob : AttestationBlob) (v : Verdict)
      → judge_token x asn1 c corrupt_input roots now blob ≡ ok v
      → v.verified ≡ true
      → blob.platform ≡ text "ANDROID"
      → Trusted x asn1 c roots now blob v
  unfolding judge_token
  token-Trusted corrupt_input none now blob v e h a = absurd (ground arith)
  token-Trusted corrupt_input (some pool) now blob v e h a =
      elim (Option-cases (decode_string blob.token)) [
        | inl bad ↦ absurd (ground arith)
        | inr (bytes, d) ↦ bytes-Trusted pool now blob bytes v (rw d at e) h a d
      ]

  -- A verdict that says verified is about an Android token that is a chain whose every certificate
  -- is signed by the next, whose leaf validates to the configured roots, and whose verdict is read
  -- from the attestation extension nearest the root; that extension names the request's nonce, if
  -- there is one, and the key of its certificate signed the nonce and the device key, if the request
  -- binds a device key or sends a proof.
  pub verify-Trusted :
      (corrupt_input : Text → Text) (roots : Option (List Certificate)) (now : ℕ)
      (blob : AttestationBlob) (v : Verdict)
      → verify x asn1 c corrupt_input roots now blob ≡ ok v
      → v.verified ≡ true
      → Trusted x asn1 c roots now blob v
  unfolding verify
  verify-Trusted corrupt_input roots now blob v e h =
      elim (Bool-cases (str_eq blob.platform (text "ANDROID"))) [
        | inr other ↦ absurd (ground arith)
        | inl android ↦ elim (Bool-cases (str_eq blob.token [])) [
          | inl bare ↦ absurd (ground arith)
          | inr given ↦
              token-Trusted corrupt_input roots now blob v (rw (android, given) at e) h
                ((str_eq_iff blob.platform (text "ANDROID")).0 android)
        ]
      ]
