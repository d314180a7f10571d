-- ===== src/Android/Verify.antt =====
-- `Verify` of aka.go.
use npvtunnel_creator_server.Base.{
  ℕ, suc, Bool, true, false, not, ◌&&◌, ◌||◌, List, [], ◌∷◌, ◌++◌, Option, none, some, Bytes, Text,
  text, if◌then◌else◌, str_eq, reverse, ℤ, decimal, decimal_int, ◌⊎◌, inl, inr,
}
use npvtunnel_creator_server.Base.Results.{Result, ok, ◌>>=◌, wrap, in_context}
use npvtunnel_creator_server.Base64.{decode_string}
use npvtunnel_creator_server.Policy.{AttestationBlob, Verdict}
use npvtunnel_creator_server.Signing.{Crypto, verify_p1363_signature, attestation_binding_input}
use npvtunnel_creator_server.Android.{Extension, Certificate, Certificates, Asn1, AkaParsed}
use npvtunnel_creator_server.Android.Chain.{parse_length_prefixed_chain}
use npvtunnel_creator_server.Android.Description.{is_value, parse_key_description}

abbrev pub android_key_attestation_oid : List ℕ
android_key_attestation_oid = 1 ∷ 3 ∷ 6 ∷ 1 ∷ 4 ∷ 1 ∷ 11129 ∷ 2 ∷ 1 ∷ 17 ∷ []

unfoldable pub security_level_string : ℤ → Text
security_level_string level =
    if is_value 0 level
    then text "software"
    else if is_value 1 level
    then text "tee"
    else if is_value 2 level
    then text "strongbox"
    else text "unknown(" ++ decimal_int level ++ text ")"

unfoldable pub verified_boot_state_string : ℤ → Text
verified_boot_state_string state =
    if is_value 0 state
    then text "verified"
    else if is_value 1 state
    then text "self-signed"
    else if is_value 2 state
    then text "unverified"
    else if is_value 3 state
    then text "failed"
    else text "unknown(" ++ decimal_int state ++ text ")"

-- `Verdict{Verified: false, TrustedRoot: …, Reason: …}`
abbrev pub refused : Bool → Text → Verdict
refused trusted_root reason = record {
  verified = false;
  security_level = [];
  hardware_backed = false;
  trusted_root = trusted_root;
  verified_boot_state = [];
  device_locked = false;
  app_package_names = [];
  app_signing_cert_sha256_hex = [];
  reason = reason;
}

-- The value of the attestation extension that stands first.
unfoldable pub find_extension : List Extension → Option Bytes
find_extension [] = none
find_extension (ext ∷ exts) =
    if str_eq ext.id android_key_attestation_oid then some ext.value else find_extension exts

abbrev pub found_in :
    Certificate → Option (Bytes × Certificate) → Option Bytes → Option (Bytes × Certificate)
found_in cert further none = further
found_in cert further (some ext) = some (ext, cert)

-- The first certificate with the extension; `Verify` goes through the chain from the root's end. A
-- parsed extension's value is never nil, so `extBytes == nil` holds when there is none.
unfoldable pub locate : List Certificate → Option (Bytes × Certificate)
locate [] = none
locate (cert ∷ certs) = found_in cert (locate certs) (find_extension cert.extensions)

abbrev link_reason : ℕ → Option Text → Option Text → Option Text
link_reason i none further = further
link_reason i (some e) further =
    some (text "chain link " ++ decimal i ++ text " signature invalid: " ++ e)

-- The reason why some certificate of a chain is not signed by the next, from link `i` on.
unfoldable pub check_links : Certificates → ℕ → List Certificate → Option Text
check_links x i (child ∷ parent ∷ certs) =
    link_reason i (x.check_signature_from child parent) (check_links x (suc i) (parent ∷ certs))
check_links x i _ = none

abbrev same_bytes : Option Bytes → Bytes → Bool
same_bytes none challenge = false
same_bytes (some nonce) challenge = str_eq nonce challenge

unfoldable pub nonce_matches : AttestationBlob → AkaParsed → Bool
nonce_matches blob parsed =
    if str_eq blob.nonce [] then true else same_bytes (decode_string blob.nonce) parsed.challenge

abbrev proof_verifies : Crypto → AttestationBlob → Option Bytes → Option Bytes → Bool
proof_verifies c blob none proof = false
proof_verifies c blob (some key) none = false
proof_verifies c blob (some key) (some proof) =
    verify_p1363_signature c key (attestation_binding_input blob) proof

unfoldable pub proof_holds : Crypto → AttestationBlob → Certificate → Bool
proof_holds c blob cert =
    if str_eq blob.bound_device_pk [] && str_eq blob.proof []
    then true
    else proof_verifies c blob cert.public_key (decode_string blob.proof)

abbrev pub is_trusted : Option Text → Bool
is_trusted none = true
is_trusted (some e) = false

abbrev verdict_reason : Option Text → Text
verdict_reason none = text "chain verified against bundled Google AKA roots"
verdict_reason (some e) = text "chain does not anchor at a known Google AKA root: " ++ e

unfoldable pub assemble : AkaParsed → Option Text → Verdict
assemble parsed verify_err = record {
  verified = is_trusted verify_err;
  security_level = security_level_string parsed.security_level;
  hardware_backed = is_value 1 parsed.security_level || is_value 2 parsed.security_level;
  trusted_root = is_trusted verify_err;
  verified_boot_state =
      if parsed.root_of_trust_present
      then verified_boot_state_string parsed.verified_boot_state
      else [];
  device_locked = parsed.root_of_trust_present && parsed.device_locked;
  app_package_names = parsed.package_names;
  app_signing_cert_sha256_hex = parsed.signing_cert_digests;
  reason = verdict_reason verify_err;
}

unfoldable pub judge : Crypto → AttestationBlob → Option Text → Certificate → AkaParsed → Verdict
judge c blob verify_err cert parsed =
    if not (nonce_matches blob parsed)
    then refused (is_trusted verify_err) (text "attestation challenge does not match request nonce")
    else if not (proof_holds c blob cert)
    then refused (is_trusted verify_err) (text "attested key proof did not verify")
    else assemble parsed verify_err

module _ (asn1 : Asn1) (c : Crypto) where
  unfoldable pub judge_extension :
      AttestationBlob → Option Text → Option (Bytes × Certificate) → Result Verdict
  judge_extension blob verify_err none = ok (
      refused (is_trusted verify_err)
        (text "certificate chain missing Android Key Attestation extension"))
  judge_extension blob verify_err (some (ext, cert)) = do
    parsed ← in_context (text "parse attestation extension") (parse_key_description asn1 ext)
    ok (judge c blob verify_err cert parsed)

module _ (x : Certificates) (asn1 : Asn1) (c : Crypto) where
  abbrev pub judge_links :
      List Certificate
      → ℕ
      → AttestationBlob
      → Certificate
      → List Certificate
      → Option Text
      → Result Verdict
  judge_links roots now blob leaf intermediates (some reason) = ok (refused false reason)
  judge_links roots now blob leaf intermediates none =
      judge_extension asn1 c blob (x.verify roots intermediates now leaf)
        (locate (reverse (leaf ∷ intermediates)))

  unfoldable pub judge_chain :
      List Certificate → ℕ → AttestationBlob → List Certificate → Result Verdict
  judge_chain roots now blob [] = ok (refused false (text "empty cert chain"))
  judge_chain roots now blob (leaf ∷ intermediates) =
      judge_links roots now blob leaf intermediates (check_links x 0 (leaf ∷ intermediates))

-- The text of the error that encoding/base64 reports is an argument.
abbrev pub decoded_token : (Text → Text) → Text → Option Bytes → Text ⊎ Bytes
decoded_token corrupt_input token none = inl (corrupt_input token)
decoded_token corrupt_input token (some bytes) = inr bytes

module _ (x : Certificates) (asn1 : Asn1) (c : Crypto) (corrupt_input : Text → Text) where
  unfoldable pub judge_token : Option (List Certificate) → ℕ → AttestationBlob → Result Verdict
  judge_token none now blob = ok (refused false (text "verifier has no roots pool configured"))
  judge_token (some roots) now blob = do
    token_bytes ←
        wrap (text "decode token base64")
          (decoded_token corrupt_input blob.token (decode_string blob.token))
    chain ← in_context (text "parse cert chain") (parse_length_prefixed_chain x token_bytes)
    judge_chain x asn1 c roots now blob chain

  -- `Verify` of a verifier with these roots.
  unfoldable pub verify : Option (List Certificate) → ℕ → AttestationBlob → Result Verdict
  verify roots now blob =
      if not (str_eq blob.platform (text "ANDROID"))
      then ok (refused false (text "non-Android platform"))
      else if str_eq blob.token []
      then ok (refused false (text "empty token"))
      else judge_token roots now blob
