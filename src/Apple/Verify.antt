-- ===== src/Apple/Verify.antt =====
-- `verifyWithAppID` of app_attest.go and the search for the nonce in the leaf.
use npvtunnel_creator_server.Base.{
  ℕ, zero, suc, Bool, true, false, not, List, [], ◌∷◌, ◌++◌, Option, none, some, Bytes, Text, text,
  if◌then◌else◌, str_eq, length, ◌==◌, decimal, decimal_int, ◌⊎◌,
}
use npvtunnel_creator_server.Base.Results.{Result, ok, err, stuck, ◌>>=◌, wrap}
use npvtunnel_creator_server.Base64.{decode_string}
use npvtunnel_creator_server.Policy.{AttestationBlob, Verdict}
use npvtunnel_creator_server.Android.{Extension, Certificate, Certificates, RawValue, Asn1}
use npvtunnel_creator_server.Android.Description.{is_sequence, is_entry, hex_encode}
use npvtunnel_creator_server.Android.Verify.{refused, check_links, is_trusted, decoded_token}
use npvtunnel_creator_server.Apple.{AppAttestObject, AppAttestAuthData, AppAttestOps}
use npvtunnel_creator_server.Apple.Compare.{bytes_equal_constant_time}
use npvtunnel_creator_server.Apple.AuthData.{parse_app_attest_auth_data, marshal_uncompressed}

abbrev pub apple_app_attest_oid : List ℕ
apple_app_attest_oid = 1 ∷ 2 ∷ 840 ∷ 113635 ∷ 100 ∷ 8 ∷ 2 ∷ []

abbrev pub aaguid_prod : Bytes
aaguid_prod = text "appattest" ++ 0 ∷ 0 ∷ 0 ∷ 0 ∷ 0 ∷ 0 ∷ 0 ∷ []

abbrev pub aaguid_dev : Bytes
aaguid_dev = text "appattestdevelop"

abbrev pub first_octets : Text ⊎ (Bytes × Bytes) → Result Bytes
first_octets read = wrap (text "unmarshal nonce OCTET STRING") read >>= λ p. ok p.0

module _ (asn1 : Asn1) where
  -- The loop over the elements of the SEQUENCE.
  unfoldable pub find_nonce : ℕ → Bytes → Result Bytes
  find_nonce fuel [] = err (text "credCert SEQUENCE missing [1] tagged nonce")
  find_nonce zero (b ∷ bs) = stuck
  find_nonce (suc fuel) (b ∷ bs) =
      wrap (text "iterate credCert body") (asn1.raw_value (b ∷ bs)) >>= λ p.
      let next = find_nonce fuel p.1 in
      if is_entry 1 p.0 then first_octets (asn1.octets p.0.bytes) else next

  abbrev pub nonce_of : RawValue × Bytes → Result Bytes
  nonce_of (outer, rest) =
      if not (length rest == 0)
      then err (text "trailing bytes after credCert SEQUENCE")
      else if not (is_sequence outer)
      then err (
          text "expected outer SEQUENCE, got tag="
          ++ decimal_int outer.tag
          ++ text " class="
          ++ decimal_int outer.class)
      else find_nonce (length outer.bytes) outer.bytes

  abbrev pub nonce_in : Bytes → Result Bytes
  nonce_in value = wrap (text "unmarshal outer SEQUENCE") (asn1.raw_value value) >>= λ p. nonce_of p

  -- The first extension with the identifier decides.
  unfoldable pub extract_app_attest_nonce : List Extension → Result Bytes
  extract_app_attest_nonce [] = err (text "leaf cert missing App Attest credCert extension")
  extract_app_attest_nonce (ext ∷ exts) =
      if not (str_eq ext.id apple_app_attest_oid)
      then extract_app_attest_nonce exts
      else nonce_in ext.value

abbrev verdict_reason : Text → Option Text → Text
verdict_reason kind none = text "App Attest chain verified against Apple root; aaguid=" ++ kind
verdict_reason kind (some e) = text "chain does not anchor at Apple App Attest root: " ++ e

abbrev pub app_verdict : Text → Option Text → Verdict
app_verdict kind verify_err = record {
  verified = is_trusted verify_err;
  security_level = text "strongbox";
  hardware_backed = true;
  trusted_root = is_trusted verify_err;
  verified_boot_state = [];
  device_locked = false;
  app_package_names = [];
  app_signing_cert_sha256_hex = [];
  reason = verdict_reason kind verify_err;
}

-- The verdict on authenticator data that does not parse.
abbrev pub unparsed : Bool → Text → Verdict
unparsed trusted_root e = record {
  verified = trusted_root;
  security_level = [];
  hardware_backed = false;
  trusted_root = trusted_root;
  verified_boot_state = [];
  device_locked = false;
  app_package_names = [];
  app_signing_cert_sha256_hex = [];
  reason = text "parse authData: " ++ e;
}

unfoldable pub judge_aaguid : Option Text → Bytes → Verdict
judge_aaguid verify_err aaguid =
    if bytes_equal_constant_time aaguid aaguid_prod
    then app_verdict (text "prod") verify_err
    else if bytes_equal_constant_time aaguid aaguid_dev
    then app_verdict (text "dev") verify_err
    else refused (is_trusted verify_err)
        (text "aaguid is not an Apple App Attest value: " ++ hex_encode aaguid)

module _ (o : AppAttestOps) where
  unfoldable pub judge_key : Option Text → AppAttestAuthData → Option Bytes → Verdict
  judge_key verify_err ad none = refused false (text "leaf cert public key is not ECDSA")
  judge_key verify_err ad (some key) =
      if not
        (bytes_equal_constant_time ad.credential_id (o.sha256 (marshal_uncompressed (o.point key))))
      then refused (is_trusted verify_err) (text "credentialId does not match SHA256(leaf pubkey)")
      else judge_aaguid verify_err ad.aaguid

  unfoldable pub judge_auth_data :
      Text → Option Text → Option Bytes → Result AppAttestAuthData → Result Verdict
  judge_auth_data app_id verify_err key stuck = stuck
  judge_auth_data app_id verify_err key (err e) = ok (unparsed (is_trusted verify_err) e)
  judge_auth_data app_id verify_err key (ok ad) =
      if not (bytes_equal_constant_time ad.rp_id_hash (o.sha256 app_id))
      then ok
          (refused (is_trusted verify_err) (text "rpIdHash does not match SHA256(policy.appId)"))
      else ok (judge_key verify_err ad key)

  abbrev pub expected_nonce : Bytes → Bytes → Bytes
  expected_nonce auth_data challenge = o.sha256 (auth_data ++ o.sha256 challenge)

  unfoldable pub judge_nonce :
      Text → Bytes → Bytes → Option Text → Option Bytes → Result Bytes → Result Verdict
  judge_nonce app_id challenge auth_data verify_err key stuck = stuck
  judge_nonce app_id challenge auth_data verify_err key (err e) =
      ok (refused false (text "extract credCert nonce: " ++ e))
  judge_nonce app_id challenge auth_data verify_err key (ok extracted) =
      if not (bytes_equal_constant_time (expected_nonce auth_data challenge) extracted)
      then ok (
          refused (is_trusted verify_err)
            (text "credCert nonce mismatch (challenge does not match attestation)"))
      else judge_auth_data app_id verify_err key (parse_app_attest_auth_data auth_data)

module _ (x : Certificates) where
  unfoldable pub parse_certificates : ℕ → List Bytes → Result (List Certificate)
  parse_certificates i [] = ok []
  parse_certificates i (der ∷ ders) = do
    c ← wrap (text "parse cert " ++ decimal i) (x.parse_certificate der)
    chain ← parse_certificates (suc i) ders
    ok (c ∷ chain)

module _ (x : Certificates) (asn1 : Asn1) (o : AppAttestOps) where
  abbrev pub judge_links :
      List Certificate
      → ℕ
      → Text
      → Bytes
      → Bytes
      → Certificate
      → List Certificate
      → Option Text
      → Result Verdict
  judge_links roots now app_id challenge auth_data leaf intermediates (some reason) =
      ok (refused false reason)
  judge_links roots now app_id challenge auth_data leaf intermediates none =
      judge_nonce o app_id challenge auth_data (x.verify roots intermediates now leaf)
        leaf.public_key (extract_app_attest_nonce asn1 leaf.extensions)

  unfoldable pub judge_x5c :
      List Certificate → ℕ → Text → Bytes → Bytes → List Certificate → Result Verdict
  judge_x5c roots now app_id challenge auth_data [] = ok (refused false (text "empty x5c chain"))
  judge_x5c roots now app_id challenge auth_data (leaf ∷ intermediates) =
      judge_links roots now app_id challenge auth_data leaf intermediates
        (check_links x 0 (leaf ∷ intermediates))

  -- With no certificate in the object the chain is empty, which `judge_x5c` refuses.
  unfoldable pub judge_object :
      List Certificate → ℕ → Text → Bytes → AppAttestObject → Result Verdict
  judge_object roots now app_id challenge att =
      if not (str_eq att.fmt (text "apple-appattest"))
      then ok (refused false (text "unexpected fmt: " ++ att.fmt))
      else (parse_certificates x 0 att.x5c >>= λ chain.
          judge_x5c roots now app_id challenge att.auth_data chain)

module _ (x : Certificates) (asn1 : Asn1) (o : AppAttestOps) (corrupt_input : Text → Text) where
  abbrev pub judge_blob : Option (List Certificate) → ℕ → AttestationBlob → Text → Result Verdict
  judge_blob none now blob app_id =
      ok (refused false (text "verifier has no roots pool configured"))
  judge_blob (some roots) now blob app_id =
      if str_eq app_id []
      then ok (
          refused false
            (text "apple-app-attest requires policy.appId (TEAMID.bundle.id); none configured"))
      else do
        token_bytes ←
            wrap (text "decode token base64")
              (decoded_token corrupt_input blob.token (decode_string blob.token))
        challenge ←
            wrap (text "decode nonce base64")
              (decoded_token corrupt_input blob.nonce (decode_string blob.nonce))
        att ← wrap (text "decode CBOR attestation") (o.unmarshal token_bytes)
        judge_object x asn1 o roots now app_id challenge att

  -- `verifyWithAppID` of a verifier with these roots.
  unfoldable pub verify_with_app_id :
      Option (List Certificate) → ℕ → AttestationBlob → Text → Result Verdict
  verify_with_app_id roots now blob app_id =
      if not (str_eq blob.platform (text "IOS"))
      then ok (refused false (text "non-iOS platform"))
      else if str_eq blob.token []
      then ok (refused false (text "empty token"))
      else judge_blob roots now blob app_id
