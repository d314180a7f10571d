-- ===== src/Tests/Apple.antt =====
-- Runs of app_attest.go on a chain of two certificates.
use npvtunnel_creator_server.Base.{
  ℕ, zero, suc, ◌<◌, ◌≢◌, arith, ◌%◌, ◌≡◌, ◌↔◌, refl, true, [], ◌∷◌, ◌++◌, none, some, Bytes, Text,
  text, ◌⊎◌, inl, inr, length, lookup, insert, decimal, size, str_eq, pos,
}
use npvtunnel_creator_server.Base.Results.{ok, stuck}
use npvtunnel_creator_server.Base64.{value, values, regroup, decode_string}
use npvtunnel_creator_server.Policy.{
  AttestationBlob, arm_for, verdict, failed, Verifiers, lookup_verifier, new_verifier_registry,
}
use npvtunnel_creator_server.Policy.Evaluate.{
  AttestationDecision, decided, granted, is_attested, apply_mode, run_verifier,
  evaluate_attestation_policy,
}
use npvtunnel_creator_server.Policy.Device.{strict_device_attestation_policy}
use npvtunnel_creator_server.Signing.{zeros}
use npvtunnel_creator_server.Android.{Certificate, Certificates, RawValue, Asn1}
use npvtunnel_creator_server.Android.Verify.{check_links}
use npvtunnel_creator_server.Apple.Layout.{LaidOut, parse-iff_LaidOut}
use npvtunnel_creator_server.Apple.{AppAttestAuthData, AppAttestObject, AppAttestOps}
use npvtunnel_creator_server.Apple.AuthData.{
  big_endian_from, big_endian, parse_app_attest_auth_data, marshal_uncompressed,
}
use npvtunnel_creator_server.Apple.Compare.{bytes_equal_constant_time, differing_bits}
use npvtunnel_creator_server.Apple.Verify.{
  apple_app_attest_oid, aaguid_prod, find_nonce, extract_app_attest_nonce, app_verdict, unparsed,
  judge_aaguid, judge_key, judge_auth_data, judge_nonce, parse_certificates, judge_x5c,
  judge_object, verify_with_app_id,
}
use npvtunnel_creator_server.Apple.Bound.{AppBound}
use npvtunnel_creator_server.Apple.Trust.{Presented, Genuine}
use npvtunnel_creator_server.Apple.Verdicts.{
  verify_with_app_id-unparsed, verify_with_app_id-iff_Genuine,
}
use npvtunnel_creator_server.Apple.Ends.{verify_with_app_id-ne-stuck}
use npvtunnel_creator_server.Apple.Device.{apple_device_passes}
use npvtunnel_creator_server.Tests.Attested.{asn1, corrupt, package_info_consumes}
use npvtunnel_creator_server.Tests.Policies.{ops}

-- A digest that tells texts apart by their length.
abbrev sha256 : Bytes → Bytes
sha256 b = (length b % 256) ∷ zeros 31

-- The byte 0 opens a sequence, any other the element with the nonce.
abbrev raw_value : Bytes → Text ⊎ (RawValue × Bytes)
raw_value [] = inl (text "no value")
raw_value (zero ∷ bs) =
    inr (record { class = pos 0; tag = pos 16; bytes = bs; full_bytes = none }, [])
raw_value (suc b ∷ bs) =
    inr (record { class = pos 2; tag = pos 1; bytes = bs; full_bytes = none }, [])

abbrev octets : Bytes → Text ⊎ (Bytes × Bytes)
octets [] = inl (text "no value")
octets (b ∷ bs) = inr (b ∷ bs, [])

abbrev nonces : Asn1
nonces = record {
  key_description = asn1.key_description;
  raw_value = raw_value;
  octets = octets;
  package_info = asn1.package_info;
  root_of_trust = asn1.root_of_trust;
}

abbrev leaf_with : ℕ → Certificate
leaf_with n = record {
  raw = n ∷ [];
  extensions = record { id = apple_app_attest_oid; value = 0 ∷ 1 ∷ n ∷ zeros 31 } ∷ [];
  public_key = some (4 ∷ []);
}

-- A leaf is one byte, the digest that it embeds.
abbrev certificates : Certificates
certificates = record {
  parse_certificate = parse_der;
  check_signature_from = λ child parent. none;
  verify = λ roots intermediates now cert. none;
}
  where
    parse_der : Bytes → Text ⊎ Certificate
    parse_der [] = inl (text "no certificate")
    parse_der (n ∷ bs) = inr (leaf_with n)

abbrev app_id : Text
app_id = text "TEAM.app"

abbrev auth_data : Bytes
auth_data = 8 ∷ zeros 31 ++ 0x40 ∷ 0 ∷ 0 ∷ 0 ∷ 0 ∷ aaguid_prod ++ 0 ∷ 32 ∷ 65 ∷ zeros 31

abbrev object_with : Bytes → ℕ → AppAttestObject
object_with bytes n = record {
  fmt = text "apple-appattest";
  x5c = (n ∷ []) ∷ (7 ∷ []) ∷ [];
  receipt = [];
  auth_data = bytes;
}

-- The token's first byte chooses the object: authenticator data, or none.
abbrev app_attest : AppAttestOps
app_attest = record {
  unmarshal = unmarshal;
  sha256 = sha256;
  point = λ key. record { bit_size = 256; x = 1 ∷ []; y = 2 ∷ [] };
}
  where
    unmarshal : Bytes → Text ⊎ AppAttestObject
    unmarshal [] = inl (text "no object")
    unmarshal (zero ∷ bs) = inr (object_with auth_data 119)
    unmarshal (suc b ∷ bs) = inr (object_with [] 32)

abbrev blob_of : Text → AttestationBlob
blob_of token = record {
  platform = text "IOS";
  token = token;
  nonce = text "BQ";
  bound_device_pk = [];
  proof = [];
}

abbrev blob : AttestationBlob
blob = blob_of (text "AA")

abbrev bare : AttestationBlob
bare = blob_of (text "AQ")

verified_object :
    verify_with_app_id certificates nonces app_attest corrupt (some []) 0 blob app_id
    ≡ ok (app_verdict (text "prod") none)
unfolding verify_with_app_id judge_object judge_x5c judge_nonce judge_auth_data judge_key
    judge_aaguid parse_certificates check_links extract_app_attest_nonce find_nonce
    parse_app_attest_auth_data marshal_uncompressed big_endian big_endian_from
    bytes_equal_constant_time differing_bits decode_string values value regroup str_eq
verified_object = refl

verify_with_app_id-iff_Genuine_example :
    ((verify_with_app_id certificates nonces app_attest corrupt (some []) 0 blob app_id
        ≡ ok (app_verdict (text "prod") none))
      × (true ≡ true))
    ↔ Genuine certificates nonces app_attest
        (some [])
        0
        blob
        app_id
        (app_verdict (text "prod") none)
verify_with_app_id-iff_Genuine_example =
    verify_with_app_id-iff_Genuine certificates nonces app_attest corrupt (some []) 0 blob app_id
      (app_verdict (text "prod") none)

bare_object : Presented certificates nonces app_attest (some []) 0 bare app_id
unfolding parse_certificates check_links extract_app_attest_nonce find_nonce decode_string values
    value regroup str_eq
bare_object = record {
  pool = [];
  token_bytes = 1 ∷ [];
  challenge = 5 ∷ [];
  att = object_with [] 32;
  leaf = leaf_with 32;
  intermediates = leaf_with 7 ∷ [];
  for_ios = refl;
  given = λ e. cc;
  app_named = λ e. cc;
  has_roots = refl;
  decodes = refl;
  challenged = refl;
  object = refl;
  format = refl;
  chain = refl;
  links = refl;
  anchored = refl;
  embeds = refl;
}

bare_verdict :
    verify_with_app_id certificates nonces app_attest corrupt (some []) 0 bare app_id
    ≡ ok (unparsed true (text "authData too short (0 bytes; need >= 55)"))
unfolding bare_object decimal parse_app_attest_auth_data
bare_verdict =
    verify_with_app_id-unparsed certificates nonces app_attest corrupt (some []) 0 bare app_id
      (text "authData too short (0 bytes; need >= 55)") bare_object refl

abbrev verifiers : Verifiers
verifiers = record {
  verify_android = λ b. failed (text "no chain");
  verify_apple = λ b id. verdict (app_verdict (text "prod") none);
}

abbrev passed : AttestationDecision
passed = granted (pos 60) (some (app_verdict (text "prod") none))

passed_by_policy :
    evaluate_attestation_policy ops verifiers
      (some (strict_device_attestation_policy app_id))
      blob
      (lookup_verifier new_verifier_registry)
      (pos 60)
    ≡ decided passed
unfolding evaluate_attestation_policy strict_device_attestation_policy arm_for lookup size
    lookup_verifier apply_mode is_attested run_verifier insert str_eq
passed_by_policy = refl

apple_device_passes_example :
    (p : Presented certificates nonces app_attest (some []) 0 blob app_id) × AppBound app_attest
      app_id p.leaf.public_key p.att.auth_data
      (app_verdict (text "prod") none)
apple_device_passes_example =
    apple_device_passes certificates nonces app_attest corrupt (some []) 0 verifiers app_id blob ops
      (pos 60) passed (rw verified_object refl) refl passed_by_policy refl

abbrev parsed : AppAttestAuthData
parsed = record {
  rp_id_hash = 8 ∷ zeros 31;
  flags = 0x40;
  sign_counter = 0;
  aaguid = aaguid_prod;
  credential_id = 65 ∷ zeros 31;
}

parse-iff_LaidOut_example :
    (parse_app_attest_auth_data auth_data ≡ ok parsed) ↔ LaidOut auth_data parsed
parse-iff_LaidOut_example = parse-iff_LaidOut auth_data parsed

raw_value_consumes :
    (b : Bytes) (v : RawValue) (rest : Bytes) → raw_value b ≡ inr (v, rest) → length rest < length b
raw_value_consumes [] v rest e = cc
raw_value_consumes (zero ∷ bs) v rest e = ground arith
raw_value_consumes (suc b ∷ bs) v rest e = ground arith

octets_consumes : (b a rest : Bytes) → octets b ≡ inr (a, rest) → length rest < length b
octets_consumes [] a rest e = cc
octets_consumes (b ∷ bs) a rest e = ground arith

verify_with_app_id-ne-stuck_example :
    verify_with_app_id certificates nonces app_attest corrupt (some []) 0 blob app_id ≢ stuck
verify_with_app_id-ne-stuck_example =
    verify_with_app_id-ne-stuck certificates nonces
      (record {
        raw_value_consumes = raw_value_consumes;
        octets_consumes = octets_consumes;
        package_info_consumes = package_info_consumes;
      })
      app_attest corrupt (some []) 0 blob app_id
