-- ===== src/Tests/Attested.antt =====
-- Runs of aka.go on a chain of two certificates.
use npvtunnel_creator_server.Base.{
  ℕ, zero, suc, ◌<◌, ◌≡◌, ◌≢◌, ◌↔◌, refl, true, List, [], ◌∷◌, none, some, Bytes, Text, text, ◌⊎◌,
  inl, inr, length, take, drop, lookup, size, str_eq, pos, arith,
}
use npvtunnel_creator_server.Base.Results.{ok, stuck}
use npvtunnel_creator_server.Base64.{value, values, regroup, decode_string}
use npvtunnel_creator_server.Policy.{
  AttestationBlob, arm_for, verdict, failed, Verifiers, lookup_verifier, new_verifier_registry,
}
use npvtunnel_creator_server.Policy.Evaluate.{
  AttestationDecision, decided, granted, is_attested, apply_mode, run_verifier,
  evaluate_attestation_policy, default_android_package_name,
}
use npvtunnel_creator_server.Policy.Device.{strict_device_attestation_policy}
use npvtunnel_creator_server.Signing.{Crypto, verify_p1363_signature, attestation_binding_input}
use npvtunnel_creator_server.Android.{
  Certificate, Certificates, RawValue, KeyDescription, RootOfTrust, PackageInfo, AkaParsed, Asn1,
}
use npvtunnel_creator_server.Android.Chain.{parse_records, parse_length_prefixed_chain}
use npvtunnel_creator_server.Android.Description.{
  collect, hex_encode, parse_attestation_application_id, walk, find_attestation_application_id,
  find_root_of_trust, parse_key_description,
}
use npvtunnel_creator_server.Android.Verify.{
  android_key_attestation_oid, find_extension, locate, check_links, nonce_matches, proof_holds,
  verified_boot_state_string, assemble, judge, judge_extension, judge_chain, judge_token, verify,
}
use npvtunnel_creator_server.Android.Trust.{Trusted, verify-Trusted}
use npvtunnel_creator_server.Android.Records.{records, Holds, parse-iff_records}
use npvtunnel_creator_server.Android.Ends.{verify-ne-stuck}
use npvtunnel_creator_server.Android.Device.{Attested, android_device_passes}
use npvtunnel_creator_server.Tests.Policies.{ops}

-- The leaf carries the extension; its value is the byte 8.
abbrev leaf : Certificate
leaf = record {
  raw = 1 ∷ [];
  extensions = record { id = android_key_attestation_oid; value = 8 ∷ [] } ∷ [];
  public_key = some (4 ∷ []);
}

abbrev root : Certificate
root = record { raw = 2 ∷ []; extensions = []; public_key = none }

abbrev parse_der : Bytes → Text ⊎ Certificate
parse_der (suc zero ∷ []) = inr leaf
parse_der (suc (suc zero) ∷ []) = inr root
parse_der _ = inl (text "no certificate")

abbrev certificates : Certificates
certificates = record {
  parse_certificate = parse_der;
  check_signature_from = λ child parent. none;
  verify = λ roots intermediates now cert. none;
}

abbrev sequence : Bytes → RawValue
sequence bytes = record { class = pos 0; tag = pos 16; bytes = bytes; full_bytes = some bytes }

abbrev set : Bytes → RawValue
set bytes = record { class = pos 0; tag = pos 17; bytes = bytes; full_bytes = some bytes }

abbrev tagged : ℕ → Bytes → RawValue
tagged tag bytes = record { class = pos 2; tag = pos tag; bytes = bytes; full_bytes = some bytes }

-- The byte 0 opens a sequence, 1 a set of one byte, 2 the application id, and any other the root of
-- trust.
abbrev raw_value : Bytes → Text ⊎ (RawValue × Bytes)
raw_value [] = inl (text "no value")
raw_value (zero ∷ bs) = inr (sequence bs, [])
raw_value (suc zero ∷ bs) = inr (set (take 1 bs), drop 1 bs)
raw_value (suc (suc zero) ∷ bs) = inr (tagged 709 bs, [])
raw_value (_ ∷ bs) = inr (tagged 704 bs, [])

abbrev digest : Bytes
digest =
    0xe0 ∷ 0x3d ∷ 0xcc ∷ 0x51 ∷ 0xaa ∷ 0xd4 ∷ 0x54 ∷ 0x56 ∷ 0xb9 ∷ 0x7b ∷ 0x63 ∷ 0x31 ∷ 0xc0 ∷ 0x8a
    ∷ 0x2f ∷ 0x6a ∷ 0x67 ∷ 0xeb ∷ 0x95 ∷ 0x16 ∷ 0xe9 ∷ 0x31 ∷ 0xa3 ∷ 0xe6 ∷ 0xce ∷ 0xfc ∷ 0xd0
    ∷ 0xee ∷ 0xee ∷ 0x58 ∷ 0x01 ∷ 0xd4 ∷ []

-- One byte stands for the digest of the app's certificate.
abbrev octets : Bytes → Text ⊎ (Bytes × Bytes)
octets [] = inl (text "no value")
octets (b ∷ []) = inr (digest, [])
octets (b ∷ bs) = inr (b ∷ bs, [])

abbrev package_info : Bytes → Text ⊎ (PackageInfo × Bytes)
package_info [] = inl (text "no value")
package_info (b ∷ bs) =
    inr (record { package_name = default_android_package_name; version = pos 1 }, bs)

abbrev described_key : KeyDescription
described_key = record {
  attestation_version = pos 4;
  attestation_security_level = pos 1;
  keymaster_version = pos 4;
  keymaster_security_level = pos 1;
  attestation_challenge = 5 ∷ [];
  unique_id = [];
  software_enforced = sequence (2 ∷ 0 ∷ 1 ∷ 7 ∷ 1 ∷ 7 ∷ []);
  tee_enforced = sequence (3 ∷ []);
}

abbrev booted : RootOfTrust
booted = record {
  verified_boot_key = [];
  device_locked = true;
  verified_boot_state = pos 0;
  verified_boot_hash = [];
}

abbrev pub asn1 : Asn1
asn1 = record {
  key_description = λ b. inr (described_key, []);
  raw_value = raw_value;
  octets = octets;
  package_info = package_info;
  root_of_trust = λ b. inr (booted, []);
}

abbrev crypto : Crypto
crypto = record {
  on_curve = λ b. true;
  ecdsa_verify = λ key msg r s. true;
  ecdsa_sign = λ msg. none;
}

abbrev zero_bytes : ℕ → Bytes
zero_bytes zero = []
zero_bytes (suc n) = 0 ∷ zero_bytes n

abbrev token : Bytes
token = 0 ∷ 1 ∷ 1 ∷ 0 ∷ 1 ∷ 2 ∷ []

abbrev blob : AttestationBlob
blob = record {
  platform = text "ANDROID";
  token = text "AAEBAAEC";
  nonce = text "BQ";
  bound_device_pk = text "device";
  proof =
      text "AAAAAAAAAAAAAAAAAAAAAAAAAAAAAAAAAAAAAAAAAAAAAAAAAAAAAAAAAAAAAAAAAAAAAAAAAAAAAAAAAAAAAA";
}

abbrev pub corrupt : Text → Text
corrupt t = text "illegal base64 data"

abbrev found : AkaParsed
found = record {
  security_level = pos 1;
  challenge = 5 ∷ [];
  root_of_trust_present = true;
  verified_boot_state = pos 0;
  device_locked = true;
  package_names = default_android_package_name ∷ [];
  signing_cert_digests = hex_encode digest ∷ [];
}

verified_chain : verify certificates asn1 crypto corrupt (some []) 0 blob ≡ ok (assemble found none)
unfolding verify judge_token judge_chain judge_extension judge parse_length_prefixed_chain
    parse_records check_links locate find_extension parse_key_description
    find_attestation_application_id find_root_of_trust walk parse_attestation_application_id collect
    hex_encode nonce_matches proof_holds verify_p1363_signature attestation_binding_input
    decode_string values value regroup str_eq
verified_chain = refl

verify-Trusted_example : Trusted certificates asn1 crypto (some []) 0 blob (assemble found none)
verify-Trusted_example =
    verify-Trusted certificates asn1 crypto corrupt (some []) 0 blob (assemble found none)
      verified_chain (unfold assemble in refl)

parse-iff_records_example :
    (parse_length_prefixed_chain certificates token ≡ ok (leaf ∷ root ∷ []))
    ↔ ((ders : List Bytes) × (token ≡ records ders) × Holds certificates ders (leaf ∷ root ∷ []))
parse-iff_records_example = parse-iff_records certificates token (leaf ∷ root ∷ []) (omega arith)

raw_value_consumes :
    (b : Bytes) (v : RawValue) (rest : Bytes) → raw_value b ≡ inr (v, rest) → length rest < length b
raw_value_consumes [] v rest e = cc
raw_value_consumes (zero ∷ bs) v rest e = ground arith
raw_value_consumes (suc zero ∷ []) v rest e = ground arith
raw_value_consumes (suc zero ∷ b ∷ bs) v rest e = ground arith
raw_value_consumes (suc (suc zero) ∷ bs) v rest e = ground arith
raw_value_consumes (suc (suc (suc n)) ∷ bs) v rest e = ground arith

octets_consumes : (b a rest : Bytes) → octets b ≡ inr (a, rest) → length rest < length b
octets_consumes [] a rest e = cc
octets_consumes (b ∷ []) a rest e = ground arith
octets_consumes (b ∷ c ∷ bs) a rest e = ground arith

pub package_info_consumes :
    (b : Bytes) (p : PackageInfo) (rest : Bytes)
    → package_info b ≡ inr (p, rest)
    → length rest < length b
package_info_consumes [] p rest e = cc
package_info_consumes (b ∷ bs) p rest e = ground arith

verify-ne-stuck_example : verify certificates asn1 crypto corrupt (some []) 0 blob ≢ stuck
verify-ne-stuck_example =
    verify-ne-stuck asn1
      (record {
        raw_value_consumes = raw_value_consumes;
        octets_consumes = octets_consumes;
        package_info_consumes = package_info_consumes;
      })
      certificates crypto corrupt (some []) 0 blob

abbrev verifiers : Verifiers
verifiers = record {
  verify_android = λ b. verdict (assemble found none);
  verify_apple = λ b id. failed (text "no app");
}

abbrev passed : AttestationDecision
passed = granted (pos 60) (some (assemble found none))

passed_by_policy :
    evaluate_attestation_policy ops verifiers
      (some (strict_device_attestation_policy []))
      blob
      (lookup_verifier new_verifier_registry)
      (pos 60)
    ≡ decided passed
unfolding evaluate_attestation_policy strict_device_attestation_policy arm_for lookup size
    lookup_verifier apply_mode is_attested run_verifier assemble verified_boot_state_string
    hex_encode str_eq
passed_by_policy = refl

android_device_passes_example : Attested ops certificates asn1 crypto (some []) 0 blob
android_device_passes_example =
    android_device_passes ops certificates asn1 crypto corrupt (some []) 0 verifiers [] blob
      (pos 60) passed (rw verified_chain refl) refl passed_by_policy refl
