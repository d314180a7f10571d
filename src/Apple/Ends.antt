-- ===== src/Apple/Ends.antt =====
-- The loop over the elements of the credCert extension ends, so that `verifyWithAppID` returns.
use npvtunnel_creator_server.Base.{
  ℕ, zero, suc, refl, ◌≤◌, ◌≢◌, not, List, [], ◌∷◌, ◌++◌, Option, none, some, Bytes, Text, text,
  length, decimal, Option-cases, ◌⊎◌, inl, inr, arith, if◌then◌else◌, str_eq,
}
use npvtunnel_creator_server.Base.Results.{
  Result, ok, err, stuck, wrap, wrap-eq-ok, wrap-ne-stuck, >>=-ne-stuck, if-ne-stuck, ok-ne-stuck,
}
use npvtunnel_creator_server.Base64.{decode_string}
use npvtunnel_creator_server.Policy.{AttestationBlob}
use npvtunnel_creator_server.Android.{
  Extension, Certificate, Certificates, Asn1, RawValue, Advances,
}
use npvtunnel_creator_server.Android.Description.{is_entry}
use npvtunnel_creator_server.Android.Verify.{check_links, decoded_token}
use npvtunnel_creator_server.Apple.{AppAttestObject, AppAttestOps, AppAttestAuthData}
use npvtunnel_creator_server.Apple.Compare.{bytes_equal_constant_time}
use npvtunnel_creator_server.Apple.AuthData.{parse_app_attest_auth_data}
use npvtunnel_creator_server.Apple.Verify.{
  apple_app_attest_oid, first_octets, find_nonce, nonce_of, extract_app_attest_nonce,
  expected_nonce, judge_auth_data, judge_nonce, parse_certificates, judge_x5c, judge_object,
  judge_blob, verify_with_app_id,
}

auth_data-ne-stuck : (raw : Bytes) → parse_app_attest_auth_data raw ≢ stuck
unfolding parse_app_attest_auth_data
auth_data-ne-stuck raw h = ground arith

first_octets-ne-stuck : (r : Text ⊎ (Bytes × Bytes)) → first_octets r ≢ stuck
first_octets-ne-stuck (inl e) h = cc
first_octets-ne-stuck (inr p) h = cc

module _ (asn1 : Asn1) (a : Advances asn1) where
  find_nonce-ne-stuck :
      (fuel : ℕ) (body : Bytes) → length body ≤ fuel → find_nonce asn1 fuel body ≢ stuck
  unfolding find_nonce
  find_nonce-ne-stuck fuel [] h = λ e. cc
  find_nonce-ne-stuck zero (b ∷ bs) h = absurd (omega arith)
  find_nonce-ne-stuck (suc fuel) (b ∷ bs) h =
      >>=-ne-stuck (wrap (text "iterate credCert body") (asn1.raw_value (b ∷ bs)))
        (λ p.
          if is_entry 1 p.0 then first_octets (asn1.octets p.0.bytes) else find_nonce asn1 fuel p.1)
        (wrap-ne-stuck (text "iterate credCert body") _)
        (λ (v, rest) e.
          if-ne-stuck (is_entry 1 v) _ _ (first_octets-ne-stuck (asn1.octets v.bytes)) (
            find_nonce-ne-stuck fuel rest (
              omega (
                arith,
                a.raw_value_consumes (b ∷ bs) v rest
                    (wrap-eq-ok (text "iterate credCert body") (asn1.raw_value (b ∷ bs)) e),
              ))))

  nonce_of-ne-stuck : (p : RawValue × Bytes) → nonce_of asn1 p ≢ stuck
  nonce_of-ne-stuck (outer, rest) h =
      ground (arith, find_nonce-ne-stuck (length outer.bytes) outer.bytes (omega arith))

  extract-ne-stuck : (exts : List Extension) → extract_app_attest_nonce asn1 exts ≢ stuck
  unfolding extract_app_attest_nonce
  extract-ne-stuck [] = λ e. cc
  extract-ne-stuck (ext ∷ exts) =
      if-ne-stuck (not (str_eq ext.id apple_app_attest_oid)) _ _ (extract-ne-stuck exts) (
        >>=-ne-stuck (wrap (text "unmarshal outer SEQUENCE") (asn1.raw_value ext.value))
          (λ p. nonce_of asn1 p) (wrap-ne-stuck (text "unmarshal outer SEQUENCE") _)
          (λ p _. nonce_of-ne-stuck p))

module _ (o : AppAttestOps) (app_id : Text) (verify_err : Option Text) (key : Option Bytes) where
  judge_auth_data-ne-stuck :
      (r : Result AppAttestAuthData) → r ≢ stuck → judge_auth_data o app_id verify_err key r ≢ stuck
  unfolding judge_auth_data
  judge_auth_data-ne-stuck stuck n h = n refl
  judge_auth_data-ne-stuck (err e) n h = cc
  judge_auth_data-ne-stuck (ok ad) n h = ground arith

  judge_nonce-ne-stuck :
      (challenge auth_data : Bytes) (r : Result Bytes)
      → r ≢ stuck
      → judge_nonce o app_id challenge auth_data verify_err key r ≢ stuck
  unfolding judge_nonce
  judge_nonce-ne-stuck challenge auth_data stuck n = λ h. n refl
  judge_nonce-ne-stuck challenge auth_data (err e) n = λ h. cc
  judge_nonce-ne-stuck challenge auth_data (ok extracted) n =
      if-ne-stuck (not (bytes_equal_constant_time (expected_nonce o auth_data challenge) extracted))
        _ _ (ok-ne-stuck _)
        (judge_auth_data-ne-stuck (parse_app_attest_auth_data auth_data)
          (auth_data-ne-stuck auth_data))

parse_certificates-ne-stuck :
    (x : Certificates) (i : ℕ) (ders : List Bytes) → parse_certificates x i ders ≢ stuck
unfolding parse_certificates
parse_certificates-ne-stuck x i [] = λ e. cc
parse_certificates-ne-stuck x i (der ∷ ders) =
    >>=-ne-stuck (wrap (text "parse cert " ++ decimal i) (x.parse_certificate der)) _
      (wrap-ne-stuck (text "parse cert " ++ decimal i) _)
      (λ c _.
        >>=-ne-stuck (parse_certificates x (suc i) ders) _
          (parse_certificates-ne-stuck x (suc i) ders) (λ chain _. ok-ne-stuck (c ∷ chain)))

module _ (x : Certificates) (asn1 : Asn1) (a : Advances asn1) (o : AppAttestOps) where
  judge_x5c-ne-stuck :
      (pool : List Certificate) (now : ℕ) (app_id : Text) (challenge auth_data : Bytes)
      (chain : List Certificate)
      → judge_x5c x asn1 o pool now app_id challenge auth_data chain ≢ stuck
  unfolding judge_x5c
  judge_x5c-ne-stuck pool now app_id challenge auth_data [] = λ e. cc
  judge_x5c-ne-stuck pool now app_id challenge auth_data (leaf ∷ rest) =
      elim (Option-cases (check_links x 0 (leaf ∷ rest))) [
        | inr (reason, bad) ↦ rw bad (λ e. cc)
        | inl fine ↦ rw fine (
            judge_nonce-ne-stuck o app_id (x.verify pool rest now leaf) leaf.public_key challenge
              auth_data _ (extract-ne-stuck asn1 a leaf.extensions))
      ]

  judge_object-ne-stuck :
      (pool : List Certificate) (now : ℕ) (app_id : Text) (challenge : Bytes)
      (att : AppAttestObject)
      → judge_object x asn1 o pool now app_id challenge att ≢ stuck
  unfolding judge_object
  judge_object-ne-stuck pool now app_id challenge att =
      if-ne-stuck (not (str_eq att.fmt (text "apple-appattest"))) _ _ (ok-ne-stuck _) (
        >>=-ne-stuck (parse_certificates x 0 att.x5c) _ (parse_certificates-ne-stuck x 0 att.x5c)
          (λ chain _. judge_x5c-ne-stuck pool now app_id challenge att.auth_data chain))

  judge_blob-ne-stuck :
      (corrupt_input : Text → Text) (roots : Option (List Certificate)) (now : ℕ)
      (blob : AttestationBlob) (app_id : Text)
      → judge_blob x asn1 o corrupt_input roots now blob app_id ≢ stuck
  judge_blob-ne-stuck corrupt_input none now blob app_id = λ e. cc
  judge_blob-ne-stuck corrupt_input (some pool) now blob app_id =
      if-ne-stuck (str_eq app_id []) _ _ (ok-ne-stuck _) (
        >>=-ne-stuck
          (wrap (text "decode token base64")
            (decoded_token corrupt_input blob.token (decode_string blob.token)))
          _ (wrap-ne-stuck (text "decode token base64") _)
          (λ bytes _.
            >>=-ne-stuck
              (wrap (text "decode nonce base64")
                (decoded_token corrupt_input blob.nonce (decode_string blob.nonce)))
              _ (wrap-ne-stuck (text "decode nonce base64") _)
              (λ challenge _.
                >>=-ne-stuck (wrap (text "decode CBOR attestation") (o.unmarshal bytes)) _
                  (wrap-ne-stuck (text "decode CBOR attestation") _)
                  (λ att _. judge_object-ne-stuck pool now app_id challenge att))))

  -- `verifyWithAppID` returns on every input.
  pub verify_with_app_id-ne-stuck :
      (corrupt_input : Text → Text) (roots : Option (List Certificate)) (now : ℕ)
      (blob : AttestationBlob) (app_id : Text)
      → verify_with_app_id x asn1 o corrupt_input roots now blob app_id ≢ stuck
  unfolding verify_with_app_id
  verify_with_app_id-ne-stuck corrupt_input roots now blob app_id =
      if-ne-stuck (not (str_eq blob.platform (text "IOS"))) _ _ (ok-ne-stuck _) (
        if-ne-stuck (str_eq blob.token []) _ _ (ok-ne-stuck _)
          (judge_blob-ne-stuck corrupt_input roots now blob app_id))
