-- ===== src/Apple/Verdicts.antt =====
-- `verifyWithAppID` of app_attest.go, on objects under an anchored chain with the right nonce.
use npvtunnel_creator_server.Base.{
  ℕ, ◌≡◌, ◌≢◌, refl, sym, ap, ◌∙◌, true, false, ◌↔◌, List, [], Option, none, Bytes, Text, text,
  str_eq, str_eq_iff, inl, inr, arith,
}
use npvtunnel_creator_server.Base.Results.{err, ok}
use npvtunnel_creator_server.Policy.{AttestationBlob, Verdict}
use npvtunnel_creator_server.Android.{Certificate, Certificates, Asn1}
use npvtunnel_creator_server.Apple.{AppAttestOps}
use npvtunnel_creator_server.Apple.Compare.{
  bytes_equal_constant_time, differing_bits, bytes_equal_constant_time_iff,
}
use npvtunnel_creator_server.Apple.AuthData.{parse_app_attest_auth_data, marshal_uncompressed}
use npvtunnel_creator_server.Apple.Bound.{AppBound, KindOf}
use npvtunnel_creator_server.Apple.Trust.{Presented, Genuine, verify_with_app_id-Genuine}
use npvtunnel_creator_server.Apple.Verify.{
  unparsed, judge_aaguid, judge_key, judge_auth_data, expected_nonce, judge_nonce, judge_x5c,
  judge_object, verify_with_app_id,
}

KindOf-verified : (aaguid : Bytes) (v : Verdict) → KindOf aaguid v → v.verified ≡ true
KindOf-verified aaguid v (inl (_, says)) = ap (λ (w : Verdict). w.verified) says
KindOf-verified aaguid v (inr (_, says)) = ap (λ (w : Verdict). w.verified) says

judge_aaguid-KindOf :
    (aaguid : Bytes) (v : Verdict) → KindOf aaguid v → judge_aaguid none aaguid ≡ v
unfolding judge_aaguid bytes_equal_constant_time differing_bits
judge_aaguid-KindOf aaguid v (inl (prod, says)) = rw (prod, says) refl
judge_aaguid-KindOf aaguid v (inr (dev, says)) = rw (dev, says) refl

module _ (x : Certificates) (asn1 : Asn1) (o : AppAttestOps) (corrupt_input : Text → Text)
    (roots : Option (List Certificate)) (now : ℕ) (blob : AttestationBlob) (app_id : Text) where
  -- On such an object the verdict is the authenticator data's.
  judged_by_auth_data :
      (p : Presented x asn1 o roots now blob app_id)
      → verify_with_app_id x asn1 o corrupt_input roots now blob app_id
        ≡ judge_auth_data o app_id none p.leaf.public_key
            (parse_app_attest_auth_data p.att.auth_data)
  unfolding verify_with_app_id judge_object judge_x5c judge_nonce
  judged_by_auth_data p =
      let ios = (str_eq_iff blob.platform (text "IOS")).1 p.for_ios in
      let given : str_eq blob.token [] ≡ false = str_eq-false p.given in
      let app_named : str_eq app_id [] ≡ false = str_eq-false p.app_named in
      let format = (str_eq_iff p.att.fmt (text "apple-appattest")).1 p.format in
      let nonce = expected_nonce o p.att.auth_data p.challenge in
      let same = (bytes_equal_constant_time_iff nonce nonce).1 refl in
      rw
        (
          ios, given, p.has_roots, app_named, p.decodes, p.challenged, p.object, format, p.chain,
          p.links, p.anchored, p.embeds, same,
        )
        refl
    where
      str_eq-false : {t : Text} → t ≢ [] → str_eq t [] ≡ false
      str_eq-false {t} n = ground (arith, str_eq_iff t [])

  -- Where the chain anchors and the nonce matches, authenticator data that does not parse gives a
  -- verdict that says verified.
  pub verify_with_app_id-unparsed :
      (error : Text) (p : Presented x asn1 o roots now blob app_id)
      → parse_app_attest_auth_data p.att.auth_data ≡ err error
      → verify_with_app_id x asn1 o corrupt_input roots now blob app_id ≡ ok (unparsed true error)
  unfolding judge_auth_data
  verify_with_app_id-unparsed error p fails = judged_by_auth_data p ∙ rw fails refl

  pub verify_with_app_id-AppBound :
      (p : Presented x asn1 o roots now blob app_id) (v : Verdict)
      → AppBound o app_id p.leaf.public_key p.att.auth_data v
      → verify_with_app_id x asn1 o corrupt_input roots now blob app_id ≡ ok v
  unfolding judge_auth_data judge_key judge_aaguid
  verify_with_app_id-AppBound p v b =
      judged_by_auth_data p
      ∙ rw
          (
            b.parses,
            (bytes_equal_constant_time_iff b.ad.rp_id_hash (o.sha256 app_id)).1 b.app,
            b.is_ecdsa,
            (bytes_equal_constant_time_iff b.ad.credential_id
                  (o.sha256 (marshal_uncompressed (o.point b.leaf_key)))).1
                b.key_id,
          )
          (ap ok (judge_aaguid-KindOf b.ad.aaguid v b.says))

  -- The verdicts that say verified are exactly these: an App Attest object for a named app, whose
  -- certificates are each signed by the next and whose leaf validates to the configured roots and
  -- embeds the digest of the authenticator data and the nonce, gives the verdict that names its AAGUID
  -- if the authenticator data names the app, the leaf's key and one of the two AAGUIDs, and the bare
  -- verdict on data that does not parse if the authenticator data does not parse.
  pub verify_with_app_id-iff_Genuine :
      (v : Verdict)
      → ((verify_with_app_id x asn1 o corrupt_input roots now blob app_id ≡ ok v)
          × (v.verified ≡ true))
        ↔ Genuine x asn1 o roots now blob app_id v
  verify_with_app_id-iff_Genuine v = (
    λ (e, h). verify_with_app_id-Genuine x asn1 o corrupt_input now blob app_id v roots e h,
    λ (p, outcome). elim outcome [
      | inl b ↦ (verify_with_app_id-AppBound p v b, KindOf-verified b.ad.aaguid v b.says)
      | inr u ↦ (
        verify_with_app_id-unparsed u.error p u.fails ∙ ap ok (sym u.says),
        ap (λ (w : Verdict). w.verified) u.says,
      )
    ],
  )
