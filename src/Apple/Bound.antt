-- ===== src/Apple/Bound.antt =====
-- `verifyWithAppID` of app_attest.go: its checks behind the chain, when the verdict says verified.
use mathlib.Core.Path.{subst}
use npvtunnel_creator_server.Base.{
  text, ◌≡◌, refl, sym, ap, ◌∙◌, true, Option, none, some, Bytes, Text, ◌⊎◌, inl, inr, arith,
  Option-cases, Bool-cases,
}
use npvtunnel_creator_server.Base.Results.{Result, stuck, err, ok}
use npvtunnel_creator_server.Policy.{Verdict}
use npvtunnel_creator_server.Apple.{AppAttestAuthData, AppAttestOps}
use npvtunnel_creator_server.Apple.Compare.{
  bytes_equal_constant_time, bytes_equal_constant_time_iff,
}
use npvtunnel_creator_server.Apple.AuthData.{parse_app_attest_auth_data, marshal_uncompressed}
use npvtunnel_creator_server.Apple.Verify.{
  aaguid_prod, aaguid_dev, app_verdict, unparsed, judge_aaguid, judge_key, judge_auth_data,
  expected_nonce, judge_nonce,
}

-- The AAGUID is one of Apple's two, and the verdict names it.
abbrev pub KindOf : Bytes → Verdict → Type 0
KindOf aaguid v =
    ((aaguid ≡ aaguid_prod) × (v ≡ app_verdict (text "prod") none))
    ⊎ ((aaguid ≡ aaguid_dev) × (v ≡ app_verdict (text "dev") none))

-- The authenticator data names the app, the leaf's key and a kind of App Attest.
pub record AppBound (o : AppAttestOps) (app_id : Text) (key : Option Bytes) (auth_data : Bytes)
    (v : Verdict) : Type 0 where
  pub ad : AppAttestAuthData
  pub leaf_key : Bytes
  pub parses : parse_app_attest_auth_data auth_data ≡ ok ad
  pub app : ad.rp_id_hash ≡ o.sha256 app_id
  pub is_ecdsa : key ≡ some leaf_key
  pub key_id : ad.credential_id ≡ o.sha256 (marshal_uncompressed (o.point leaf_key))
  pub says : KindOf ad.aaguid v

-- The authenticator data does not parse, and the verdict says no more than that.
pub record Unparsed (auth_data : Bytes) (v : Verdict) : Type 0 where
  pub error : Text
  pub fails : parse_app_attest_auth_data auth_data ≡ err error
  pub says : v ≡ unparsed true error

aaguid-verified :
    (verify_err : Option Text) (aaguid : Bytes)
    → (judge_aaguid verify_err aaguid).verified ≡ true
    → (verify_err ≡ none) × KindOf aaguid (judge_aaguid verify_err aaguid)
unfolding judge_aaguid
aaguid-verified (some e) aaguid h = absurd (ground arith)
aaguid-verified none aaguid h = elim (Bool-cases (bytes_equal_constant_time aaguid aaguid_prod)) [
  | inl prod ↦ (refl, inl ((bytes_equal_constant_time_iff aaguid aaguid_prod).0 prod, rw prod refl))
  | inr other ↦ elim (Bool-cases (bytes_equal_constant_time aaguid aaguid_dev)) [
    | inl dev ↦
        (refl, inr ((bytes_equal_constant_time_iff aaguid aaguid_dev).0 dev, rw (other, dev) refl))
    | inr wrong ↦ absurd (ground arith)
  ]
]

module _ (o : AppAttestOps) where
  key-verified :
      (verify_err : Option Text) (ad : AppAttestAuthData) (key : Option Bytes)
      → (judge_key o verify_err ad key).verified ≡ true
      → (leaf_key : Bytes) × (key ≡ some leaf_key)
        × (ad.credential_id ≡ o.sha256 (marshal_uncompressed (o.point leaf_key)))
        × (judge_key o verify_err ad key ≡ judge_aaguid verify_err ad.aaguid)
  unfolding judge_key
  key-verified verify_err ad none h = absurd (ground arith)
  key-verified verify_err ad (some k) h =
      let id = o.sha256 (marshal_uncompressed (o.point k)) in
      elim (Bool-cases (bytes_equal_constant_time ad.credential_id id)) [
        | inl same ↦
            (k, refl, (bytes_equal_constant_time_iff ad.credential_id id).0 same, rw same refl)
        | inr other ↦ absurd (ground arith)
      ]

  module _ (app_id : Text) (verify_err : Option Text) (key : Option Bytes) where
    parsed-AppBound :
        (auth_data : Bytes) (ad : AppAttestAuthData) (v : Verdict)
        → parse_app_attest_auth_data auth_data ≡ ok ad
        → judge_auth_data o app_id verify_err key (ok ad) ≡ ok v
        → v.verified ≡ true
        → (verify_err ≡ none) × AppBound o app_id key auth_data v
    unfolding judge_auth_data
    parsed-AppBound auth_data ad v p e h =
        elim (Bool-cases (bytes_equal_constant_time ad.rp_id_hash (o.sha256 app_id))) [
          | inr other ↦ absurd (ground arith)
          | inl same ↦
              let says : judge_key o verify_err ad key ≡ v = cc (rw same at e) in
              let (k, is_ecdsa, key_id, shape) =
                key-verified verify_err ad key (ap (λ (w : Verdict). w.verified) says ∙ h) in
              let says = sym shape ∙ says in
              let (anchored, kind) =
                aaguid-verified verify_err ad.aaguid (ap (λ (w : Verdict). w.verified) says ∙ h) in
              (
                anchored,
                record {
                  ad = ad;
                  leaf_key = k;
                  parses = p;
                  app = (bytes_equal_constant_time_iff ad.rp_id_hash (o.sha256 app_id)).0 same;
                  is_ecdsa = is_ecdsa;
                  key_id = key_id;
                  says = subst (λ w. KindOf ad.aaguid w) says kind;
                },
              )
        ]

    unparsed-verified :
        (error : Text) (v : Verdict)
        → judge_auth_data o app_id verify_err key (err error) ≡ ok v
        → v.verified ≡ true
        → (verify_err ≡ none) × (v ≡ unparsed true error)
    unfolding judge_auth_data
    unparsed-verified error v e h = elim (Option-cases verify_err) [
      | inl none_at_all ↦ (none_at_all, cc (rw none_at_all at e))
      | inr (reason, failed) ↦ absurd (ground arith)
    ]

    auth_data-verified :
        (auth_data : Bytes) (r : Result AppAttestAuthData) (v : Verdict)
        → parse_app_attest_auth_data auth_data ≡ r
        → judge_auth_data o app_id verify_err key r ≡ ok v
        → v.verified ≡ true
        → (verify_err ≡ none) × (AppBound o app_id key auth_data v ⊎ Unparsed auth_data v)
    unfolding judge_auth_data
    auth_data-verified auth_data stuck v p e h = cc
    auth_data-verified auth_data (ok ad) v p e h =
        let (anchored, bound) = parsed-AppBound auth_data ad v p e h in (anchored, inl bound)
    auth_data-verified auth_data (err error) v p e h =
        let (anchored, says) = unparsed-verified error v e h in
        (anchored, inr (record { error = error; fails = p; says = says }))

    pub nonce-verified :
        (challenge auth_data : Bytes) (r : Result Bytes) (v : Verdict)
        → judge_nonce o app_id challenge auth_data verify_err key r ≡ ok v
        → v.verified ≡ true
        → (r ≡ ok (expected_nonce o auth_data challenge))
          × (verify_err ≡ none)
          × (AppBound o app_id key auth_data v ⊎ Unparsed auth_data v)
    unfolding judge_nonce
    nonce-verified challenge auth_data stuck v e h = cc
    nonce-verified challenge auth_data (err error) v e h = absurd (ground arith)
    nonce-verified challenge auth_data (ok extracted) v e h =
        let expected = expected_nonce o auth_data challenge in
        elim (Bool-cases (bytes_equal_constant_time expected extracted)) [
          | inr other ↦ absurd (ground arith)
          | inl same ↦
              let (anchored, outcome) =
                auth_data-verified auth_data (parse_app_attest_auth_data auth_data) v refl
                  (rw same at e) h in
              (
                ap ok (sym ((bytes_equal_constant_time_iff expected extracted).0 same)),
                anchored,
                outcome,
              )
        ]
