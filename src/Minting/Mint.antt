-- ===== src/Minting/Mint.antt =====
-- `mintIssuerEnvelope` of envelope.go and the header it canonicalizes. The random draws of one call
-- (`Draws`), the format of times and the encoding of the body (`json.Marshal`) are arguments.
use npvtunnel_creator_server.Base.{
  ℕ, suc, false, not, List, [], ◌∷◌, ◌++◌, Option, none, some, Bytes, Text, text, if◌then◌else◌,
  ◌==◌, length, str_eq, ℤ, decimal,
}
use npvtunnel_creator_server.Base64.{encode_to_string}
use npvtunnel_creator_server.Configs.{EnvelopePolicy}
use npvtunnel_creator_server.Signing.{Crypto, left_padded}
use npvtunnel_creator_server.Envelope.{build_signed_range, encode_envelope_wire}
use npvtunnel_creator_server.Canonical.{
  Json, Items, null, bool, str, number, arr, obj, nil, cons, end, field, Written, bytes,
  float_error, type_error, canonical_json,
}
use npvtunnel_creator_server.Minting.{
  normalize_display_name, Ciphers, Minting, made, failed, ◌>>=◌, or_fail, demand, CreatorKey,
  compress_p256, ecdh_ephemeral_wrap, no_creator_key, no_recipients, no_issuer_url, no_config_id,
  bad_config_id, not_p256, no_dek, no_body_nonce, bad_header, bad_body, no_body_cipher,
  no_signature, bad_recipient,
}

pub record Recipient : Type 0 where
  pub fp : Text
  pub wrap : Text

pub record EnvelopeHeader : Type 0 where
  pub v : ℕ
  pub config_id : Text
  pub issued_at : Text
  pub creator_fp : Text
  pub creator_pk : Text
  pub policy : EnvelopePolicy
  pub recipients : List Recipient

-- `json.Marshal` and the decoding with `UseNumber` that `canonicalJSONOfStruct` makes.
abbrev pointer : Option Text → Json
pointer none = null
pointer (some t) = str t

abbrev recipient_items : List Recipient → Items
recipient_items [] = nil
recipient_items (r ∷ rs) =
    cons (obj (field (text "fp") (str r.fp) (field (text "wrap") (str r.wrap) end)))
      (recipient_items rs)

unfoldable pub policy_json : EnvelopePolicy → Json
policy_json p = obj (
    field (text "onlyMobileNetwork") (bool p.only_mobile_network) (
      field (text "attestationLevel") (str p.attestation_level) (
        field (text "expiresAt") (pointer p.expires_at) (
          field (text "displayMessage") (str p.display_message)
            (field (text "customServerMessage") (str p.custom_server_message) end)))))

unfoldable pub header_json : EnvelopeHeader → Json
header_json h = obj (
    field (text "v") (number (decimal h.v)) (
      field (text "configId") (str h.config_id) (
        field (text "issuedAt") (str h.issued_at) (
          field (text "creator")
            (obj (field (text "fp") (str h.creator_fp) (field (text "pk") (str h.creator_pk) end)))
            (field (text "policy") (policy_json h.policy)
              (field (text "recipients") (arr (recipient_items h.recipients)) end))))))

abbrev pub written : Written → Option Bytes
written (bytes t) = some t
written float_error = none
written type_error = none

-- `canonicalJSONOfStruct(header)`
unfoldable pub header_bytes : EnvelopeHeader → Option Bytes
header_bytes h = written (canonical_json (header_json h))

pub record IssuerBody : Type 0 where
  pub kind : Text
  pub creator_pubkey : Text
  pub issuer_url : Text
  pub display_name : Text

pub record MintInput : Type 0 where
  pub creator_key : Option CreatorKey
  pub recipient_pub_keys : List Bytes
  pub issuer_url : Text
  pub display_name : Text
  pub config_id : Option Bytes
  pub issued_at : Option ℤ
  pub policy : Option EnvelopePolicy

-- The random draws of one call, none where the draw fails: the DEK, the nonce of the body, a config
-- id, and for each recipient an ephemeral key and a nonce.
pub record Draws : Type 0 where
  pub dek : Option Bytes
  pub body_nonce : Option Bytes
  pub config_id : Option Bytes
  pub ephemeral : ℕ → Option Bytes
  pub gcm_nonce : ℕ → Option Bytes

pub record MintResult : Type 0 where
  pub envelope_bytes : Bytes
  pub config_fp : Text
  pub config_id : Bytes

abbrev pub default_policy : EnvelopePolicy
default_policy = record {
  only_mobile_network = false;
  attestation_level = text "NONE";
  expires_at = none;
  display_message = [];
  custom_server_message = [];
}

abbrev pub or_default_policy : Option EnvelopePolicy → EnvelopePolicy
or_default_policy none = default_policy
or_default_policy (some p) = p

abbrev pub issue_time : Option ℤ → ℤ → ℤ
issue_time none now = now
issue_time (some t) now = t

-- The loop over the lengths of the keys.
unfoldable pub check_recipients : ℕ → List Bytes → Minting (Unit {0})
check_recipients i [] = made tt
check_recipients i (pk ∷ pks) =
    let rest = check_recipients (suc i) pks in
    if not (length pk == 33) then failed (bad_recipient i) else rest

abbrev pub chosen_id : Draws → Option Bytes → Minting Bytes
chosen_id d (some id) = made id
chosen_id d none = or_fail no_config_id d.config_id

-- The entries of the header, from recipient `i` on.
unfoldable pub wrap_all :
    Ciphers → Draws → ℕ → Bytes → Bytes → List Bytes → Minting (List Recipient)
wrap_all k d i config_id dek [] = made []
wrap_all k d i config_id dek (pk ∷ pks) = do
  (wrap, fp) ← ecdh_ephemeral_wrap k i (d.ephemeral i) (d.gcm_nonce i) pk config_id dek
  entries ← wrap_all k d (suc i) config_id dek pks
  made (record { fp = encode_to_string fp; wrap = encode_to_string wrap } ∷ entries)

abbrev p1363 : Option (Bytes × Bytes) → Option Bytes
p1363 none = none
p1363 (some (r, s)) = some (left_padded r ++ left_padded s)

unfoldable pub sign_p1363 : Crypto → Bytes → Option Bytes
sign_p1363 c msg = p1363 (c.ecdsa_sign msg)

module _ (c : Crypto) (k : Ciphers) (format_time : ℤ → Text) (marshal : IssuerBody → Option Bytes)
    (d : Draws) (now : ℤ) where
  -- From the header on.
  unfoldable pub seal : MintInput → EnvelopeHeader → Bytes → Bytes → Bytes → Minting MintResult
  seal input h config_id dek body_nonce = do
    header ← or_fail bad_header (header_bytes h)
    body ← or_fail bad_body (
        marshal (record {
          kind = text "v2-issuer";
          creator_pubkey = h.creator_pk;
          issuer_url = input.issuer_url;
          display_name = normalize_display_name input.display_name;
        }))
    body_cipher ← or_fail no_body_cipher (k.chacha_seal dek body_nonce header body)
    signature ←
        or_fail no_signature (sign_p1363 c (build_signed_range header body_nonce body_cipher))
    let envelope = encode_envelope_wire header body_nonce body_cipher signature
    made (record {
      envelope_bytes = envelope;
      config_fp = encode_to_string (k.sha256 envelope);
      config_id = config_id;
    })

  unfoldable pub mint_issuer_envelope : MintInput → Minting MintResult
  mint_issuer_envelope input = do
    key ← or_fail no_creator_key input.creator_key
    some_recipient ← demand (not (length input.recipient_pub_keys == 0)) no_recipients
    sized ← check_recipients 0 input.recipient_pub_keys
    named ← demand (not (str_eq input.issuer_url [])) no_issuer_url
    config_id ← chosen_id d input.config_id
    id_sized ← demand (length config_id == 16) bad_config_id
    creator_pub ← or_fail not_p256 (compress_p256 key)
    dek ← or_fail no_dek d.dek
    body_nonce ← or_fail no_body_nonce d.body_nonce
    recipients ← wrap_all k d 0 config_id dek input.recipient_pub_keys
    let header : EnvelopeHeader = record {
      v = 1;
      config_id = encode_to_string config_id;
      issued_at = format_time (issue_time input.issued_at now);
      creator_fp = encode_to_string (k.sha256 creator_pub);
      creator_pk = encode_to_string creator_pub;
      policy = or_default_policy input.policy;
      recipients = recipients;
    }
    seal input header config_id dek body_nonce
