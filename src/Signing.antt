-- ===== src/Signing.antt =====
-- The request and its signature: the issue types of types.go, and the signing inputs, the checks and
-- the receipt of crypto.go. Elliptic-curve arithmetic is an argument (`Crypto`).
pub mod Receipt
use npvtunnel_creator_server.Base.{
  ℕ, zero, suc, ◌-◌, Bool, false, not, [], ◌∷◌, ◌++◌, Option, none, some, Bytes, Text, text,
  if◌then◌else◌, length, take, drop, ◌==◌, ℤ, pos, ltb_ℤ,
}
use npvtunnel_creator_server.Base64.{decode_string, encode_to_string}
use npvtunnel_creator_server.Policy.{AttestationBlob}

pub record IssueRequest : Type 0 where
  pub v : ℤ
  pub device_pk : Text
  pub attestation : AttestationBlob
  pub config_id : Text
  pub request_nonce : Text
  pub request_signature : Text

-- What is read from the body: an error of the read or of the parse, or a request.
pub data IssueBody : Type 0 where
  read_error parse_error : IssueBody
  parsed : IssueRequest → IssueBody

-- `elliptic.UnmarshalCompressed` finds a point; `ecdsa.Verify` for the SHA-256 of a message, with
-- the bytes of r and s; `ecdsa.Sign` by the creator key gives r and s, or fails.
pub record Crypto : Type 0 where
  pub on_curve : Bytes → Bool
  pub ecdsa_verify : Bytes → Bytes → Bytes → Bytes → Bool
  pub ecdsa_sign : Bytes → Option (Bytes × Bytes)

abbrev pub p256_point : Crypto → Option Bytes → Option Bytes
p256_point c none = none
p256_point c (some raw) =
    if not (length raw == 33) then none else if c.on_curve raw then some raw else none

-- The key, or an error.
unfoldable pub decode_p256_compressed : Crypto → Text → Option Bytes
decode_p256_compressed c b64 = p256_point c (decode_string b64)

unfoldable pub verify_p1363_signature : Crypto → Bytes → Bytes → Bytes → Bool
verify_p1363_signature c key msg signature_raw =
    if not (length signature_raw == 64)
    then false
    else c.ecdsa_verify key msg (take 32 signature_raw) (drop 32 signature_raw)

abbrev pub bar : Text
bar = text "|"

unfoldable pub issue_request_signing_input : IssueRequest → Bytes
issue_request_signing_input req =
    if ltb_ℤ (pos 1) req.v
    then text "v2.issue|"
      ++ req.device_pk
      ++ bar
      ++ req.attestation.platform
      ++ bar
      ++ req.attestation.token
      ++ bar
      ++ req.attestation.nonce
      ++ bar
      ++ req.attestation.bound_device_pk
      ++ bar
      ++ req.attestation.proof
      ++ bar
      ++ req.config_id
      ++ bar
      ++ req.request_nonce
    else text "v1.issue|"
      ++ req.device_pk
      ++ bar
      ++ req.attestation.token
      ++ bar
      ++ req.config_id
      ++ bar
      ++ req.request_nonce

unfoldable pub attestation_binding_input : AttestationBlob → Bytes
attestation_binding_input blob = text "v2.attest|" ++ blob.nonce ++ bar ++ blob.bound_device_pk

-- An error, or whether the signature verifies.
abbrev pub verify_with : Crypto → IssueRequest → Option Bytes → Option Bytes → Option Bool
verify_with c req none _ = none
verify_with c req (some key) none = none
verify_with c req (some key) (some sig) =
    some (verify_p1363_signature c key (issue_request_signing_input req) sig)

unfoldable pub verify_issue_request_signature : Crypto → IssueRequest → Option Bool
verify_issue_request_signature c req =
    verify_with c req (decode_p256_compressed c req.device_pk) (decode_string req.request_signature)

unfoldable pub issue_receipt_signing_input : Text → Text → Text → Text → Bytes
issue_receipt_signing_input device_pk request_nonce expires_at config_b64 =
    text "v1.receipt|"
    ++ device_pk
    ++ bar
    ++ request_nonce
    ++ bar
    ++ expires_at
    ++ bar
    ++ config_b64

abbrev pub zeros : ℕ → Bytes
zeros zero = []
zeros (suc n) = 0 ∷ zeros n

-- `copy(sig[32-len(b):32], b)` into zeros; r and s have at most 32 bytes.
abbrev pub left_padded : Bytes → Bytes
left_padded b = zeros (32 - length b) ++ b

abbrev pub encoded_signature : Option (Bytes × Bytes) → Option Text
encoded_signature none = none
encoded_signature (some (r, s)) = some (encode_to_string (left_padded r ++ left_padded s))

unfoldable pub sign_receipt : Crypto → Text → Text → Text → Text → Option Text
sign_receipt c device_pk request_nonce expires_at config_b64 =
    encoded_signature
      (c.ecdsa_sign (issue_receipt_signing_input device_pk request_nonce expires_at config_b64))
