-- ===== src/Signing/Receipt.antt =====
-- `signReceipt` of crypto.go, read by `verifyP1363Signature`.
use npvtunnel_creator_server.Base.{
  ℕ, zero, suc, ◌-◌, ◌≤◌, ◌≡◌, refl, sym, ap, ◌∙◌, true, [], ◌∷◌, ◌++◌, Option, none, some, Bytes,
  Text, length, take, drop, length-append, take-append, drop-append, arith,
}
use npvtunnel_creator_server.Base64.{decode_string, encode_to_string}
use npvtunnel_creator_server.Base64.RoundTrip.{IsBytes, decode-encode}
use npvtunnel_creator_server.Signing.{
  Crypto, zeros, left_padded, encoded_signature, verify_p1363_signature,
  issue_receipt_signing_input, sign_receipt,
}

-- What package ecdsa documents of a key pair: r and s are at most 32 bytes long, and a signature
-- verifies under the public key, where zeros in front of a number do not change it.
pub record KeyPair (c : Crypto) (public_key : Bytes) : Type 0 where
  pub small :
      (msg r s : Bytes)
      → c.ecdsa_sign msg ≡ some (r, s)
      → IsBytes r × IsBytes s × (length r ≤ 32) × (length s ≤ 32)
  pub verifies :
      (msg r s : Bytes) (m n : ℕ)
      → c.ecdsa_sign msg ≡ some (r, s)
      → c.ecdsa_verify public_key msg (zeros m ++ r) (zeros n ++ s) ≡ true

length-zeros : (n : ℕ) → length (zeros n) ≡ n
length-zeros zero = refl
length-zeros (suc n) = ap suc (length-zeros n)

length-left_padded : (b : Bytes) → length b ≤ 32 → length (left_padded b) ≡ 32
length-left_padded b h =
    omega (arith, length-append (zeros (32 - length b)) b, length-zeros (32 - length b))

zeros-IsBytes : (n : ℕ) (b : Bytes) → IsBytes b → IsBytes (zeros n ++ b)
zeros-IsBytes zero b h = h
zeros-IsBytes (suc n) b h = (omega arith, zeros-IsBytes n b h)

pub append-IsBytes : (a b : Bytes) → IsBytes a → IsBytes b → IsBytes (a ++ b)
append-IsBytes [] b h k = k
append-IsBytes (x ∷ a) b h k = (h.0, append-IsBytes a b h.1 k)

module _ (c : Crypto) (public_key : Bytes) (pair : KeyPair c public_key) (msg r s : Bytes)
    (signs : c.ecdsa_sign msg ≡ some (r, s)) where
  abbrev pub raw : Bytes
  raw = left_padded r ++ left_padded s

  halves : (take 32 raw ≡ left_padded r) × (drop 32 raw ≡ left_padded s)
  halves =
      let (_, _, short, _) = pair.small msg r s signs in
      let len = length-left_padded r short in
      (
        ap (λ n. take n raw) (sym len) ∙ take-append (left_padded r) (left_padded s),
        ap (λ n. drop n raw) (sym len) ∙ drop-append (left_padded r) (left_padded s),
      )

  pub length-raw : length raw ≡ 64
  length-raw =
      let (br, bs, short_r, short_s) = pair.small msg r s signs in
      omega (
        arith,
        length-append (left_padded r) (left_padded s),
        length-left_padded r short_r,
        length-left_padded s short_s,
      )

  pub raw_verifies :
      (decode_string (encode_to_string raw) ≡ some raw)
      × (verify_p1363_signature c public_key msg raw ≡ true)
  unfolding verify_p1363_signature
  raw_verifies =
      let (br, bs, short_r, short_s) = pair.small msg r s signs in
      (
        decode-encode raw (
            append-IsBytes (left_padded r) (left_padded s) (zeros-IsBytes (32 - length r) r br)
              (zeros-IsBytes (32 - length s) s bs)),
        rw (length-raw, halves.0, halves.1)
            (pair.verifies msg r s (32 - length r) (32 - length s) signs),
      )

-- A receipt that the server signs decodes to a signature that verifies, under its public key, over
-- exactly the device key, the nonce, the expiry and the payload of the response.
pub sign_receipt-verifies :
    (c : Crypto) (public_key : Bytes) (device_pk request_nonce expires_at config_b64 receipt : Text)
    → KeyPair c public_key
    → sign_receipt c device_pk request_nonce expires_at config_b64 ≡ some receipt
    → (signature : Bytes) × (decode_string receipt ≡ some signature)
      × (verify_p1363_signature c public_key
            (issue_receipt_signing_input device_pk request_nonce expires_at config_b64)
            signature
          ≡ true)
unfolding sign_receipt
sign_receipt-verifies c public_key device_pk request_nonce expires_at config_b64 receipt pair e =
    signed (c.ecdsa_sign msg) refl e
  where
    msg : Bytes
    msg = issue_receipt_signing_input device_pk request_nonce expires_at config_b64

    signed :
        (o : Option (Bytes × Bytes))
        → c.ecdsa_sign msg ≡ o
        → encoded_signature o ≡ some receipt
        → (signature : Bytes) × (decode_string receipt ≡ some signature)
          × (verify_p1363_signature c public_key msg signature ≡ true)
    signed none signs h = absurd (cc h)
    signed (some (r, s)) signs h =
        let (decodes, verifies) = raw_verifies c public_key pair msg r s signs in
        let same : receipt ≡ encode_to_string (raw c public_key pair msg r s signs) = cc h in
        (raw c public_key pair msg r s signs, rw same decodes, verifies)
