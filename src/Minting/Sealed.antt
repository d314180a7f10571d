-- ===== src/Minting/Sealed.antt =====
-- What `mintIssuerEnvelope` of envelope.go returns, for `decodeEnvelopeWire`, for whoever has the
-- creator's public key, and for each recipient.
use npvtunnel_creator_server.Base.{
  ℕ, suc, ◌≡◌, true, List, [], ◌∷◌, some, Bytes, length, Option-cases, inl, inr, arith,
}
use npvtunnel_creator_server.Base64.{encode_to_string, decode_string}
use npvtunnel_creator_server.Base64.RoundTrip.{IsBytes, decode-encode}
use npvtunnel_creator_server.Signing.{Crypto, verify_p1363_signature}
use npvtunnel_creator_server.Signing.Receipt.{KeyPair, raw, length-raw, raw_verifies}
use npvtunnel_creator_server.Minting.{
  Ciphers, made, ecdh_ephemeral_wrap, decode_p256_compressed_to_ecdh,
}
use npvtunnel_creator_server.Minting.Mint.{Draws, Recipient, wrap_all, sign_p1363}
use npvtunnel_creator_server.Minting.Steps.{step}
use npvtunnel_creator_server.Minting.Wrap.{Laws, unwrap, unwrap-wrap}

-- The random draws have the lengths that the code asks for.
pub record IsDrawn (d : Draws) : Type 0 where
  pub nonce_length : (n : Bytes) → d.body_nonce ≡ some n → length n ≡ 12
  pub dek_IsBytes : (b : Bytes) → d.dek ≡ some b → IsBytes b
  pub gcm_nonces : (i : ℕ) (n : Bytes) → d.gcm_nonce i ≡ some n → (length n ≡ 12) × IsBytes n

-- Each recipient key is the compressed public key of its owner.
abbrev pub Owned : Ciphers → List Bytes → List Bytes → Type 0
Owned k [] [] = Unit
Owned k (own ∷ owns) (pk ∷ pks) =
    (decode_p256_compressed_to_ecdh k pk ≡ some (k.public_of own)) × Owned k owns pks
Owned k _ _ = ⊥

-- Each owner unwraps the DEK from the entry of the header that is theirs.
abbrev pub Unwraps : Ciphers → Bytes → Bytes → List Bytes → List Bytes → List Recipient → Type 0
Unwraps k config_id dek [] [] [] = Unit
Unwraps k config_id dek (own ∷ owns) (pk ∷ pks) (r ∷ rs) =
    ((wrap : Bytes) × (decode_string r.wrap ≡ some wrap)
      × (unwrap k own pk config_id wrap ≡ some dek))
    × Unwraps k config_id dek owns pks rs
Unwraps k config_id dek _ _ _ = ⊥

pub wrap_all-Unwraps :
    (k : Ciphers) (laws : Laws k) (d : Draws) (drawn : IsDrawn d) (i : ℕ) (config_id dek : Bytes)
    (owns pks : List Bytes) (rs : List Recipient)
    → Owned k owns pks
    → IsBytes dek
    → wrap_all k d i config_id dek pks ≡ made rs
    → Unwraps k config_id dek owns pks rs
unfolding wrap_all
wrap_all-Unwraps k laws d drawn i config_id dek [] [] [] o plain e = tt
wrap_all-Unwraps k laws d drawn i config_id dek [] [] (r ∷ rs) o plain e = absurd (cc e)
wrap_all-Unwraps k laws d drawn i config_id dek [] (pk ∷ pks) rs o plain e = absurd o
wrap_all-Unwraps k laws d drawn i config_id dek (own ∷ owns) [] rs o plain e = absurd o
wrap_all-Unwraps k laws d drawn i config_id dek (own ∷ owns) (pk ∷ pks) rs o plain e =
    step (ecdh_ephemeral_wrap k i (d.ephemeral i) (d.gcm_nonce i) pk config_id dek) _ e
      λ (wrap, fp) w e. step (wrap_all k d (suc i) config_id dek pks) _ e λ entries r e.
        let (opens, small) =
          unwrap-wrap k laws i (d.ephemeral i) (d.gcm_nonce i) own pk config_id dek wrap fp o.0
            plain (drawn.gcm_nonces i) w in
        let is : rs ≡ record { fp = encode_to_string fp; wrap = encode_to_string wrap } ∷ entries =
          cc in
        rw is (
          (wrap, decode-encode wrap small, opens),
          wrap_all-Unwraps k laws d drawn (suc i) config_id dek owns pks entries o.1 plain r,
        )

-- A signature has 64 bytes and verifies under the public key.
pub sign-verifies :
    (c : Crypto) (public_key : Bytes) (pair : KeyPair c public_key) (msg sig : Bytes)
    → sign_p1363 c msg ≡ some sig
    → (length sig ≡ 64) × (verify_p1363_signature c public_key msg sig ≡ true)
unfolding sign_p1363
sign-verifies c public_key pair msg sig e = elim (Option-cases (c.ecdsa_sign msg)) [
  | inl fails ↦ absurd (ground arith)
  | inr ((r, s), signs) ↦
      let is : sig ≡ raw c public_key pair msg r s signs = ground arith in
      rw is (
        length-raw c public_key pair msg r s signs,
        (raw_verifies c public_key pair msg r s signs).1,
      )
]
