-- ===== src/Minting/Wrap.antt =====
-- `ecdhEphemeralWrap` of envelope.go and the recipient, who has the private key.
use mathlib.Core.List.{append_assoc}
use npvtunnel_creator_server.Base.{
  ℕ, ◌+◌, ◌<◌, ◌≡◌, refl, sym, ap, ap₂, ◌∙◌, true, [], ◌∷◌, ◌++◌, Option, none, some, Bytes, length,
  take, drop, take-append, drop-append, length-append, ◌==◌, arith,
}
use npvtunnel_creator_server.Base64.RoundTrip.{IsBytes}
use npvtunnel_creator_server.Signing.{left_padded}
use npvtunnel_creator_server.Signing.Receipt.{append-IsBytes}
use npvtunnel_creator_server.Minting.{
  Ciphers, no_wrap, made, or_fail, demand, sign_byte, last_byte, compress_uncompressed_p256,
  decode_p256_compressed_to_ecdh, wrap_info, ecdh_ephemeral_wrap,
}
use npvtunnel_creator_server.Minting.Steps.{step, or_fail-made}

-- What the packages document. Two parties agree on a secret; the public key of a private one is a
-- point 0x04, x, y; a compressed point that is on the curve has these coordinates; and what was
-- sealed opens under the same key, nonce and associated data.
pub record Laws (k : Ciphers) : Type 0 where
  pub agree : (a b : Bytes) → k.ecdh a (k.public_of b) ≡ k.ecdh b (k.public_of a)
  pub public_point :
      (a : Bytes)
      → (x : Bytes) × (y : Bytes) × (k.public_of a ≡ 4 ∷ (x ++ y))
        × (length x ≡ 32)
        × (length y ≡ 32)
        × (k.new_public_key (k.public_of a) ≡ true)
  pub unmarshals :
      (x y : Bytes)
      → length x ≡ 32
      → length y ≡ 32
      → k.new_public_key (4 ∷ (x ++ y)) ≡ true
      → (p : Bytes × Bytes) × (k.unmarshal_compressed (sign_byte (last_byte y) ∷ x) ≡ some p)
        × (left_padded p.0 ≡ x)
        × (left_padded p.1 ≡ y)
  pub gcm_opens :
      (key nonce aad plain sealed : Bytes)
      → k.gcm_seal key nonce aad plain ≡ some sealed
      → k.gcm_open key nonce aad sealed ≡ some plain
  pub public_IsBytes : (a : Bytes) → IsBytes (k.public_of a)
  pub gcm_IsBytes :
      (key nonce aad plain sealed : Bytes)
      → IsBytes plain
      → k.gcm_seal key nonce aad plain ≡ some sealed
      → IsBytes sealed
  pub chacha_opens :
      (key nonce aad plain sealed : Bytes)
      → k.chacha_seal key nonce aad plain ≡ some sealed
      → k.chacha_open key nonce aad sealed ≡ some plain

infixl 5 ◌>>?◌
abbrev ◌>>?◌ : Option Bytes → (Bytes → Option Bytes) → Option Bytes
none >>? f = none
some b >>? f = f b

-- The layout of a wrap, read by the recipient: 33 bytes of an ephemeral key, 12 of a nonce, and the
-- sealed DEK.
abbrev pub unwrap : Ciphers → Bytes → Bytes → Bytes → Bytes → Option Bytes
unwrap k own recipient config_id wrap = decode_p256_compressed_to_ecdh k (take 33 wrap) >>? λ point.
    k.ecdh own point >>? λ shared.
    k.hkdf shared (k.sha256 recipient) (wrap_info config_id) >>? λ kdk.
    k.gcm_open kdk (take 12 (drop 33 wrap)) (k.sha256 recipient) (drop 45 wrap)

last_byte-append : (x y : Bytes) → length y ≡ 32 → last_byte (x ++ y) ≡ last_byte y
last_byte-append x [] h = absurd (omega arith)
last_byte-append [] (b ∷ y) h = refl
last_byte-append (c ∷ []) (b ∷ y) h = refl
last_byte-append (c ∷ d ∷ x) (b ∷ y) h = last_byte-append (d ∷ x) (b ∷ y) h

take-half : (x y : Bytes) → length x ≡ 32 → take 32 (x ++ y) ≡ x
take-half x y h = ap (λ n. take n (x ++ y)) (sym h) ∙ take-append x y

compress_point :
    (i : ℕ) (x y : Bytes)
    → length x ≡ 32
    → length y ≡ 32
    → compress_uncompressed_p256 i (4 ∷ (x ++ y)) ≡ made (sign_byte (last_byte y) ∷ x)
unfolding compress_uncompressed_p256
compress_point i x y lx ly =
    let l : length (x ++ y) ≡ 64 = omega (arith, length-append x y) in
    rw (l, take-half x y lx, last_byte-append x y ly) refl

decompress_point :
    (k : Ciphers) (laws : Laws k) (x y : Bytes)
    → length x ≡ 32
    → length y ≡ 32
    → k.new_public_key (4 ∷ (x ++ y)) ≡ true
    → decode_p256_compressed_to_ecdh k (sign_byte (last_byte y) ∷ x) ≡ some (4 ∷ (x ++ y))
unfolding decode_p256_compressed_to_ecdh
decompress_point k laws x y lx ly valid =
    let (p, found, px, py) = laws.unmarshals x y lx ly valid in
    rw (lx, found) (rw (px, py) (rw valid refl))

made-injective : {a b : Bytes} → made a ≡ made b → a ≡ b
made-injective e = cc

sign_byte-small : (y : ℕ) → sign_byte y < 256
sign_byte-small y = ground arith

left-IsBytes : (x y : Bytes) → IsBytes (x ++ y) → IsBytes x
left-IsBytes [] y h = tt
left-IsBytes (c ∷ x) y h = (h.0, left-IsBytes x y h.1)

-- An ephemeral key survives its compression.
decode-compress :
    (k : Ciphers) (laws : Laws k) (i : ℕ) (private compressed : Bytes)
    → compress_uncompressed_p256 i (k.public_of private) ≡ made compressed
    → (decode_p256_compressed_to_ecdh k compressed ≡ some (k.public_of private))
      × (length compressed ≡ 33)
decode-compress k laws i private compressed e =
    let (x, y, is, lx, ly, valid) = laws.public_point private in
    let same : compressed ≡ sign_byte (last_byte y) ∷ x =
      made-injective (sym (rw is at e) ∙ compress_point i x y lx ly) in
    (
      rw (same, is) (decompress_point k laws x y lx ly (rw is at valid)),
      rw same (omega (arith, lx)),
    )

compressed-IsBytes :
    (k : Ciphers) (laws : Laws k) (i : ℕ) (private compressed : Bytes)
    → compress_uncompressed_p256 i (k.public_of private) ≡ made compressed
    → IsBytes compressed
compressed-IsBytes k laws i private compressed e =
    let (x, y, is, lx, ly, valid) = laws.public_point private in
    let small = rw is at (laws.public_IsBytes private) in
    let same : compressed ≡ sign_byte (last_byte y) ∷ x =
      made-injective (sym (rw is at e) ∙ compress_point i x y lx ly) in
    rw same (sign_byte-small (last_byte y), left-IsBytes x y small.1)

slices :
    (a b c : Bytes)
    → length a ≡ 33
    → length b ≡ 12
    → (take 33 (a ++ (b ++ c)) ≡ a)
      × (take 12 (drop 33 (a ++ (b ++ c))) ≡ b)
      × (drop 45 (a ++ (b ++ c)) ≡ c)
slices a b c la lb =
    let front : drop 33 (a ++ (b ++ c)) ≡ b ++ c =
      ap (λ n. drop n (a ++ (b ++ c))) (sym la) ∙ drop-append a (b ++ c) in
    let both : length (a ++ b) ≡ 45 = omega (arith, length-append a b) in
    (
      ap (λ n. take n (a ++ (b ++ c))) (sym la) ∙ take-append a (b ++ c),
      rw front (ap (λ n. take n (b ++ c)) (sym lb) ∙ take-append b c),
      ap₂ (λ n t. drop n t) (sym both) (sym (append_assoc a b c)) ∙ drop-append (a ++ b) c,
    )

pub unwrap-wrap :
    (k : Ciphers) (laws : Laws k) (i : ℕ) (ephemeral gcm_nonce : Option Bytes)
    (own recipient config_id dek : Bytes) (wrap fp : Bytes)
    → decode_p256_compressed_to_ecdh k recipient ≡ some (k.public_of own)
    → IsBytes dek
    → ((nonce : Bytes) → gcm_nonce ≡ some nonce → (length nonce ≡ 12) × IsBytes nonce)
    → ecdh_ephemeral_wrap k i ephemeral gcm_nonce recipient config_id dek ≡ made (wrap, fp)
    → (unwrap k own recipient config_id wrap ≡ some dek) × IsBytes wrap
unfolding ecdh_ephemeral_wrap
unwrap-wrap k laws i ephemeral gcm_nonce own recipient config_id dek wrap fp owns plain twelve e =
    step (or_fail (no_wrap i) (decode_p256_compressed_to_ecdh k recipient)) _ e λ point p e.
      step (or_fail (no_wrap i) ephemeral) _ e λ private _ e.
        step (compress_uncompressed_p256 i (k.public_of private)) _ e λ compressed c e.
          step (or_fail (no_wrap i) (k.ecdh private point)) _ e λ shared s e.
            step (or_fail (no_wrap i) (k.hkdf shared (k.sha256 recipient) (wrap_info config_id))) _
              e
              λ kdk h e. step (or_fail (no_wrap i) gcm_nonce) _ e λ nonce n e.
                step (or_fail (no_wrap i) (k.gcm_seal kdk nonce (k.sha256 recipient) dek)) _ e
                  λ sealed g e.
                    step (demand (length sealed == length dek + 16) (no_wrap i)) _ e λ _ _ e.
                      step (demand (length (compressed ++ (nonce ++ sealed)) == 93) (no_wrap i)) _ e
                        λ _ _ e.
                          let (d, l) = decode-compress k laws i private compressed c in
                          let fresh = twelve nonce (or_fail-made (no_wrap i) gcm_nonce n) in
                          let opened =
                            or_fail-made (no_wrap i) (k.gcm_seal kdk nonce (k.sha256 recipient) dek)
                              g in
                          let (s1, s2, s3) = slices compressed nonce sealed l fresh.0 in
                          let whole : wrap ≡ compressed ++ (nonce ++ sealed) = cc in
                          let is_own : point ≡ k.public_of own = cc (
                            or_fail-made (no_wrap i) (decode_p256_compressed_to_ecdh k recipient)
                              p) in
                          let shares : k.ecdh own (k.public_of private) ≡ some shared =
                            laws.agree own private
                            ∙ rw is_own at (or_fail-made (no_wrap i) (k.ecdh private point) s) in
                          (
                            rw (whole, s1, s2, s3, d, shares)
                                (rw
                                  (or_fail-made (no_wrap i)
                                    (k.hkdf shared (k.sha256 recipient) (wrap_info config_id)) h)
                                  (laws.gcm_opens kdk nonce (k.sha256 recipient) dek sealed
                                    opened)),
                            rw whole (
                                append-IsBytes compressed (nonce ++ sealed)
                                  (compressed-IsBytes k laws i private compressed c)
                                  (append-IsBytes nonce sealed fresh.1 (
                                    laws.gcm_IsBytes kdk nonce (k.sha256 recipient) dek sealed plain
                                      opened))),
                          )
