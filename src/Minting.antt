-- ===== src/Minting.antt =====
-- `mintIssuerEnvelope` of envelope.go, with the key wrap and the point encodings it calls, and
-- `normalizeDisplayName` of management.go. The ciphers, the hash, ECDH and elliptic curves are
-- arguments (`Ciphers`); the control runes of package unicode are written out.
pub mod Mint
pub mod Steps
pub mod Wrap
pub mod Sealed
pub mod Opens
use npvtunnel_creator_server.Base.{
  ℕ, zero, suc, ◌+◌, ◌%◌, Bool, true, false, not, ◌&&◌, ◌||◌, List, [], ◌∷◌, ◌++◌, Option, none,
  some, Bytes, Text, text, if◌then◌else◌, ltb, ◌==◌, length, take, drop, keep, str_eq, ℤ, decimal,
}
use npvtunnel_creator_server.Base.Strings.{trim_space}
use npvtunnel_creator_server.Base.Runes.{runes, concat}
use npvtunnel_creator_server.Base64.{encode_to_string}
use npvtunnel_creator_server.Configs.{EnvelopePolicy}
use npvtunnel_creator_server.Signing.{Crypto, left_padded}
use npvtunnel_creator_server.Envelope.{build_signed_range, encode_envelope_wire}
use npvtunnel_creator_server.Canonical.{
  Json, Items, Fields, null, bool, str, number, arr, obj, nil, cons, end, field, Written, bytes,
  float_error, type_error, canonical_json,
}

abbrev is_control : Text → Bool
is_control (c ∷ []) = ltb c 0x20 || c == 0x7F
is_control (c ∷ d ∷ []) = c == 0xC2 && ltb d 0xA0
is_control _ = false

abbrev max_display_name_runes : ℕ
max_display_name_runes = 80

unfoldable pub normalize_display_name : Text → Text
normalize_display_name value =
    let value = concat (keep (λ r. not (is_control r)) (runes (trim_space value))) in
    concat (take max_display_name_runes (runes (trim_space value)))

-- SHA-256; HKDF-SHA256 of a shared secret, a salt and an info, to 32 bytes; AES-256-GCM and
-- ChaCha20-Poly1305 by key, nonce, associated data and text; ECDH of a private key and an uncompressed
-- point, the public key of a private one as such a point, and `ecdh.P256().NewPublicKey`; and the
-- bytes of x and y that `elliptic.UnmarshalCompressed` finds.
pub record Ciphers : Type 0 where
  pub sha256 : Bytes → Bytes
  pub hkdf : Bytes → Bytes → Bytes → Option Bytes
  pub gcm_seal : Bytes → Bytes → Bytes → Bytes → Option Bytes
  pub gcm_open : Bytes → Bytes → Bytes → Bytes → Option Bytes
  pub chacha_seal : Bytes → Bytes → Bytes → Bytes → Option Bytes
  pub chacha_open : Bytes → Bytes → Bytes → Bytes → Option Bytes
  pub ecdh : Bytes → Bytes → Option Bytes
  pub public_of : Bytes → Bytes
  pub new_public_key : Bytes → Bool
  pub unmarshal_compressed : Bytes → Option (Bytes × Bytes)

pub data MintError : Type 0 where
  no_creator_key no_recipients no_issuer_url no_config_id bad_config_id : MintError
  not_p256 no_dek no_body_nonce bad_header bad_body no_body_cipher no_signature : MintError
  bad_recipient : ℕ → MintError
  no_wrap : ℕ → MintError

-- Go's (value, error); `panicked` is an index out of range.
pub data Minting {ℓ} (A : Type ℓ) : Type ℓ where
  made : A → Minting A
  failed : MintError → Minting A
  panicked : Minting A

infixl 5 ◌>>=◌
abbrev pub ◌>>=◌ {ℓ κ} : {A : Type ℓ} {B : Type κ} → Minting A → (A → Minting B) → Minting B
made v >>= k = k v
failed e >>= k = failed e
panicked >>= k = panicked

abbrev pub or_fail {ℓ} : {A : Type ℓ} → MintError → Option A → Minting A
or_fail e none = failed e
or_fail e (some v) = made v

abbrev pub demand : Bool → MintError → Minting (Unit {0})
demand true e = made tt
demand false e = failed e

-- 0x02 or 0x03, by the parity of y.
abbrev pub sign_byte : ℕ → ℕ
sign_byte y = if y % 2 == 0 then 2 else 3

-- The creator's key: its curve, the bytes of x, and the last byte of y.
pub record CreatorKey : Type 0 where
  pub is_p256 : Bool
  pub x : Bytes
  pub y_last : ℕ

unfoldable pub compress_p256 : CreatorKey → Option Bytes
compress_p256 key =
    if not key.is_p256 then none else some (sign_byte key.y_last ∷ left_padded key.x)

abbrev pub last_byte : Bytes → ℕ
last_byte [] = 0
last_byte (b ∷ []) = b
last_byte (b ∷ c ∷ bs) = last_byte (c ∷ bs)

-- The message of the error reads the first byte, also of an empty slice.
unfoldable pub compress_uncompressed_p256 : ℕ → Bytes → Minting Bytes
compress_uncompressed_p256 i [] = panicked
compress_uncompressed_p256 i (b ∷ bs) =
    if not (length bs == 64) || not (b == 4)
    then failed (no_wrap i)
    else made (sign_byte (last_byte bs) ∷ take 32 bs)

abbrev uncompressed : Option (Bytes × Bytes) → Option Bytes
uncompressed none = none
uncompressed (some (x, y)) = some (4 ∷ (left_padded x ++ left_padded y))

abbrev checked : Ciphers → Option Bytes → Option Bytes
checked k none = none
checked k (some point) = if k.new_public_key point then some point else none

-- The uncompressed point, or an error.
unfoldable pub decode_p256_compressed_to_ecdh : Ciphers → Bytes → Option Bytes
decode_p256_compressed_to_ecdh k compressed =
    if not (length compressed == 33)
    then none
    else checked k (uncompressed (k.unmarshal_compressed compressed))

abbrev pub wrap_info : Bytes → Bytes
wrap_info config_id = text "NPVS-v1-wrap" ++ config_id

-- `i` is the recipient, for the error. The wrap, and the fingerprint of the recipient.
unfoldable pub ecdh_ephemeral_wrap :
    Ciphers → ℕ → Option Bytes → Option Bytes → Bytes → Bytes → Bytes → Minting (Bytes × Bytes)
ecdh_ephemeral_wrap k i ephemeral gcm_nonce recipient config_id dek = do
  point ← or_fail (no_wrap i) (decode_p256_compressed_to_ecdh k recipient)
  private ← or_fail (no_wrap i) ephemeral
  compressed ← compress_uncompressed_p256 i (k.public_of private)
  shared ← or_fail (no_wrap i) (k.ecdh private point)
  let fp = k.sha256 recipient
  kdk ← or_fail (no_wrap i) (k.hkdf shared fp (wrap_info config_id))
  nonce ← or_fail (no_wrap i) gcm_nonce
  sealed ← or_fail (no_wrap i) (k.gcm_seal kdk nonce fp dek)
  sized ← demand (length sealed == length dek + 16) (no_wrap i)
  let wrap = compressed ++ (nonce ++ sealed)
  fits ← demand (length wrap == 93) (no_wrap i)
  made (wrap, fp)
