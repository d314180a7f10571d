-- ===== src/Tests/Minted.antt =====
-- A run of `mintIssuerEnvelope` for two recipients, with toy ciphers, and one of the canonical JSON.
use npvtunnel_creator_server.Base.{
  ◌-◌, ◌^◌, ◌≡◌, ◌≢◌, refl, sym, ap, ◌∙◌, true, [], ◌∷◌, ◌++◌, Option, none, some, Bytes, text,
  length, take, drop, take-append, drop-append, length-append, str_eq, str_eq_iff, ltb→lt, ltb, pos,
  decimal, arith,
}
use npvtunnel_creator_server.Base.Order.{text_less}
use npvtunnel_creator_server.Base.Runes.{rune_len, runes_from, runes, concat}
use npvtunnel_creator_server.Base.Strings.{space_len, trim_left, trim_right, trim_space}
use npvtunnel_creator_server.Base64.{digit, encode_to_string}
use npvtunnel_creator_server.Base64.RoundTrip.{IsBytes}
use npvtunnel_creator_server.Canonical.{
  Json, number, str, obj, end, field, bytes, escaped, write_canonical_string, joined, insert_entry,
  sort_entries, write_canonical, write_items, write_fields, canonical_json,
}
use npvtunnel_creator_server.Canonical.Determined.{fields, swap, canonical_json-Same}
use npvtunnel_creator_server.Envelope.{
  build_signed_range, encode_envelope_wire, fill_signed, copy_at, put_uint32,
}
use npvtunnel_creator_server.Envelope
use npvtunnel_creator_server.Signing.{zeros}
use npvtunnel_creator_server.Minting.{
  normalize_display_name, Ciphers, Minting, made, failed, panicked, compress_p256,
  compress_uncompressed_p256, decode_p256_compressed_to_ecdh, ecdh_ephemeral_wrap,
}
use npvtunnel_creator_server.Minting.Mint.{
  policy_json, header_json, header_bytes, IssuerBody, MintInput, Draws, MintResult,
  check_recipients, wrap_all, sign_p1363, seal, mint_issuer_envelope,
}
use npvtunnel_creator_server.Minting.Wrap.{Laws}
use npvtunnel_creator_server.Minting.Sealed.{IsDrawn}
use npvtunnel_creator_server.Minting.Opens.{Opens, mint-Opens}
use npvtunnel_creator_server.Tests.Issuance.{crypto, repeated, key_pair}

-- One point, the empty hash, and sixteen zeros for a tag.
abbrev point : Bytes
point = 4 ∷ zeros 64

abbrev ciphers : Ciphers
ciphers = record {
  sha256 = λ b. 9 ∷ [];
  hkdf = λ shared salt info. some [];
  gcm_seal = λ key nonce aad plain. some (plain ++ zeros 16);
  gcm_open = λ key nonce aad sealed. some (take (length sealed - 16) sealed);
  chacha_seal = λ key nonce aad plain. some (7 ∷ plain);
  chacha_open = λ key nonce aad sealed. some (drop 1 sealed);
  ecdh = λ private public. some [];
  public_of = λ private. point;
  new_public_key = λ b. str_eq b point;
  unmarshal_compressed = λ b. some ([], []);
}

gcm_opens : (plain : Bytes) → take (length (plain ++ zeros 16) - 16) (plain ++ zeros 16) ≡ plain
gcm_opens plain =
    let n : length (plain ++ zeros 16) - 16 ≡ length plain =
      omega (arith, length-append plain (zeros 16)) in
    rw n (take-append plain (zeros 16))

append-zeros : (b : Bytes) → IsBytes b → IsBytes (b ++ zeros 16)
append-zeros [] h = omega arith
append-zeros (x ∷ b) h = (h.0, append-zeros b h.1)

halves :
    (x y : Bytes)
    → length x ≡ 32
    → str_eq (4 ∷ (x ++ y)) point ≡ true
    → (x ≡ zeros 32) × (y ≡ zeros 32)
halves x y lx e =
    let whole : 4 ∷ (x ++ y) ≡ point = (str_eq_iff (4 ∷ (x ++ y)) point).0 e in
    let same : x ++ y ≡ zeros 32 ++ zeros 32 = ap (drop 1) whole in
    (
      sym (take-append x y) ∙ ap (λ n. take n (x ++ y)) lx ∙ ap (take 32) same,
      sym (drop-append x y) ∙ ap (λ n. drop n (x ++ y)) lx ∙ ap (drop 32) same,
    )

laws : Laws ciphers
laws = record {
  agree = λ a b. refl;
  public_point = λ a. (zeros 32, zeros 32, refl, refl, refl, unfold str_eq in refl);
  unmarshals =
      λ x y lx ly e. let (is_x, is_y) = halves x y lx e in (([], []), refl, sym is_x, sym is_y);
  gcm_opens = λ key nonce aad plain sealed e.
      let is : sealed ≡ plain ++ zeros 16 = cc e in rw is (ap some (gcm_opens plain));
  public_IsBytes = λ a. omega arith;
  gcm_IsBytes = λ key nonce aad plain sealed h e.
      let is : sealed ≡ plain ++ zeros 16 = cc e in rw is (append-zeros plain h);
  chacha_opens = λ key nonce aad plain sealed e. let is : sealed ≡ 7 ∷ plain = cc e in rw is refl;
}

abbrev draws : Draws
draws = record {
  dek = some (repeated 32);
  body_nonce = some (repeated 12);
  config_id = some (repeated 16);
  ephemeral = λ i. some [];
  gcm_nonce = λ i. some (repeated 12);
}

drawn : IsDrawn draws
drawn = record {
  nonce_length = λ n e. let is : n ≡ repeated 12 = cc e in rw is refl;
  dek_IsBytes = λ b e. let is : b ≡ repeated 32 = cc e in rw is (omega arith);
  gcm_nonces = λ i n e. let is : n ≡ repeated 12 = cc e in rw is (refl, omega arith);
}

abbrev pk : Bytes
pk = 2 ∷ zeros 32

abbrev input : MintInput
input = record {
  creator_key = some (record { is_p256 = true; x = 1 ∷ []; y_last = 3 });
  recipient_pub_keys = pk ∷ pk ∷ [];
  issuer_url = text "https://a.b/v1/issue";
  display_name = text " cafe\t";
  config_id = none;
  issued_at = none;
  policy = none;
}

abbrev marshal : IssuerBody → Option Bytes
marshal b = some b.display_name

abbrev result_of : Minting MintResult → MintResult
result_of (made r) = r
result_of (failed e) = record { envelope_bytes = []; config_fp = []; config_id = [] }
result_of panicked = record { envelope_bytes = []; config_fp = []; config_id = [] }

abbrev attempt : Minting MintResult
attempt = mint_issuer_envelope crypto ciphers (λ t. text "now") marshal draws (pos 0) input

owned : decode_p256_compressed_to_ecdh ciphers pk ≡ some point
unfolding decode_p256_compressed_to_ecdh str_eq
owned = refl

mints :
    (attempt ≡ made (result_of attempt))
    × (ltb (length (result_of attempt).envelope_bytes) (2 ^ 32) ≡ true)
unfolding mint_issuer_envelope check_recipients compress_p256 wrap_all ecdh_ephemeral_wrap
    decode_p256_compressed_to_ecdh compress_uncompressed_p256 seal header_bytes header_json
    policy_json canonical_json write_canonical write_items write_fields write_canonical_string
    joined insert_entry sort_entries escaped runes runes_from rune_len concat text_less
    normalize_display_name trim_space trim_left trim_right space_len sign_p1363 build_signed_range
    encode_envelope_wire fill_signed copy_at put_uint32 encode_to_string digit decimal str_eq
    Envelope.zeros
mints = (refl, refl)

mint-Opens_example :
    Opens ciphers crypto marshal (repeated 33) ([] ∷ [] ∷ []) input (result_of attempt)
mint-Opens_example =
    mint-Opens ciphers laws crypto (repeated 33) key_pair (λ t. text "now") marshal draws drawn
      (pos 0) input ([] ∷ [] ∷ []) (result_of attempt) (owned, (owned, tt)) mints.0
      (ltb→lt _ _ mints.1)

-- A control character, a quote, a wide rune and a byte that is none.
escapes :
    write_canonical_string (1 ∷ b'"' ∷ 0xC3 ∷ 0xA9 ∷ 0xFF ∷ [])
    ≡ text "\"\\u0001\\\"" ++ (0xC3 ∷ 0xA9 ∷ 0xEF ∷ 0xBF ∷ 0xBD ∷ text "\"")
unfolding write_canonical_string escaped runes runes_from rune_len concat
escapes = refl

keys : text "v" ≢ text "fp"
keys e = absurd (cc e)

abbrev visited : Json
visited = obj (field (text "v") (number (text "1")) (field (text "fp") (str (text "a")) end))

visited_bytes : canonical_json visited ≡ bytes (text "{\"fp\":\"a\",\"v\":1}")
unfolding canonical_json write_canonical write_fields write_canonical_string joined insert_entry
    sort_entries escaped runes runes_from rune_len concat text_less
visited_bytes = refl

canonical_json-Same_example :
    canonical_json visited
    ≡ canonical_json
        (obj (field (text "fp") (str (text "a")) (field (text "v") (number (text "1")) end)))
canonical_json-Same_example =
    canonical_json-Same
      (fields (swap (text "v") (text "fp") (number (text "1")) (str (text "a")) end keys))
