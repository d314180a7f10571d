-- ===== src/Envelope.antt =====
-- envelope.go: the binary frame of a .npvs envelope, as bytes. The header is opaque here; what
-- encoding/json reads from it is an argument of the decoder. `int` has 64 bits, so the sums of
-- offsets below cannot wrap.
pub mod Layout
pub mod RoundTrip
pub mod Accept
pub mod Crash
use npvtunnel_creator_server.Base.{
  ℕ, zero, suc, ◌+◌, ◌*◌, ◌/◌, ◌%◌, ◌^◌, Bool, true, false, not, List, [], ◌∷◌, ◌++◌, Option, none,
  some, Bytes, if◌then◌else◌, ltb, ◌==◌, str_eq, length, take, drop,
}

abbrev pub magic_len : ℕ
magic_len = 4

abbrev pub version : ℕ
version = 1

abbrev pub version_len : ℕ
version_len = 1

abbrev pub header_len_len : ℕ
header_len_len = 4

abbrev pub body_nonce_len : ℕ
body_nonce_len = 12

abbrev pub body_len_len : ℕ
body_len_len = 4

abbrev pub signature_len : ℕ
signature_len = 64

-- "NPVS"
abbrev pub magic : Bytes
magic = 0x4E ∷ 0x50 ∷ 0x56 ∷ 0x53 ∷ []

-- `make([]byte, n)`
unfoldable pub zeros : ℕ → Bytes
zeros zero = []
zeros (suc n) = 0 ∷ zeros n

-- `copy(out[off:], src)`: it stops at the end of the shorter one.
unfoldable pub copy_at : ℕ → Bytes → Bytes → Bytes
copy_at zero [] out = out
copy_at zero (x ∷ xs) [] = []
copy_at zero (x ∷ xs) (_ ∷ out) = x ∷ copy_at zero xs out
copy_at (suc off) src [] = []
copy_at (suc off) src (y ∷ out) = y ∷ copy_at off src out

-- The four bytes of `binary.BigEndian.PutUint32(_, uint32(n))`.
unfoldable pub put_uint32 : ℕ → Bytes
put_uint32 n = let m = n % 2 ^ 32 in m / 2 ^ 24 ∷ m / 2 ^ 16 % 256 ∷ m / 2 ^ 8 % 256 ∷ m % 256 ∷ []

-- `binary.BigEndian.Uint32(b)`; it panics on fewer than four bytes.
unfoldable pub get_uint32 : Bytes → Option ℕ
get_uint32 (a ∷ b ∷ c ∷ d ∷ _) = some (((a * 256 + b) * 256 + c) * 256 + d)
get_uint32 _ = none

-- The frame up to the signature, in a buffer of the given size.
unfoldable pub fill_signed : ℕ → Bytes → Bytes → Bytes → Bytes
fill_signed total header body_nonce body =
    let out = copy_at 0 magic (zeros total) in
    let out = copy_at magic_len (version ∷ []) out in
    let off = magic_len + version_len in
    let out = copy_at off (put_uint32 (length header)) out in
    let off = off + header_len_len in
    let out = copy_at off header out in
    let off = off + length header in
    let out = copy_at off body_nonce out in
    let off = off + body_nonce_len in
    let out = copy_at off (put_uint32 (length body)) out in
    let off = off + body_len_len in copy_at off body out

abbrev pub signed_len : Bytes → Bytes → ℕ
signed_len header body =
    magic_len
    + version_len
    + header_len_len
    + length header
    + body_nonce_len
    + body_len_len
    + length body

unfoldable pub build_signed_range : Bytes → Bytes → Bytes → Bytes
unfolding fill_signed
build_signed_range header body_nonce body =
    fill_signed (signed_len header body) header body_nonce body

unfoldable pub encode_envelope_wire : Bytes → Bytes → Bytes → Bytes → Bytes
unfolding fill_signed
encode_envelope_wire header body_nonce body signature =
    copy_at (signed_len header body) signature
      (fill_signed (signed_len header body + signature_len) header body_nonce body)

pub data DecodeError : Type 0 where
  too_short bad_magic unsupported_version header_truncated nonce_truncated : DecodeError
  body_truncated bad_signature_length bad_header : DecodeError

pub data Outcome (A : Type 0) : Type 0 where
  ok : A → Outcome A
  err : DecodeError → Outcome A
  panicked : Outcome A

pub record Decoded (H : Type 0) : Type 0 where
  pub header : H
  pub header_bytes : Bytes
  pub body_nonce : Bytes
  pub body_ciphertext : Bytes
  pub signature : Bytes

-- `raw[off : off+n]`
abbrev pub slice : Bytes → ℕ → ℕ → Bytes
slice raw off n = take n (drop off raw)

-- `raw[off] == b`
abbrev pub byte_is : ℕ → Bytes → Bool
byte_is b [] = false
byte_is b (c ∷ _) = c == b

abbrev pub min_len : ℕ
min_len = magic_len + version_len + header_len_len + body_nonce_len + body_len_len + signature_len

module _ {H : Type 0} (unmarshal : Bytes → Option H) where
  abbrev finish : Bytes → Bytes → Bytes → Bytes → Option H → Outcome (Decoded H)
  finish header body_nonce body signature none = err bad_header
  finish header body_nonce body signature (some h) = ok (record {
    header = h;
    header_bytes = header;
    body_nonce = body_nonce;
    body_ciphertext = body;
    signature = signature;
  })

  -- From the body length on, which stands at `off`.
  unfoldable pub decode_body : Bytes → ℕ → Bytes → Bytes → Option ℕ → Outcome (Decoded H)
  decode_body raw off header body_nonce none = panicked
  decode_body raw off header body_nonce (some body_len) =
      let off = off + body_len_len in
      if ltb (length raw) (off + body_len)
      then err body_truncated
      else (let body = slice raw off body_len in
          let off = off + body_len in
          if not (off + signature_len == length raw)
          then err bad_signature_length
          else finish header body_nonce body (slice raw off signature_len) (unmarshal header))

  -- From the header on, which stands at `off`.
  unfoldable pub decode_header : Bytes → ℕ → Option ℕ → Outcome (Decoded H)
  decode_header raw off none = panicked
  decode_header raw off (some header_len) =
      if ltb (length raw) (off + header_len)
      then err header_truncated
      else (let header = slice raw off header_len in
          let off = off + header_len in
          if ltb (length raw) (off + body_nonce_len)
          then err nonce_truncated
          else (let body_nonce = slice raw off body_nonce_len in
              let off = off + body_nonce_len in
              decode_body raw off header body_nonce (get_uint32 (drop off raw))))

  unfoldable pub decode_envelope_wire : Bytes → Outcome (Decoded H)
  decode_envelope_wire raw =
      if ltb (length raw) min_len
      then err too_short
      else if not (str_eq (slice raw 0 magic_len) magic)
      then err bad_magic
      else if not (byte_is version (drop magic_len raw))
      then err unsupported_version
      else (let off = magic_len + version_len in
          decode_header raw (off + header_len_len) (get_uint32 (drop off raw)))
