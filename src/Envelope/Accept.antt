-- ===== src/Envelope/Accept.antt =====
-- `decodeEnvelopeWire` of envelope.go, on the frames that it decodes.
use mathlib.Core.List.{append-nil}
use npvtunnel_creator_server.Base.{
  ℕ, zero, suc, ◌+◌, ◌≤◌, ◌≡◌, refl, sym, ap, ap₂, ◌∙◌, [], ◌∷◌, ◌++◌, Option, some, none, Bytes,
  length, arith, drop, take-append-drop, length-take, length-drop, true, str_eq_iff, Option-cases,
}
use npvtunnel_creator_server.Base64.RoundTrip.{IsBytes}
use npvtunnel_creator_server.Envelope.Layout.{encode-build_signed_range}
use npvtunnel_creator_server.Envelope.RoundTrip.{drop-drop}
use npvtunnel_creator_server.Envelope.{
  version, magic, put_uint32, get_uint32, slice, byte_is, Decoded, ok, encode_envelope_wire,
  body_nonce_len, signature_len, decode_envelope_wire, decode_header, decode_body,
}

pub drop-IsBytes : (n : ℕ) (xs : Bytes) → IsBytes xs → IsBytes (drop n xs)
drop-IsBytes zero xs h = h
drop-IsBytes (suc n) [] h = h
drop-IsBytes (suc n) (x ∷ xs) h = drop-IsBytes n xs h.1

-- A length that is read is the one that the encoder would have written there.
pub get_uint32-some :
    (xs : Bytes) {n : ℕ} → IsBytes xs → get_uint32 xs ≡ some n → xs ≡ put_uint32 n ++ drop 4 xs
unfolding get_uint32 put_uint32
get_uint32-some (a ∷ b ∷ c ∷ d ∷ rest) h e = ground arith
get_uint32-some _ h e = cc

-- One field and the rest.
pub drop-slice : (raw : Bytes) (off n : ℕ) → drop off raw ≡ slice raw off n ++ drop (off + n) raw
drop-slice raw off n = sym (rw (drop-drop off n raw) (take-append-drop n (drop off raw)))

drop_all : (n : ℕ) (xs : Bytes) → length xs ≡ n → drop n xs ≡ []
drop_all zero [] e = refl
drop_all zero (x ∷ xs) e = absurd (omega arith)
drop_all (suc n) [] e = refl
drop_all (suc n) (x ∷ xs) e = drop_all n xs (omega arith)

pub length-drop-slice :
    (raw : Bytes) (off n : ℕ) → off + n ≤ length raw → length (slice raw off n) ≡ n
length-drop-slice raw off n h = omega (arith, length-take n (drop off raw), length-drop off raw)

module _ {H : Type 0} (unmarshal : Bytes → Option H) (raw : Bytes) where
  -- What the tests of the decoder say where it accepts.
  body_tests :
      (off n : ℕ) (header body_nonce : Bytes) (d : Decoded H)
      → decode_body unmarshal raw off header body_nonce (some n) ≡ ok d
      → (d.header_bytes ≡ header)
        × (d.body_nonce ≡ body_nonce)
        × (d.body_ciphertext ≡ slice raw (off + 4) n)
        × (d.signature ≡ slice raw (off + 4 + n) 64)
        × (off + 4 + n + 64 ≡ length raw)
        × (unmarshal header ≡ some d.header)
  unfolding decode_body
  body_tests off n header body_nonce d e = ground (arith, Option-cases (unmarshal header))

  header_tests :
      (off n : ℕ) (d : Decoded H)
      → decode_header unmarshal raw off (some n) ≡ ok d
      → (off + n + 12 ≤ length raw)
        × (decode_body unmarshal raw
              (off + n + 12)
              (slice raw off n)
              (slice raw (off + n) 12)
              (get_uint32 (drop (off + n + 12) raw))
            ≡ ok d)
  unfolding decode_header
  header_tests off n d e = ground arith

  frame_tests :
      (d : Decoded H)
      → decode_envelope_wire unmarshal raw ≡ ok d
      → (slice raw 0 4 ≡ magic)
        × (byte_is version (drop 4 raw) ≡ true)
        × (decode_header unmarshal raw 9 (get_uint32 (drop 5 raw)) ≡ ok d)
  unfolding decode_envelope_wire
  frame_tests d e = ground (arith, str_eq_iff (slice raw 0 4) magic)

  none_body :
      (off : ℕ) (header body_nonce : Bytes) (d : Decoded H) (o : Option ℕ)
      → decode_body unmarshal raw off header body_nonce o ≡ ok d
      → (n : ℕ) × (o ≡ some n)
  unfolding decode_body
  none_body off header body_nonce d none e = cc
  none_body off header body_nonce d (some n) e = (n, refl)

  none_header :
      (off : ℕ) (d : Decoded H) (o : Option ℕ)
      → decode_header unmarshal raw off o ≡ ok d
      → (n : ℕ) × (o ≡ some n)
  unfolding decode_header
  none_header off d none e = cc
  none_header off d (some n) e = (n, refl)

pub byte_is-drop : (b : ℕ) (xs : Bytes) → byte_is b xs ≡ true → xs ≡ b ∷ drop 1 xs
byte_is-drop b [] e = cc
byte_is-drop b (x ∷ xs) e = ground arith

-- A list that passes the tests is the concatenation of its fields.
module _ (raw : Bytes) (bytes : IsBytes raw) (hl bl : ℕ) (starts : slice raw 0 4 ≡ magic)
    (versioned : byte_is version (drop 4 raw) ≡ true)
    (read_header : get_uint32 (drop 5 raw) ≡ some hl)
    (read_body : get_uint32 (drop (9 + hl + 12) raw) ≡ some bl)
    (total : 9 + hl + 12 + 4 + bl + 64 ≡ length raw) where
  abbrev off : ℕ
  off = 9 + hl + 12

  last_field : drop (off + 4 + bl) raw ≡ slice raw (off + 4 + bl) 64
  last_field =
      drop-slice raw (off + 4 + bl) 64
      ∙ rw (drop_all (off + 4 + bl + 64) raw (omega arith)) (append-nil _)

  from_body :
      drop off raw ≡ put_uint32 bl ++ (slice raw (off + 4) bl ++ slice raw (off + 4 + bl) 64)
  from_body =
      get_uint32-some (drop off raw) (drop-IsBytes off raw bytes) read_body
      ∙ ap (◌++◌ (put_uint32 bl)) (
          sym (drop-drop off 4 raw)
          ∙ drop-slice raw (off + 4) bl
          ∙ ap (◌++◌ (slice raw (off + 4) bl)) last_field)

  from_header :
      drop 5 raw ≡ put_uint32 hl ++ (slice raw 9 hl ++ (slice raw (9 + hl) 12 ++ drop off raw))
  from_header =
      get_uint32-some (drop 5 raw) (drop-IsBytes 5 raw bytes) read_header
      ∙ ap (◌++◌ (put_uint32 hl)) (
          sym (drop-drop 5 4 raw)
          ∙ drop-slice raw 9 hl
          ∙ ap (◌++◌ (slice raw 9 hl)) (drop-slice raw (9 + hl) 12))

  all_fields :
      raw
      ≡ magic
        ++ (version
            ∷ (put_uint32 hl
                ++ (slice raw 9 hl
                    ++ (slice raw (9 + hl) 12
                        ++ (put_uint32 bl
                            ++ (slice raw (off + 4) bl ++ slice raw (off + 4 + bl) 64))))))
  all_fields =
      drop-slice raw 0 4
      ∙ ap₂ (λ a b. a ++ b) starts
          (byte_is-drop version (drop 4 raw) versioned
            ∙ ap (◌∷◌ version) (
                sym (drop-drop 4 1 raw)
                ∙ from_header
                ∙ ap (λ l. put_uint32 hl ++ (slice raw 9 hl ++ (slice raw (9 + hl) 12 ++ l)))
                    from_body))

module _ {H : Type 0} (unmarshal : Bytes → Option H) (raw : Bytes) (bytes : IsBytes raw)
    (d : Decoded H) (accepted : decode_envelope_wire unmarshal raw ≡ ok d) where
  -- Whatever the decoder accepts is, byte for byte, what the encoder writes for the fields that it
  -- returns; the header is the one that the JSON decoder read, and the lengths are the fixed ones.
  pub decode_envelope_wire-ok :
      (encode_envelope_wire d.header_bytes d.body_nonce d.body_ciphertext d.signature ≡ raw)
      × (unmarshal d.header_bytes ≡ some d.header)
      × (length d.body_nonce ≡ body_nonce_len)
      × (length d.signature ≡ signature_len)
  decode_envelope_wire-ok =
      let (m, v, dh) = frame_tests unmarshal raw d accepted in
      let (hl, eh) = none_header unmarshal raw 9 d (get_uint32 (drop 5 raw)) dh in
      let (fits, db) = header_tests unmarshal raw 9 hl d (rw eh at dh) in
      let off : ℕ = 9 + hl + 12 in
      let (bl, eb) =
        none_body unmarshal raw off (slice raw 9 hl) (slice raw (9 + hl) 12) d
          (get_uint32 (drop off raw)) db in
      let t =
        body_tests unmarshal raw off bl (slice raw 9 hl) (slice raw (9 + hl) 12) d (rw eb at db) in
      let h_len : length (slice raw 9 hl) ≡ hl = length-drop-slice raw 9 hl (omega (arith, t.4)) in
      let n_len : length (slice raw (9 + hl) 12) ≡ 12 =
        length-drop-slice raw (9 + hl) 12 (omega (arith, t.4)) in
      let b_len : length (slice raw (off + 4) bl) ≡ bl =
        length-drop-slice raw (off + 4) bl (omega (arith, t.4)) in
      let s_len : length (slice raw (off + 4 + bl) 64) ≡ 64 =
        length-drop-slice raw (off + 4 + bl) 64 (omega (arith, t.4)) in
      rw (t.0, t.1, t.2, t.3)
        (
          (encode-build_signed_range (slice raw 9 hl) (slice raw (9 + hl) 12)
                (slice raw (off + 4) bl) n_len (slice raw (off + 4 + bl) 64) s_len).0
              ∙ rw (h_len, b_len) (sym (all_fields raw bytes hl bl m v eh eb t.4)),
          t.5,
          n_len,
          s_len,
        )
