-- ===== src/Envelope/RoundTrip.antt =====
-- `decodeEnvelopeWire` of envelope.go on what `encodeEnvelopeWire` writes.
use mathlib.Core.List.{append-nil}
use npvtunnel_creator_server.Base.{
  ℕ, zero, suc, ◌+◌, ◌^◌, ◌<◌, ◌≡◌, refl, sym, ap, ◌∙◌, [], ◌∷◌, ◌++◌, Option, some, Bytes, length,
  arith, length-append, drop, take-append, drop-append, str_eq_refl,
}
use npvtunnel_creator_server.Envelope.Layout.{
  encode-build_signed_range, length-put_uint32, get_uint32-put_uint32,
}
use npvtunnel_creator_server.Envelope.{
  version, magic, put_uint32, get_uint32, slice, Decoded, Outcome, ok, encode_envelope_wire,
  body_nonce_len, signature_len, decode_envelope_wire, decode_header, decode_body,
}

drop-nil : (n : ℕ) → drop {A = ℕ} n [] ≡ []
drop-nil zero = refl
drop-nil (suc n) = refl

pub drop-drop : (m n : ℕ) (xs : Bytes) → drop (m + n) xs ≡ drop n (drop m xs)
drop-drop zero n xs = ap (λ k. drop k xs) (omega arith)
drop-drop (suc m) n [] = drop-nil (suc m + n) ∙ sym (drop-nil n)
drop-drop (suc m) n (x ∷ xs) =
    let e : suc m + n ≡ suc (m + n) = omega arith in rw e (drop-drop m n xs)

-- `tail` is what stands from an offset on.
pub record At (raw : Bytes) (off : ℕ) (tail : Bytes) : Type 0 where
  pub rest : drop off raw ≡ tail
  pub size : length raw ≡ off + length tail

module _ (raw : Bytes) (off : ℕ) (field tail : Bytes) (at : At raw off (field ++ tail)) where
  pub At-slice : (n : ℕ) → n ≡ length field → slice raw off n ≡ field
  At-slice n e = rw (at.rest, e) (take-append field tail)

  pub At-next : (n : ℕ) → n ≡ length field → At raw (off + n) tail
  At-next n e = record {
    rest = drop-drop off n raw ∙ rw (at.rest, e) (drop-append field tail);
    size = omega (arith, at.size, length-append field tail);
  }

module _ {H : Type 0} (unmarshal : Bytes → Option H) (raw header body_nonce body signature : Bytes)
    (h : H) (sig_len : length signature ≡ signature_len) (parses : unmarshal header ≡ some h) where
  abbrev read : Outcome (Decoded H)
  read = ok (record {
    header = h;
    header_bytes = header;
    body_nonce = body_nonce;
    body_ciphertext = body;
    signature = signature;
  })

  decode_body-At :
      (off : ℕ)
      → length body < 2 ^ 32
      → At raw off (put_uint32 (length body) ++ (body ++ signature))
      → decode_body unmarshal raw off header body_nonce (get_uint32 (drop off raw)) ≡ read
  unfolding decode_body
  decode_body-At off small at =
      let at1 : At raw (off + 4) (body ++ signature) =
        At-next raw off (put_uint32 (length body)) _ at 4 (sym (length-put_uint32 (length body))) in
      let at2 : At raw (off + 4 + length body) signature = At-next raw (off + 4) _ _ at1 _ refl in
      let at3 : At raw (off + 4 + length body) (signature ++ []) = rw append-nil at2 in
      rw
        (
          at.rest,
          get_uint32-put_uint32 (length body) (body ++ signature) small,
          At-slice raw (off + 4) _ _ at1 (length body) refl,
          At-slice raw (off + 4 + length body) _ _ at3 64 (sym sig_len),
          parses,
        )
        (ground (arith, at2.size))

  decode_header-At :
      (off : ℕ)
      → length body_nonce ≡ body_nonce_len
      → length header < 2 ^ 32
      → length body < 2 ^ 32
      → At raw off (
          put_uint32 (length header)
          ++ (header ++ (body_nonce ++ (put_uint32 (length body) ++ (body ++ signature)))))
      → decode_header unmarshal raw (off + 4) (get_uint32 (drop off raw)) ≡ read
  unfolding decode_header
  decode_header-At off nonce small_h small_b at =
      let at1 : At raw (off + 4)
          (header ++ (body_nonce ++ (put_uint32 (length body) ++ (body ++ signature)))) =
        At-next raw off (put_uint32 (length header)) _ at 4
          (sym (length-put_uint32 (length header))) in
      let at2 : At raw (off + 4 + length header)
          (body_nonce ++ (put_uint32 (length body) ++ (body ++ signature))) =
        At-next raw (off + 4) _ _ at1 _ refl in
      let at3 : At raw (off + 4 + length header + 12)
          (put_uint32 (length body) ++ (body ++ signature)) =
        At-next raw (off + 4 + length header) _ _ at2 12 (sym nonce) in
      rw
        (
          at.rest,
          get_uint32-put_uint32 (length header) _ small_h,
          At-slice raw (off + 4) _ _ at1 (length header) refl,
          At-slice raw (off + 4 + length header) _ _ at2 12 (sym nonce),
          decode_body-At (off + 4 + length header + 12) small_b at3,
        )
        (ground (arith, at2.size, at3.size))

module _ {H : Type 0} (unmarshal : Bytes → Option H) where
  -- What the encoder writes the decoder reads back, field by field, for every header that the JSON
  -- decoder reads, every nonce of 12 bytes and signature of 64, and a header and a body of less
  -- than 2^32 bytes.
  pub decode_envelope_wire-encode :
      (header body_nonce body signature : Bytes) (h : H)
      → length body_nonce ≡ body_nonce_len
      → length signature ≡ signature_len
      → length header < 2 ^ 32
      → length body < 2 ^ 32
      → unmarshal header ≡ some h
      → decode_envelope_wire unmarshal (encode_envelope_wire header body_nonce body signature)
        ≡ ok (record {
          header = h;
          header_bytes = header;
          body_nonce = body_nonce;
          body_ciphertext = body;
          signature = signature;
        })
  unfolding decode_envelope_wire
  decode_envelope_wire-encode header body_nonce body signature h ln ls lh lb e =
      let tail : Bytes =
        put_uint32 (length header)
        ++ (header ++ (body_nonce ++ (put_uint32 (length body) ++ (body ++ signature)))) in
      let raw : Bytes = magic ++ (version ∷ tail) in
      let inside : At raw 5 tail = record { rest = refl; size = omega arith } in
      rw
        (
          (encode-build_signed_range header body_nonce body ln signature ls).0,
          decode_header-At unmarshal raw header body_nonce body signature h ls e 5 ln lh lb inside,
        )
        (rw (str_eq_refl magic) (
          ground (
            arith,
            length-append (put_uint32 (length header))
                (header ++ (body_nonce ++ (put_uint32 (length body) ++ (body ++ signature)))),
            length-append header (body_nonce ++ (put_uint32 (length body) ++ (body ++ signature))),
            length-append body_nonce (put_uint32 (length body) ++ (body ++ signature)),
            length-append (put_uint32 (length body)) (body ++ signature),
            length-append body signature,
            length-put_uint32 (length header),
            length-put_uint32 (length body),
          )))
