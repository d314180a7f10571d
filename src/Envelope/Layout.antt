-- ===== src/Envelope/Layout.antt =====
-- The buffer that `encodeEnvelopeWire` and `buildSignedRange` of envelope.go fill by offsets.
use mathlib.Core.List.{append-nil, append_assoc}
use npvtunnel_creator_server.Base.{
  ℕ, zero, suc, ◌+◌, ◌-◌, ◌^◌, ◌<◌, ◌≡◌, refl, sym, ap, ◌∙◌, [], ◌∷◌, ◌++◌, some, Bytes, length,
  arith, length-append,
}
use npvtunnel_creator_server.Envelope.{
  version, magic, zeros, copy_at, put_uint32, get_uint32, fill_signed, signed_len,
  build_signed_range, encode_envelope_wire, body_nonce_len, signature_len,
}

-- What the wire format says: the fields in order.
abbrev pub signed_frame : Bytes → Bytes → Bytes → Bytes
signed_frame header body_nonce body =
    (((((magic ++ version ∷ []) ++ put_uint32 (length header)) ++ header) ++ body_nonce)
      ++ put_uint32 (length body))
    ++ body

copy_at_start :
    (src : Bytes) (total n : ℕ)
    → total ≡ length src + n
    → copy_at 0 src (zeros total) ≡ src ++ zeros n
unfolding copy_at zeros
copy_at_start [] total n e = ap zeros (omega arith)
copy_at_start (x ∷ xs) zero n e = absurd (omega arith)
copy_at_start (x ∷ xs) (suc total) n e = ap (◌∷◌ x) (copy_at_start xs total n (omega arith))

copy_at_skip :
    (pre src out : Bytes) (n : ℕ)
    → n ≡ length pre
    → copy_at n src (pre ++ out) ≡ pre ++ copy_at 0 src out
unfolding copy_at
copy_at_skip [] src out zero e = refl
copy_at_skip [] src out (suc n) e = absurd (omega arith)
copy_at_skip (x ∷ pre) src out zero e = absurd (omega arith)
copy_at_skip (x ∷ pre) src out (suc n) e = ap (◌∷◌ x) (copy_at_skip pre src out n (omega arith))

-- One `copy` into a buffer whose first bytes are written.
copy_at-zeros :
    (off : ℕ) (pre src : Bytes) (total n : ℕ)
    → off ≡ length pre
    → total ≡ length src + n
    → copy_at off src (pre ++ zeros total) ≡ (pre ++ src) ++ zeros n
copy_at-zeros off pre src total n e h =
    copy_at_skip pre src (zeros total) off e
    ∙ ap (◌++◌ pre) (copy_at_start src total n h)
    ∙ sym (append_assoc pre src (zeros n))

pub length-put_uint32 : (n : ℕ) → length (put_uint32 n) ≡ 4
unfolding put_uint32
length-put_uint32 n = refl

pub get_uint32-put_uint32 :
    (n : ℕ) (rest : Bytes) → n < 2 ^ 32 → get_uint32 (put_uint32 n ++ rest) ≡ some n
unfolding put_uint32 get_uint32
get_uint32-put_uint32 n rest h = ap some (omega arith)

-- Each `copy` of the source writes the next field.
module _ (header body_nonce body : Bytes) (nonce_len : length body_nonce ≡ body_nonce_len)
    (total n : ℕ) (size : total ≡ signed_len header body + n) where
  abbrev prefix2 : Bytes
  prefix2 = magic ++ version ∷ []

  abbrev prefix3 : Bytes
  prefix3 = prefix2 ++ put_uint32 (length header)

  abbrev prefix4 : Bytes
  prefix4 = prefix3 ++ header

  abbrev prefix5 : Bytes
  prefix5 = prefix4 ++ body_nonce

  abbrev prefix6 : Bytes
  prefix6 = prefix5 ++ put_uint32 (length body)

  length-prefix3 : length prefix3 ≡ 9
  length-prefix3 =
      omega (
        arith,
        length-append prefix2 (put_uint32 (length header)),
        length-put_uint32 (length header),
      )

  length-prefix4 : length prefix4 ≡ 9 + length header
  length-prefix4 = omega (arith, length-prefix3, length-append prefix3 header)

  length-prefix5 : length prefix5 ≡ 21 + length header
  length-prefix5 = omega (arith, length-prefix4, length-append prefix4 body_nonce)

  length-prefix6 : length prefix6 ≡ 25 + length header
  length-prefix6 = omega (
    arith,
    length-prefix5,
    length-append prefix5 (put_uint32 (length body)),
    length-put_uint32 (length body),
  )

  pub length-signed_frame : length (signed_frame header body_nonce body) ≡ signed_len header body
  length-signed_frame = omega (arith, length-prefix6, length-append prefix6 body)

  fill-frame :
      fill_signed total header body_nonce body ≡ signed_frame header body_nonce body ++ zeros n
  unfolding fill_signed
  fill-frame = rw (
    copy_at_start magic total (total - 4) (omega arith),
    copy_at-zeros 4 magic (version ∷ []) (total - 4) (total - 5) refl (omega arith),
    copy_at-zeros 5 prefix2 (put_uint32 (length header)) (total - 5) (total - 9) refl
        (omega (arith, length-put_uint32 (length header))),
    copy_at-zeros 9 prefix3 header (total - 9) (n + length body + 16) (sym length-prefix3)
        (omega arith),
    copy_at-zeros (9 + length header) prefix4 body_nonce (n + length body + 16)
        (n + length body + 4) (sym length-prefix4) (omega arith),
    copy_at-zeros (9 + length header + 12) prefix5 (put_uint32 (length body)) (n + length body + 4)
        (n + length body) (omega (arith, length-prefix5))
        (omega (arith, length-put_uint32 (length body))),
    copy_at-zeros (9 + length header + 12 + 4) prefix6 body (n + length body) n
        (omega (arith, length-prefix6)) (omega arith),
  )

module _ (header body_nonce body : Bytes) (nonce_len : length body_nonce ≡ body_nonce_len) where
  build_signed_range-frame :
      build_signed_range header body_nonce body ≡ signed_frame header body_nonce body
  unfolding build_signed_range
  build_signed_range-frame =
      fill-frame header body_nonce body nonce_len (signed_len header body) 0 (omega arith)
      ∙ (unfold zeros in append-nil (signed_frame header body_nonce body))

  pub encode-frame :
      (signature : Bytes)
      → length signature ≡ signature_len
      → encode_envelope_wire header body_nonce body signature
        ≡ signed_frame header body_nonce body ++ signature
  unfolding encode_envelope_wire
  encode-frame signature h =
      rw
        (fill-frame header body_nonce body nonce_len (signed_len header body + signature_len)
          signature_len (omega arith))
        (copy_at-zeros (signed_len header body) (signed_frame header body_nonce body) signature
            signature_len 0
            (sym (
              length-signed_frame header body_nonce body nonce_len (signed_len header body) 0
                (omega arith)))
            (omega arith)
          ∙ (unfold zeros in append-nil (signed_frame header body_nonce body ++ signature)))

  -- With a nonce of 12 bytes and a signature of 64, the encoder writes the fields of the frame one
  -- after the other, and what is signed is exactly what stands before the signature.
  pub encode-build_signed_range :
      (signature : Bytes)
      → length signature ≡ signature_len
      → (encode_envelope_wire header body_nonce body signature
          ≡ magic
            ++ (version
                ∷ (put_uint32 (length header)
                    ++ (header
                        ++ (body_nonce ++ (put_uint32 (length body) ++ (body ++ signature)))))))
        × (encode_envelope_wire header body_nonce body signature
            ≡ build_signed_range header body_nonce body ++ signature)
  encode-build_signed_range signature h = (
    encode-frame signature h ∙ simp append_assoc,
    rw build_signed_range-frame (encode-frame signature h),
  )
