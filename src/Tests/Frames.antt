-- ===== src/Tests/Frames.antt =====
-- The frame of envelope.go.
use npvtunnel_creator_server.Base.{
  ℕ, zero, suc, ◌<◌, ◌≡◌, ◌↔◌, refl, Bytes, text, [], ◌∷◌, ◌++◌, Option, some, none, length, All,
  arith, str_eq,
}
use npvtunnel_creator_server.Envelope.{
  version, magic, put_uint32, get_uint32, Decoded, ok, err, panicked, encode_envelope_wire,
  build_signed_range, decode_envelope_wire, decode_header, decode_body, bad_magic,
  bad_signature_length, body_nonce_len, signature_len,
}
use npvtunnel_creator_server.Envelope.Layout.{encode-build_signed_range}
use npvtunnel_creator_server.Envelope.RoundTrip.{decode_envelope_wire-encode}
use npvtunnel_creator_server.Envelope.Accept.{decode_envelope_wire-ok}
use npvtunnel_creator_server.Envelope.Crash.{EndsInBodyLength, decode_envelope_wire-panicked}

abbrev repeated : ℕ → ℕ → Bytes
repeated zero b = []
repeated (suc n) b = b ∷ repeated n b

abbrev header : Bytes
header = text "{}"

abbrev nonce : Bytes
nonce = repeated 12 9

abbrev body : Bytes
body = 1 ∷ 2 ∷ 3 ∷ []

abbrev signature : Bytes
signature = repeated 64 5

-- A JSON decoder that reads anything but the empty text.
abbrev parse : Bytes → Option ℕ
parse [] = none
parse (_ ∷ _) = some 0

abbrev frame : Bytes
frame =
    magic
    ++ (version ∷ (put_uint32 2 ++ (header ++ (nonce ++ (put_uint32 3 ++ (body ++ signature))))))

signed_front :
    (encode_envelope_wire header nonce body signature ≡ frame)
    × (encode_envelope_wire header nonce body signature
        ≡ build_signed_range header nonce body ++ signature)
signed_front = encode-build_signed_range header nonce body refl signature refl

abbrev decoded : Decoded ℕ
decoded = record {
  header = 0;
  header_bytes = header;
  body_nonce = nonce;
  body_ciphertext = body;
  signature = signature;
}

decode_envelope_wire-encode_example :
    decode_envelope_wire parse (encode_envelope_wire header nonce body signature) ≡ ok decoded
decode_envelope_wire-encode_example =
    decode_envelope_wire-encode parse header nonce body signature 0 refl refl (omega arith)
      (omega arith) refl

frame_accepted : decode_envelope_wire parse frame ≡ ok decoded
unfolding decode_envelope_wire decode_header decode_body put_uint32 get_uint32 str_eq
frame_accepted = refl

frame_bytes : All (λ (b : ℕ). b < 256) frame
unfolding put_uint32
frame_bytes = omega arith

decode_envelope_wire-ok_example :
    (encode_envelope_wire header nonce body signature ≡ frame)
    × (parse header ≡ some 0)
    × (length nonce ≡ body_nonce_len)
    × (length signature ≡ signature_len)
decode_envelope_wire-ok_example =
    decode_envelope_wire-ok parse frame frame_bytes decoded frame_accepted

-- The frame is cut behind the nonce, and long enough because of its header.
abbrev cut : Bytes
cut = magic ++ (version ∷ (put_uint32 68 ++ (repeated 68 123 ++ nonce)))

cut_bytes : All (λ (b : ℕ). b < 256) cut
unfolding put_uint32
cut_bytes = omega arith

decode_envelope_wire-panicked_example :
    (decode_envelope_wire parse cut ≡ panicked) ↔ EndsInBodyLength cut
decode_envelope_wire-panicked_example = decode_envelope_wire-panicked parse cut cut_bytes

cut_panics : decode_envelope_wire parse cut ≡ panicked
unfolding decode_envelope_wire decode_header decode_body put_uint32 get_uint32 str_eq
cut_panics = refl

wrong_magic : decode_envelope_wire parse (repeated 100 0) ≡ err bad_magic
unfolding decode_envelope_wire str_eq
wrong_magic = refl

trailing_byte : decode_envelope_wire parse (frame ++ 0 ∷ []) ≡ err bad_signature_length
unfolding decode_envelope_wire decode_header decode_body put_uint32 get_uint32 str_eq
trailing_byte = refl
