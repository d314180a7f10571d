-- ===== src/Base64/RoundTrip.antt =====
-- The decoder of encoding/base64 on what the encoder writes.
use npvtunnel_creator_server.Base.{
  ℕ, ◌+◌, ◌*◌, ◌/◌, ◌%◌, ◌<◌, ◌≡◌, refl, true, not, List, [], ◌∷◌, ◌++◌, some, Bytes, Text, keep,
  All, map, arith, keep-append,
}
use npvtunnel_creator_server.Base64.{
  digit, value, values, encode_to_string, regroup, decode_string, is_newline,
}

abbrev pub IsBytes : Bytes → Type 0
IsBytes = All (λ b. b < 256)

value-digit : (v : ℕ) → v < 64 → value (digit v) ≡ some v
unfolding value digit
value-digit v h = ground arith

digit_plain : (v : ℕ) → v < 64 → not (is_newline (digit v)) ≡ true
unfolding digit
digit_plain v h = ground arith

abbrev plain : Text → Text
plain = keep (λ c. not (is_newline c))

-- The values that the digits of an encoded text stand for.
sextets : Bytes → List ℕ
sextets [] = []
sextets (a ∷ []) = a / 4 ∷ (a % 4 * 16) ∷ []
sextets (a ∷ b ∷ []) = a / 4 ∷ (a % 4 * 16 + b / 16) ∷ (b % 16 * 4) ∷ []
sextets (a ∷ b ∷ c ∷ rest) =
    a / 4 ∷ (a % 4 * 16 + b / 16) ∷ (b % 16 * 4 + c / 64) ∷ c % 64 ∷ sextets rest

sextets_small : (bs : Bytes) → IsBytes bs → All (λ v. v < 64) (sextets bs)
unfolding sextets
sextets_small [] h = tt
sextets_small (a ∷ []) h = (omega arith, (omega arith, tt))
sextets_small (a ∷ b ∷ []) h = (omega arith, (omega arith, (omega arith, tt)))
sextets_small (a ∷ b ∷ c ∷ rest) h =
    (omega arith, (omega arith, (omega arith, (omega arith, sextets_small rest h.1.1.1))))

encode-digit : (bs : Bytes) → encode_to_string bs ≡ map digit (sextets bs)
unfolding encode_to_string sextets
encode-digit [] = refl
encode-digit (a ∷ []) = refl
encode-digit (a ∷ b ∷ []) = refl
encode-digit (a ∷ b ∷ c ∷ rest) = rw (encode-digit rest)

values-digit : (vs : List ℕ) → All (λ v. v < 64) vs → values (plain (map digit vs)) ≡ some vs
unfolding values
values-digit [] h = refl
values-digit (v ∷ vs) h = rw (digit_plain v h.0, value-digit v h.0, values-digit vs h.1)

regroup-sextets : (bs : Bytes) → IsBytes bs → regroup (sextets bs) ≡ some bs
unfolding regroup sextets
regroup-sextets [] h = refl
regroup-sextets (a ∷ []) h = ground arith
regroup-sextets (a ∷ b ∷ []) h = ground arith
regroup-sextets (a ∷ b ∷ c ∷ rest) h = rw (regroup-sextets rest h.1.1.1) (ground arith)

-- A newline or a carriage return anywhere in a text is as if it were not there.
pub decode_string-newline :
    (s t : Text) (c : ℕ) → is_newline c ≡ true → decode_string (s ++ c ∷ t) ≡ decode_string (s ++ t)
unfolding decode_string
decode_string-newline s t c e =
    rw (
      keep-append (λ d. not (is_newline d)) s (c ∷ t),
      keep-append (λ d. not (is_newline d)) s t,
      e,
    )

pub decode-encode : (bs : Bytes) → IsBytes bs → decode_string (encode_to_string bs) ≡ some bs
unfolding decode_string
decode-encode bs h =
    rw (encode-digit bs, values-digit (sextets bs) (sextets_small bs h)) (regroup-sextets bs h)
