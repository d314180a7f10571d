-- ===== src/ShareLink/Reading.antt =====
-- What the link of share_link.go carries.
use mathlib.Core.List.{append_assoc}
use npvtunnel_creator_server.Base.{
  ℕ, ◌≡◌, ◌≢◌, refl, sym, ap, ◌∙◌, [], ◌∷◌, ◌++◌, Bytes, Text, text, All, arith, drop,
}
use npvtunnel_creator_server.Base64.{digit, decode_string, encode_to_string}
use npvtunnel_creator_server.Base64.RoundTrip.{IsBytes, decode-encode}
use npvtunnel_creator_server.ShareLink.{join_share_link}

abbrev amp : ℕ
amp = b'&'

abbrev NoAmp : Text → Type 0
NoAmp = All (λ c. c ≢ amp)

digit-NoAmp : (v : ℕ) → digit v ≢ amp
unfolding digit
digit-NoAmp v e = ground arith

encode-NoAmp : (bytes : Bytes) → NoAmp (encode_to_string bytes)
unfolding encode_to_string
encode-NoAmp [] = tt
encode-NoAmp (a ∷ []) = (digit-NoAmp _, (digit-NoAmp _, tt))
encode-NoAmp (a ∷ b ∷ []) = (digit-NoAmp _, (digit-NoAmp _, (digit-NoAmp _, tt)))
encode-NoAmp (a ∷ b ∷ c ∷ rest) =
    (digit-NoAmp _, (digit-NoAmp _, (digit-NoAmp _, (digit-NoAmp _, encode-NoAmp rest))))

cut_at_amp : (s t x y : Text) → NoAmp s → NoAmp t → s ++ amp ∷ x ≡ t ++ amp ∷ y → (s ≡ t) × (x ≡ y)
cut_at_amp [] [] x y n m e = (refl, cc e)
cut_at_amp [] (c ∷ t) x y n m e = absurd (m.0 (sym (cc e)))
cut_at_amp (c ∷ s) [] x y n m e = absurd (n.0 (cc e))
cut_at_amp (c ∷ s) (d ∷ t) x y n m e =
    let (same, rest) = cut_at_amp s t x y n.1 m.1 (cc e) in
    let first : c ≡ d = cc e in (cc (first, same), rest)

-- A share link determines what it was made of: two links are equal only if they carry the same
-- issuer address and the same token.
pub join_share_link-injective :
    (url url' token token' : Text)
    → IsBytes url
    → IsBytes url'
    → join_share_link url token ≡ join_share_link url' token'
    → (url ≡ url') × (token ≡ token')
unfolding join_share_link
join_share_link-injective url url' token token' b b' e =
    let (codes, tails) =
      cut_at_amp (encode_to_string url) (encode_to_string url') (text "t=" ++ token)
        (text "t=" ++ token') (encode-NoAmp url) (encode-NoAmp url')
        (regroup url token url' token' (ap (drop 19) e)) in
    let decoded = sym (decode-encode url b) ∙ ap decode_string codes ∙ decode-encode url' b' in
    (cc decoded, ap (drop 2) tails)
  where
    regroup :
        (u t u' t' : Text)
        → (encode_to_string u ++ text "&t=") ++ t ≡ (encode_to_string u' ++ text "&t=") ++ t'
        → encode_to_string u ++ (text "&t=" ++ t) ≡ encode_to_string u' ++ (text "&t=" ++ t')
    regroup u t u' t' h = simp append_assoc at h
