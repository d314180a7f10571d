-- ===== src/Android/Records.antt =====
-- `parseLengthPrefixedChain` of aka.go against the records that it reads.
use mathlib.Core.List.{append-nil, append_assoc}
use npvtunnel_creator_server.Base.{
  ℕ, zero, suc, ◌+◌, ◌*◌, ◌/◌, ◌%◌, ◌^◌, ◌≤◌, ◌<◌, ◌≡◌, ◌↔◌, refl, sym, ap, ap₂, ◌∙◌, List, [], ◌∷◌,
  ◌++◌, Bytes, text, length, take, drop, ltb, decimal, length-take, length-append, take-append,
  drop-append, take-append-drop, Bool-cases, inl, inr, arith,
}
use npvtunnel_creator_server.Base.Results.{ok, >>=-went_well, wrap, wrap-eq-ok}
use npvtunnel_creator_server.Base64.RoundTrip.{IsBytes}
use npvtunnel_creator_server.Android.{Certificate, Certificates}
use npvtunnel_creator_server.Android.Chain.{parse_records, parse_length_prefixed_chain}

-- Two bytes of length, the high one first, and the certificate.
abbrev pub framed : Bytes → Bytes
framed der = length der / 256 ∷ length der % 256 ∷ der

abbrev pub records : List Bytes → Bytes
records [] = []
records (der ∷ ders) = framed der ++ records ders

-- Each record fits its prefix and holds a certificate.
abbrev pub Holds : Certificates → List Bytes → List Certificate → Type 0
Holds x [] [] = Unit
Holds x (der ∷ ders) (cert ∷ certs) =
    (length der < 2 ^ 16) × (x.parse_certificate der ≡ inr cert) × Holds x ders certs
Holds x _ _ = ⊥

-- One round on a record that is there in full.
parse_records_step :
    (x : Certificates) (fuel position hi lo : ℕ) (rest : Bytes) (chain : List Certificate)
    (cert : Certificate)
    → hi * 256 + lo ≤ length rest
    → x.parse_certificate (take (hi * 256 + lo) rest) ≡ inr cert
    → parse_records x (suc fuel) position (hi ∷ lo ∷ rest) chain
      ≡ parse_records x fuel
          (position + 2 + (hi * 256 + lo))
          (drop (hi * 256 + lo) rest)
          (chain ++ cert ∷ [])
unfolding parse_records
parse_records_step x fuel position hi lo rest chain cert fits p =
    elim (Bool-cases (ltb (length rest) (hi * 256 + lo))) [
      | inl short ↦ absurd (ground arith)
      | inr whole ↦ rw (whole, p) refl
    ]

parse_records-records :
    (x : Certificates) (ders : List Bytes) (certs : List Certificate) (fuel position : ℕ)
    (chain : List Certificate)
    → Holds x ders certs
    → length (records ders) ≤ fuel
    → parse_records x fuel position (records ders) chain ≡ ok (chain ++ certs)
parse_records-records x [] [] fuel position chain h enough =
    rw append-nil (unfold parse_records in refl)
parse_records-records x (der ∷ ders) (cert ∷ certs) zero position chain h enough =
    absurd (omega arith)
parse_records-records x (der ∷ ders) (cert ∷ certs) (suc fuel) position chain (fits, p, h) enough =
    let n : length der / 256 * 256 + length der % 256 ≡ length der = omega arith in
    let one : parse_records x (suc fuel) position (framed der ++ records ders) chain
        ≡ parse_records x fuel (position + 2 + length der) (records ders) (chain ++ cert ∷ []) =
      rw (n, drop-append) at
        (parse_records_step x fuel position (length der / 256) (length der % 256)
          (der ++ records ders) chain cert (rw (n, length-append) (omega arith))
          (rw (n, take-append) p)) in
    one
    ∙ parse_records-records x ders certs fuel (position + 2 + length der) (chain ++ cert ∷ []) h
        (omega (arith, length-append der (records ders)))
    ∙ ap ok (append_assoc chain (cert ∷ []) certs)
parse_records-records x [] (cert ∷ certs) fuel position chain h enough = absurd h
parse_records-records x (der ∷ ders) [] fuel position chain h enough = absurd h

-- What a round that went well did.
parse_records_round :
    (x : Certificates) (fuel position hi lo : ℕ) (rest : Bytes) (chain out : List Certificate)
    → parse_records x (suc fuel) position (hi ∷ lo ∷ rest) chain ≡ ok out
    → (cert : Certificate) × (hi * 256 + lo ≤ length rest)
      × (x.parse_certificate (take (hi * 256 + lo) rest) ≡ inr cert)
      × (parse_records x fuel
            (position + 2 + (hi * 256 + lo))
            (drop (hi * 256 + lo) rest)
            (chain ++ cert ∷ [])
          ≡ ok out)
unfolding parse_records
parse_records_round x fuel position hi lo rest chain out e =
    elim (Bool-cases (ltb (length rest) (hi * 256 + lo))) [
      | inl short ↦ absurd (ground arith)
      | inr whole ↦
          let (cert, p, e) =
            >>=-went_well
              (wrap (text "parse cert " ++ decimal (length chain))
                (x.parse_certificate (take (hi * 256 + lo) rest)))
              (λ cert.
                parse_records x fuel (position + 2 + (hi * 256 + lo)) (drop (hi * 256 + lo) rest)
                  (chain ++ cert ∷ []))
              (rw whole at e) in
          (cert, ground arith, wrap-eq-ok (text "parse cert " ++ decimal (length chain)) _ p, e)
    ]

-- A record that was read is the record of its certificate.
framed-take :
    (hi lo : ℕ) (rest : Bytes)
    → hi < 256
    → lo < 256
    → hi * 256 + lo ≤ length rest
    → hi ∷ lo ∷ rest ≡ framed (take (hi * 256 + lo) rest) ++ drop (hi * 256 + lo) rest
framed-take hi lo rest h l fits =
    let n : length (take (hi * 256 + lo) rest) ≡ hi * 256 + lo =
      omega (arith, length-take (hi * 256 + lo) rest) in
    let a : hi ≡ (hi * 256 + lo) / 256 = omega arith in
    let b : lo ≡ (hi * 256 + lo) % 256 = omega arith in
    rw n (
      ap₂ (λ (p q : ℕ). p ∷ q ∷ rest) a b
      ∙ ap (λ (t : Bytes). (hi * 256 + lo) / 256 ∷ (hi * 256 + lo) % 256 ∷ t)
          (sym (take-append-drop (hi * 256 + lo) rest)))

drop-IsBytes : (n : ℕ) (b : Bytes) → IsBytes b → IsBytes (drop n b)
drop-IsBytes zero b h = h
drop-IsBytes (suc n) [] h = h
drop-IsBytes (suc n) (x ∷ b) h = drop-IsBytes n b h.1

-- What was read before it stands in front.
pub record ReadAs (x : Certificates) (raw : Bytes) (chain out : List Certificate) : Type 0 where
  pub ders : List Bytes
  pub certs : List Certificate
  pub is_records : raw ≡ records ders
  pub holds : Holds x ders certs
  pub grows : out ≡ chain ++ certs

parse_records-ReadAs :
    (x : Certificates) (fuel position : ℕ) (raw : Bytes) (chain out : List Certificate)
    → IsBytes raw
    → parse_records x fuel position raw chain ≡ ok out
    → ReadAs x raw chain out
parse_records-ReadAs x fuel position [] chain out bytes e = record {
  ders = [];
  certs = [];
  is_records = refl;
  holds = tt;
  grows = rw append-nil (unfold parse_records in cc);
}
parse_records-ReadAs x fuel position (b ∷ []) chain out bytes e = unfold parse_records in cc
parse_records-ReadAs x zero position (hi ∷ lo ∷ rest) chain out bytes e = unfold parse_records in cc
parse_records-ReadAs x (suc fuel) position (hi ∷ lo ∷ rest) chain out (h, (l, bytes)) e =
    let (cert, fits, p, e) = parse_records_round x fuel position hi lo rest chain out e in
    let r =
      parse_records-ReadAs x fuel (position + 2 + (hi * 256 + lo)) (drop (hi * 256 + lo) rest)
        (chain ++ cert ∷ []) out (drop-IsBytes (hi * 256 + lo) rest bytes) e in
    record {
      ders = take (hi * 256 + lo) rest ∷ r.ders;
      certs = cert ∷ r.certs;
      is_records =
          framed-take hi lo rest h l fits
          ∙ ap (λ (t : Bytes). framed (take (hi * 256 + lo) rest) ++ t) r.is_records;
      holds = (omega (arith, length-take (hi * 256 + lo) rest), p, r.holds);
      grows = r.grows ∙ append_assoc chain (cert ∷ []) r.certs;
    }

-- The parser returns a chain exactly when the bytes are records, each a two-byte length and that
-- many bytes, and the chain is their certificates in order.
pub parse-iff_records :
    (x : Certificates) (raw : Bytes) (certs : List Certificate)
    → IsBytes raw
    → (parse_length_prefixed_chain x raw ≡ ok certs)
      ↔ ((ders : List Bytes) × (raw ≡ records ders) × Holds x ders certs)
unfolding parse_length_prefixed_chain
parse-iff_records x raw certs bytes = (
  λ e.
      let r = parse_records-ReadAs x (length raw) 0 raw [] certs bytes e in
      (r.ders, r.is_records, rw (sym r.grows) at r.holds),
  λ (ders, is, h).
      rw is (parse_records-records x ders certs (length (records ders)) 0 [] h (omega arith)),
)
