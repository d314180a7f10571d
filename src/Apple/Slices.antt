-- ===== src/Apple/Slices.antt =====
-- `parseAppAttestAuthData` of app_attest.go on bytes of which the parts are known.
use npvtunnel_creator_server.Base.{
  ℕ, zero, suc, ◌+◌, ◌-◌, ◌*◌, ◌≤◌, ◌≡◌, refl, sym, ap, ◌∙◌, true, false, [], ◌∷◌, ◌++◌, Bytes, ltb,
  ltb→lt, lt→ltb, length, take, drop, length-append, take-append, Bool-cases, inl, inr, arith,
}
use npvtunnel_creator_server.Base.Results.{ok}
use npvtunnel_creator_server.Apple.{AppAttestAuthData}
use npvtunnel_creator_server.Apple.AuthData.{
  slice, big_endian_from, big_endian, checked, parse_app_attest_auth_data,
}

drop-past : (n m : ℕ) (a b : Bytes) → length a ≡ n → drop (n + m) (a ++ b) ≡ drop m b
drop-past zero m [] b h = ap (λ k. drop k b) (omega arith)
drop-past zero m (x ∷ a) b h = absurd (omega arith)
drop-past (suc n) m [] b h = absurd (omega arith)
drop-past (suc n) m (x ∷ a) b h =
    let shift : suc n + m ≡ suc (n + m) = omega arith in
    ap (λ k. drop k (x ∷ a ++ b)) shift ∙ drop-past n m a b (omega arith)

pub take_all : (n : ℕ) (a b : Bytes) → length a ≡ n → take n (a ++ b) ≡ a
take_all n a b h = ap (λ k. take k (a ++ b)) (sym h) ∙ take-append a b

not_below : (a b : ℕ) → b ≤ a → ltb a b ≡ false
not_below a b h = ground arith

pub at_least : (a b : ℕ) → ltb a b ≡ false → b ≤ a
at_least a b h = ground arith

one_byte : (f : ℕ) → big_endian (f ∷ []) ≡ f
unfolding big_endian big_endian_from
one_byte f = omega arith

two_bytes : (hi lo : ℕ) → big_endian (hi ∷ lo ∷ []) ≡ hi * 256 + lo
unfolding big_endian big_endian_from
two_bytes hi lo = omega arith

four_bytes :
    (c1 c2 c3 c4 : ℕ)
    → big_endian (c1 ∷ c2 ∷ c3 ∷ c4 ∷ []) ≡ ((c1 * 256 + c2) * 256 + c3) * 256 + c4
unfolding big_endian big_endian_from
four_bytes c1 c2 c3 c4 = omega arith

module _ (rp aa z : Bytes) (f c1 c2 c3 c4 hi lo : ℕ) where
  abbrev pub from_flags : Bytes
  from_flags = f ∷ c1 ∷ c2 ∷ c3 ∷ c4 ∷ aa ++ hi ∷ lo ∷ z

  abbrev pub read : AppAttestAuthData
  read = record {
    rp_id_hash = rp;
    flags = f;
    sign_counter = ((c1 * 256 + c2) * 256 + c3) * 256 + c4;
    aaguid = aa;
    credential_id = take (hi * 256 + lo) z;
  }

  module _ (rp_32 : length rp ≡ 32) (aa_16 : length aa ≡ 16) where
    parts :
        (slice 32 33 (rp ++ from_flags) ≡ f ∷ [])
        × (slice 33 37 (rp ++ from_flags) ≡ c1 ∷ c2 ∷ c3 ∷ c4 ∷ [])
        × (slice 37 53 (rp ++ from_flags) ≡ aa)
        × (slice 53 55 (rp ++ from_flags) ≡ hi ∷ lo ∷ [])
        × (drop 55 (rp ++ from_flags) ≡ z)
    parts = (
      ap (take 1) (drop-past 32 0 rp from_flags rp_32),
      ap (take 4) (drop-past 32 1 rp from_flags rp_32),
      ap (take 16) (drop-past 32 5 rp from_flags rp_32) ∙ take_all 16 aa (hi ∷ lo ∷ z) aa_16,
      ap (take 2) (drop-past 32 21 rp from_flags rp_32 ∙ drop-past 16 0 aa (hi ∷ lo ∷ z) aa_16),
      drop-past 32 23 rp from_flags rp_32 ∙ drop-past 16 2 aa (hi ∷ lo ∷ z) aa_16,
    )

    length_all : length (rp ++ from_flags) ≡ 55 + length z
    length_all = omega (arith, length-append rp from_flags, length-append aa (hi ∷ lo ∷ z))

    long_enough : ltb (length (rp ++ from_flags)) 55 ≡ false
    long_enough = not_below (length (rp ++ from_flags)) 55 (omega (arith, length_all))

    pub parse-fits :
        hi * 256 + lo ≤ length z → parse_app_attest_auth_data (rp ++ from_flags) ≡ checked read
    unfolding parse_app_attest_auth_data
    parse-fits fits =
        let (flags, counter, aaguid, id_length, id) = parts in
        let id_fits : ltb (length (rp ++ from_flags)) (55 + (hi * 256 + lo)) ≡ false =
          not_below (length (rp ++ from_flags)) (55 + (hi * 256 + lo))
            (omega (arith, length_all)) in
        let width : 55 + (hi * 256 + lo) - 55 ≡ hi * 256 + lo = omega arith in
        rw
          (
            flags,
            counter,
            aaguid,
            id_length,
            id,
            one_byte f,
            two_bytes hi lo,
            four_bytes c1 c2 c3 c4,
            take_all 32 rp from_flags rp_32,
            long_enough,
            id_fits,
            width,
          )
          refl

    pub parse-fits_only :
        (ad : AppAttestAuthData)
        → parse_app_attest_auth_data (rp ++ from_flags) ≡ ok ad
        → hi * 256 + lo ≤ length z
    unfolding parse_app_attest_auth_data
    parse-fits_only ad e = elim (Bool-cases (ltb (length z) (hi * 256 + lo))) [
      | inr fits ↦ at_least (length z) (hi * 256 + lo) fits
      | inl short ↦
          let (_, _, _, id_length, _) = parts in
          let cut_off : ltb (length (rp ++ from_flags)) (55 + (hi * 256 + lo)) ≡ true =
            lt→ltb (length (rp ++ from_flags)) (55 + (hi * 256 + lo))
              (omega (arith, length_all, ltb→lt (length z) (hi * 256 + lo) short)) in
          absurd (cc (rw (id_length, two_bytes hi lo, long_enough, cut_off) at e))
    ]
