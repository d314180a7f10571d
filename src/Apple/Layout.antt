-- ===== src/Apple/Layout.antt =====
-- `parseAppAttestAuthData` of app_attest.go against the layout of authenticator data.
use Prim.Native.Nat.{bit_and}
use mathlib.Core.Path.{subst}
use npvtunnel_creator_server.Base.{
  ℕ, ◌+◌, ◌*◌, ◌≤◌, ◌≡◌, ◌≢◌, ◌↔◌, refl, sym, ap, ◌∙◌, false, ◌==◌, [], ◌∷◌, ◌++◌, Bytes, ltb,
  length, take, drop, length-append, length-take, length-drop, take-append-drop, Bool-cases, inl,
  inr, arith,
}
use npvtunnel_creator_server.Base.Results.{ok}
use npvtunnel_creator_server.Apple.{AppAttestAuthData}
use npvtunnel_creator_server.Apple.Slices.{read, parse-fits, parse-fits_only, at_least, take_all}
use npvtunnel_creator_server.Apple.AuthData.{checked, parse_app_attest_auth_data}

-- The app's hash, the flags, a counter of four zeros, the AAGUID, and a credential's identifier with
-- its length in front; any bytes may follow. The flags have the bit 0x40.
pub record LaidOut (raw : Bytes) (ad : AppAttestAuthData) : Type 0 where
  pub hi : ℕ
  pub lo : ℕ
  pub rest : Bytes
  pub bytes :
      raw
      ≡ ad.rp_id_hash
        ++ (ad.flags ∷ 0 ∷ 0 ∷ 0 ∷ 0 ∷ ad.aaguid ++ (hi ∷ lo ∷ ad.credential_id ++ rest))
  pub hash_length : length ad.rp_id_hash ≡ 32
  pub aaguid_length : length ad.aaguid ≡ 16
  pub id_length : length ad.credential_id ≡ hi * 256 + lo
  pub attested : bit_and ad.flags 0x40 ≢ 0
  pub initial : ad.sign_counter ≡ 0

checked-ok :
    (ad out : AppAttestAuthData)
    → checked ad ≡ ok out
    → (bit_and ad.flags 0x40 ≢ 0) × (ad.sign_counter ≡ 0) × (ad ≡ out)
checked-ok ad out e = elim (Bool-cases (bit_and ad.flags 0x40 == 0)) [
  | inl unset ↦ absurd (cc (rw unset at e))
  | inr set ↦ elim (Bool-cases (ad.sign_counter == 0)) [
    | inr later ↦ absurd (cc (rw (set, later) at e))
    | inl first ↦ (λ z. ground arith, ground arith, cc (rw (set, first) at e))
  ]
]

five_bytes :
    (x : Bytes)
    → 5 ≤ length x
    → (f : ℕ) × (c1 : ℕ) × (c2 : ℕ) × (c3 : ℕ) × (c4 : ℕ) × (w : Bytes) × (x
        ≡ f ∷ c1 ∷ c2 ∷ c3 ∷ c4 ∷ w)
five_bytes (f ∷ c1 ∷ c2 ∷ c3 ∷ c4 ∷ w) h = (f, c1, c2, c3, c4, w, refl)
five_bytes [] h = absurd (omega arith)
five_bytes (_ ∷ []) h = absurd (omega arith)
five_bytes (_ ∷ _ ∷ []) h = absurd (omega arith)
five_bytes (_ ∷ _ ∷ _ ∷ []) h = absurd (omega arith)
five_bytes (_ ∷ _ ∷ _ ∷ _ ∷ []) h = absurd (omega arith)

two_more : (y : Bytes) → 2 ≤ length y → (hi : ℕ) × (lo : ℕ) × (z : Bytes) × (y ≡ hi ∷ lo ∷ z)
two_more (hi ∷ lo ∷ z) h = (hi, lo, z, refl)
two_more [] h = absurd (omega arith)
two_more (_ ∷ []) h = absurd (omega arith)

long_enough :
    (raw : Bytes) (ad : AppAttestAuthData)
    → parse_app_attest_auth_data raw ≡ ok ad
    → 55 ≤ length raw
unfolding parse_app_attest_auth_data
long_enough raw ad e = elim (Bool-cases (ltb (length raw) 55)) [
  | inl short ↦ absurd (cc (rw short at e))
  | inr long ↦ at_least (length raw) 55 long
]

-- Bytes of at least 55 fall into the parts, whatever these say.
in_parts :
    (raw : Bytes)
    → 55 ≤ length raw
    → (rp : Bytes) × (aa : Bytes) × (z : Bytes) × (f : ℕ) × (c1 : ℕ) × (c2 : ℕ) × (c3 : ℕ)
      × (c4 : ℕ) × (hi : ℕ) × (lo : ℕ) × (length rp ≡ 32)
      × (length aa ≡ 16)
      × (raw ≡ rp ++ (f ∷ c1 ∷ c2 ∷ c3 ∷ c4 ∷ aa ++ hi ∷ lo ∷ z))
in_parts raw h =
    let (f, c1, c2, c3, c4, w, x) = five_bytes (drop 32 raw) (omega (arith, length-drop 32 raw)) in
    let w_18 : 18 ≤ length w = omega (arith, length-drop 32 raw, ap (λ (x : Bytes). length x) x) in
    let (hi, lo, z, y) = two_more (drop 16 w) (omega (arith, length-drop 16 w)) in
    (
      take 32 raw,
      take 16 w,
      z,
      f,
      c1,
      c2,
      c3,
      c4,
      hi,
      lo,
      omega (arith, length-take 32 raw),
      omega (arith, length-take 16 w),
      sym (take-append-drop 32 raw)
          ∙ ap (λ (x : Bytes). take 32 raw ++ x)
              (x
                ∙ ap (λ (w : Bytes). f ∷ c1 ∷ c2 ∷ c3 ∷ c4 ∷ w)
                    (sym (take-append-drop 16 w) ∙ ap (λ (y : Bytes). take 16 w ++ y) y)),
    )

-- A reading that passes the checks is the parts'.
read-LaidOut :
    (rp aa z : Bytes) (f c1 c2 c3 c4 hi lo : ℕ) (ad : AppAttestAuthData)
    → length rp ≡ 32
    → length aa ≡ 16
    → hi * 256 + lo ≤ length z
    → checked (read rp aa z f c1 c2 c3 c4 hi lo) ≡ ok ad
    → LaidOut (rp ++ (f ∷ c1 ∷ c2 ∷ c3 ∷ c4 ∷ aa ++ hi ∷ lo ∷ z)) ad
read-LaidOut rp aa z f c1 c2 c3 c4 hi lo ad rp_32 aa_16 fits e =
    let (attested, initial, same) = checked-ok (read rp aa z f c1 c2 c3 c4 hi lo) ad e in
    let zero_1 : c1 ≡ 0 = omega arith in
    let zero_2 : c2 ≡ 0 = omega arith in
    let zero_3 : c3 ≡ 0 = omega arith in
    let zero_4 : c4 ≡ 0 = omega arith in
    subst (λ out. LaidOut (rp ++ (f ∷ c1 ∷ c2 ∷ c3 ∷ c4 ∷ aa ++ hi ∷ lo ∷ z)) out) same
      (record {
        hi = hi;
        lo = lo;
        rest = drop (hi * 256 + lo) z;
        bytes = rw (zero_1, zero_2, zero_3, zero_4, take-append-drop (hi * 256 + lo) z) refl;
        hash_length = rp_32;
        aaguid_length = aa_16;
        id_length = omega (arith, length-take (hi * 256 + lo) z);
        attested = attested;
        initial = initial;
      })

parse-LaidOut :
    (raw : Bytes) (ad : AppAttestAuthData) → parse_app_attest_auth_data raw ≡ ok ad → LaidOut raw ad
parse-LaidOut raw ad e =
    let (rp, aa, z, f, c1, c2, c3, c4, hi, lo, rp_32, aa_16, shape) =
      in_parts raw (long_enough raw ad e) in
    let e = ap parse_app_attest_auth_data (sym shape) ∙ e in
    let fits = parse-fits_only rp aa z f c1 c2 c3 c4 hi lo rp_32 aa_16 ad e in
    subst (λ bytes. LaidOut bytes ad) (sym shape)
      (read-LaidOut rp aa z f c1 c2 c3 c4 hi lo ad rp_32 aa_16 fits
        (sym (parse-fits rp aa z f c1 c2 c3 c4 hi lo rp_32 aa_16 fits) ∙ e))

LaidOut-parse :
    (raw : Bytes) (ad : AppAttestAuthData) → LaidOut raw ad → parse_app_attest_auth_data raw ≡ ok ad
LaidOut-parse raw ad l =
    let z = ad.credential_id ++ l.rest in
    let id : take (l.hi * 256 + l.lo) z ≡ ad.credential_id =
      take_all (l.hi * 256 + l.lo) ad.credential_id l.rest l.id_length in
    let set : (bit_and ad.flags 0x40 == 0) ≡ false = ground arith in
    ap parse_app_attest_auth_data l.bytes
    ∙ parse-fits ad.rp_id_hash ad.aaguid z ad.flags 0 0 0 0 l.hi l.lo l.hash_length l.aaguid_length
        (omega (arith, length-append ad.credential_id l.rest, l.id_length))
    ∙ rw (set, id) (ap (λ n. ok (record ad { sign_counter = n })) (sym l.initial))

-- Authenticator data parses exactly if it is laid out as the format says, with the flag for attested
-- data set and a counter of zero, and the result is its parts.
pub parse-iff_LaidOut :
    (raw : Bytes) (ad : AppAttestAuthData)
    → (parse_app_attest_auth_data raw ≡ ok ad) ↔ LaidOut raw ad
parse-iff_LaidOut raw ad = (parse-LaidOut raw ad, LaidOut-parse raw ad)
