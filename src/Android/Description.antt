-- ===== src/Android/Description.antt =====
-- `parseKeyDescription` of aka.go and the walks over the authorization lists.
use npvtunnel_creator_server.Base.{
  ℕ, zero, suc, ◌+◌, ◌-◌, ◌/◌, ◌%◌, Bool, true, false, not, ◌&&◌, ◌||◌, List, [], ◌∷◌, ◌++◌, Option,
  none, some, Bytes, Text, text, if◌then◌else◌, ltb, ◌==◌, length, ℤ, pos, negsuc, decimal_int, ◌⊎◌,
  inl, inr,
}
use npvtunnel_creator_server.Base.Results.{Result, ok, err, stuck, ◌>>=◌, wrap, in_context}
use npvtunnel_creator_server.Android.{Asn1, RawValue, KeyDescription, RootOfTrust, AkaParsed}

abbrev pub is_value : ℕ → ℤ → Bool
is_value n (pos m) = m == n
is_value n (negsuc m) = false

abbrev tag_sequence : ℕ
tag_sequence = 16

abbrev tag_set : ℕ
tag_set = 17

abbrev class_universal : ℕ
class_universal = 0

abbrev class_context_specific : ℕ
class_context_specific = 2

abbrev authorization_list_root_of_trust_tag : ℕ
authorization_list_root_of_trust_tag = 704

abbrev authorization_list_attestation_application_id_tag : ℕ
authorization_list_attestation_application_id_tag = 709

abbrev hex_digit : ℕ → ℕ
hex_digit n = if ltb n 10 then n + b'0' else n - 10 + b'a'

-- `hex.EncodeToString`
unfoldable pub hex_encode : Bytes → Text
hex_encode [] = []
hex_encode (b ∷ bs) = hex_digit (b / 16) ∷ hex_digit (b % 16) ∷ hex_encode bs

abbrev pub Packages : Type 0
Packages = List Text × List Text

abbrev pub sequence_of : Text ⊎ (RawValue × Bytes) → Result RawValue
sequence_of (inl e) = err (text "malformed AttestationApplicationId sequence")
sequence_of (inr (v, rest)) =
    if not (length rest == 0) || not (is_value tag_sequence v.tag)
    then err (text "malformed AttestationApplicationId sequence")
    else ok v

-- The set, with the bytes behind it.
abbrev pub set_of : Text → Text ⊎ (RawValue × Bytes) → Result (RawValue × Bytes)
set_of message (inl e) = err message
set_of message (inr (v, rest)) = if is_value tag_set v.tag then ok (v, rest) else err message

-- What an element of a list carries: the caller's entry, if it has the caller's tag.
abbrev pub is_entry : ℕ → RawValue → Bool
is_entry tag elem = is_value class_context_specific elem.class && is_value tag elem.tag

abbrev pub is_sequence : RawValue → Bool
is_sequence v = is_value tag_sequence v.tag && is_value class_universal v.class

-- A value that is no SEQUENCE: absent, or an error.
abbrev pub absent_or : {A : Type 0} → Text → Option Bytes → Result (Option A)
absent_or message none = ok none
absent_or message (some b) = err message

abbrev pub packages_of : Option Packages → Packages
packages_of none = ([], [])
packages_of (some p) = p

-- The fields of `parsed` that a RootOfTrust sets, and their zero values.
abbrev pub boot_of : Option RootOfTrust → Bool × ℤ × Bool
boot_of none = (false, pos 0, false)
boot_of (some r) = (true, r.verified_boot_state, r.device_locked)

abbrev pub gather : KeyDescription → Option Packages → Option RootOfTrust → AkaParsed
gather kd app rot = record {
  security_level = kd.attestation_security_level;
  challenge = kd.attestation_challenge;
  root_of_trust_present = (boot_of rot).0;
  verified_boot_state = (boot_of rot).1;
  device_locked = (boot_of rot).2;
  package_names = (packages_of app).0;
  signing_cert_digests = (packages_of app).1;
}

abbrev pub whole : KeyDescription × Bytes → Result KeyDescription
whole (kd, rest) =
    if not (length rest == 0) then err (text "trailing bytes after KeyDescription") else ok kd

-- A loop over what `asn1.Unmarshal` leaves, with what each value adds to the list.
unfoldable pub collect :
    {A : Type 0}
    → (Bytes → Text ⊎ (A × Bytes))
    → Text
    → (A → Text)
    → ℕ
    → Bytes
    → List Text
    → Result (List Text)
collect unmarshal context read fuel [] out = ok out
collect unmarshal context read zero (b ∷ bs) out = stuck
collect unmarshal context read (suc fuel) (b ∷ bs) out = wrap context (unmarshal (b ∷ bs)) >>= λ p.
    collect unmarshal context read fuel p.1 (out ++ read p.0 ∷ [])

module _ (asn1 : Asn1) where
  unfoldable pub parse_attestation_application_id : Bytes → Result Packages
  parse_attestation_application_id encoded = do
    sequence ← sequence_of (asn1.raw_value encoded)
    (package_set, rest) ← set_of (text "malformed packageInfos set") (asn1.raw_value sequence.bytes)
    (digest_set, _) ← set_of (text "malformed signatureDigests set") (asn1.raw_value rest)
    packages ←
        collect asn1.package_info (text "decode package info") (λ i. i.package_name)
          (length package_set.bytes) package_set.bytes []
    digests ←
        collect asn1.octets (text "decode signing digest") hex_encode (length digest_set.bytes)
          digest_set.bytes []
    ok (packages, digests)

  -- The loop over the elements that both walks make: the first with the tag is decoded.
  unfoldable pub walk : {A : Type 0} → ℕ → (Bytes → Result A) → ℕ → Bytes → Result (Option A)
  walk tag decode fuel [] = ok none
  walk tag decode zero (b ∷ bs) = stuck
  walk tag decode (suc fuel) (b ∷ bs) =
      wrap (text "iterate AuthorizationList") (asn1.raw_value (b ∷ bs)) >>= λ p.
      let next = walk tag decode fuel p.1 in
      if is_entry tag p.0 then (decode p.0.bytes >>= λ a. ok (some a)) else next

  abbrev pub application_id : Bytes → Result Packages
  application_id bytes = do
    (encoded, _) ← wrap (text "decode attestationApplicationId octets") (asn1.octets bytes)
    parse_attestation_application_id encoded

  unfoldable pub find_attestation_application_id : RawValue → Result (Option Packages)
  find_attestation_application_id auth_list =
      if not (is_sequence auth_list)
      then absent_or (text "expected software AuthorizationList SEQUENCE") auth_list.full_bytes
      else walk authorization_list_attestation_application_id_tag application_id
          (length auth_list.bytes) auth_list.bytes

  abbrev pub root_of_trust : Bytes → Result RootOfTrust
  root_of_trust bytes = wrap (text "decode RootOfTrust") (asn1.root_of_trust bytes) >>= λ p. ok p.0

  unfoldable pub find_root_of_trust : RawValue → Result (Option RootOfTrust)
  find_root_of_trust auth_list =
      if not (is_sequence auth_list)
      then absent_or
          (text "expected AuthorizationList SEQUENCE, got tag="
            ++ decimal_int auth_list.tag
            ++ text " class="
            ++ decimal_int auth_list.class)
          auth_list.full_bytes
      else walk authorization_list_root_of_trust_tag root_of_trust (length auth_list.bytes)
          auth_list.bytes

  unfoldable pub parse_key_description : Bytes → Result AkaParsed
  parse_key_description ext_bytes = do
    decoded ← wrap (text "unmarshal KeyDescription") (asn1.key_description ext_bytes)
    kd ← whole decoded
    app ←
        in_context (text "walk softwareEnforced")
          (find_attestation_application_id kd.software_enforced)
    rot ← in_context (text "walk teeEnforced") (find_root_of_trust kd.tee_enforced)
    ok (gather kd app rot)
