-- ===== src/Editing/Entries.antt =====
-- The entries that the dashboard writes pass the checks of `loadConfigsFile`.
use npvtunnel_creator_server.Base.{
  ◌≡◌, ◌≢◌, refl, ap, true, false, [], ◌∷◌, none, some, Bytes, Text, str_eq, length, lookup, ◌==◌,
  arith, Bool-cases, inl, inr,
}
use npvtunnel_creator_server.Base64.{encode_to_string, decode_string, values, regroup}
use npvtunnel_creator_server.Base64.RoundTrip.{IsBytes, decode-encode}
use npvtunnel_creator_server.Policy.{valid_attestation_mode}
use npvtunnel_creator_server.Policy.Device.{strict_device_attestation_policy}
use npvtunnel_creator_server.Configs.{
  JsonShape, fits_map, ConfigEntry, check_entry, check_decoded, check_policy, check_ttl,
}
use npvtunnel_creator_server.Editing.{RegistrationPolicy, register_again, device_policy, new_entry}
use npvtunnel_creator_server.Editing.Accepted.{Passes}

-- A body that the server takes; what a registration export brings is one.
abbrev pub IsBody : (Bytes → JsonShape) → Bytes → Type 0
IsBody json_shape body = (body ≢ []) × (fits_map (json_shape body) ≡ true)

device_policy-checks : (policy : RegistrationPolicy) → check_policy (device_policy policy) ≡ none
unfolding check_policy strict_device_attestation_policy valid_attestation_mode str_eq
device_policy-checks policy = elim (Bool-cases policy.block_rooted) [
  | inl blocks ↦ rw blocks refl
  | inr allows ↦ rw allows refl
]

given_body : (body : Bytes) → body ≢ [] → (length body == 0) ≡ false
given_body [] n = absurd (n refl)
given_body (b ∷ body) n = ground arith

not_empty :
    (bytes : Bytes) (t : Text)
    → decode_string t ≡ some bytes
    → length bytes ≡ 16
    → str_eq t [] ≡ false
unfolding decode_string values regroup str_eq
not_empty bytes [] h l =
    let nothing : bytes ≡ [] = cc h in
    absurd (omega (arith, l, ap (λ (b : Bytes). length b) nothing))
not_empty bytes (c ∷ t) h l = refl

module _ (json_shape : Bytes → JsonShape) where
  all_checks :
      (e : ConfigEntry)
      → str_eq e.config_id [] ≡ false
      → check_decoded (decode_string e.config_id) ≡ none
      → IsBody json_shape e.config
      → check_policy e.attestation_policy ≡ none
      → check_ttl e.config_ttl_sec ≡ none
      → Passes json_shape e
  unfolding check_entry lookup
  all_checks e named decodes (given, object) policy ttl =
      rw (named, decodes, given_body e.config given, object, policy, ttl) refl

  id_and_ttl :
      (e : ConfigEntry)
      → Passes json_shape e
      → (str_eq e.config_id [] ≡ false)
        × (check_decoded (decode_string e.config_id) ≡ none)
        × (check_ttl e.config_ttl_sec ≡ none)
  unfolding check_entry lookup
  id_and_ttl e p = (ground arith, ground arith, ground arith)

  pub renamed-Passes :
      (value : Text) (e : ConfigEntry)
      → Passes json_shape e
      → Passes json_shape (record e { display_name = value })
  unfolding check_entry
  renamed-Passes value e p = p

  pub register_again-Passes :
      (body : Bytes) (policy : RegistrationPolicy) (e : ConfigEntry)
      → IsBody json_shape body
      → Passes json_shape e
      → Passes json_shape (register_again body policy e)
  register_again-Passes body policy e b p =
      let (named, decodes, ttl) = id_and_ttl e p in
      all_checks (register_again body policy e) named decodes b (device_policy-checks policy) ttl

  pub new_entry-Passes :
      (bytes body : Bytes) (rp : RegistrationPolicy)
      → IsBytes bytes
      → length bytes ≡ 16
      → IsBody json_shape body
      → Passes json_shape (new_entry (encode_to_string bytes) body rp)
  unfolding check_ttl
  new_entry-Passes bytes body rp is_bytes l b =
      all_checks (new_entry (encode_to_string bytes) body rp)
        (not_empty bytes (encode_to_string bytes) (decode-encode bytes is_bytes) l)
        (rw (decode-encode bytes is_bytes, l) refl) b (device_policy-checks rp) refl
