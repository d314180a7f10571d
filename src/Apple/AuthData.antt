-- ===== src/Apple/AuthData.antt =====
-- `parseAppAttestAuthData` and `marshalUncompressed` of app_attest.go.
use Prim.Native.Nat.{bit_and}
use npvtunnel_creator_server.Base.{
  ℕ, ◌+◌, ◌-◌, ◌*◌, ◌/◌, not, [], ◌∷◌, ◌++◌, Bytes, text, if◌then◌else◌, ltb, ◌==◌, length, take,
  drop, decimal,
}
use npvtunnel_creator_server.Base.Results.{Result, ok, err}
use npvtunnel_creator_server.Signing.{zeros}
use npvtunnel_creator_server.Apple.{AppAttestAuthData, EcPoint}

-- `raw[low:high]`
abbrev pub slice : ℕ → ℕ → Bytes → Bytes
slice low high raw = take (high - low) (drop low raw)

-- `binary.BigEndian` on the bytes of a number.
unfoldable pub big_endian_from : ℕ → Bytes → ℕ
big_endian_from n [] = n
big_endian_from n (b ∷ bs) = big_endian_from (n * 256 + b) bs

unfoldable pub big_endian : Bytes → ℕ
big_endian = big_endian_from 0

abbrev pub checked : AppAttestAuthData → Result AppAttestAuthData
checked ad =
    if bit_and ad.flags 0x40 == 0
    then err (text "authData flags missing AT bit (attestation flag)")
    else if not (ad.sign_counter == 0)
    then err (
        text "authData signCounter must be 0 for App Attest attestation, got "
        ++ decimal ad.sign_counter)
    else ok ad

unfoldable pub parse_app_attest_auth_data : Bytes → Result AppAttestAuthData
parse_app_attest_auth_data raw =
    let cred_id_len = big_endian (slice 53 55 raw) in
    if ltb (length raw) 55
    then err (text "authData too short (" ++ decimal (length raw) ++ text " bytes; need >= 55)")
    else if ltb (length raw) (55 + cred_id_len)
    then err (
        text "credentialId truncated: declared "
        ++ decimal cred_id_len
        ++ text " bytes, "
        ++ decimal (length raw - 55)
        ++ text " remaining")
    else checked (record {
      rp_id_hash = take 32 raw;
      flags = big_endian (slice 32 33 raw);
      sign_counter = big_endian (slice 33 37 raw);
      aaguid = slice 37 53 raw;
      credential_id = slice 55 (55 + cred_id_len) raw;
    })

abbrev padded : ℕ → Bytes → Bytes
padded width coordinate = zeros (width - length coordinate) ++ coordinate

-- A coordinate is no longer than the curve's width: it is below the field's size.
unfoldable pub marshal_uncompressed : EcPoint → Bytes
marshal_uncompressed pub_key =
    let curve_byte_size = (pub_key.bit_size + 7) / 8 in
    0x04 ∷ padded curve_byte_size pub_key.x ++ padded curve_byte_size pub_key.y
