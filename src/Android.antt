-- ===== src/Android.antt =====
-- aka.go: the verifier of Android key-attestation chains. X.509 and ASN.1 are arguments
-- (`Certificates`, `Asn1`): the certificate as crypto/x509 parses it, its signature and path
-- checks, and `asn1.Unmarshal` at each type the code decodes.
pub mod Chain
pub mod Description
pub mod Verify
pub mod Links
pub mod Trust
pub mod Records
pub mod Ends
pub mod Device
use npvtunnel_creator_server.Base.{
  ℕ, Bool, List, [], ◌∷◌, Option, Bytes, Text, ◌⊎◌, ℤ, ◌≡◌, ◌<◌, inr, length,
}

pub record Extension : Type 0 where
  pub id : List ℕ
  pub value : Bytes

-- What the code reads of an `x509.Certificate`. The key is there if it is an ECDSA key.
pub record Certificate : Type 0 where
  pub raw : Bytes
  pub extensions : List Extension
  pub public_key : Option Bytes

-- A certificate pool is its certificates. The two checks return their error, if any; `verify` has
-- the roots, the intermediates, the time and the leaf.
pub record Certificates : Type 0 where
  pub parse_certificate : Bytes → Text ⊎ Certificate
  pub check_signature_from : Certificate → Certificate → Option Text
  pub verify : List Certificate → List Certificate → ℕ → Certificate → Option Text

-- `asn1.RawValue`; `full_bytes` may be nil.
pub record RawValue : Type 0 where
  pub class : ℤ
  pub tag : ℤ
  pub bytes : Bytes
  pub full_bytes : Option Bytes

pub record KeyDescription : Type 0 where
  pub attestation_version : ℤ
  pub attestation_security_level : ℤ
  pub keymaster_version : ℤ
  pub keymaster_security_level : ℤ
  pub attestation_challenge : Bytes
  pub unique_id : Bytes
  pub software_enforced : RawValue
  pub tee_enforced : RawValue

pub record RootOfTrust : Type 0 where
  pub verified_boot_key : Bytes
  pub device_locked : Bool
  pub verified_boot_state : ℤ
  pub verified_boot_hash : Bytes

pub record PackageInfo : Type 0 where
  pub package_name : Bytes
  pub version : ℤ

-- `asn1.Unmarshal`: an error, or the value with the bytes behind it.
pub record Asn1 : Type 0 where
  pub key_description : Bytes → Text ⊎ (KeyDescription × Bytes)
  pub raw_value : Bytes → Text ⊎ (RawValue × Bytes)
  pub octets : Bytes → Text ⊎ (Bytes × Bytes)
  pub package_info : Bytes → Text ⊎ (PackageInfo × Bytes)
  pub root_of_trust : Bytes → Text ⊎ (RootOfTrust × Bytes)

-- A decoded value takes a byte at least.
abbrev Consumes : {A : Type 0} → (Bytes → Text ⊎ (A × Bytes)) → Type 0
Consumes {A} unmarshal =
    (b : Bytes) (a : A) (rest : Bytes) → unmarshal b ≡ inr (a, rest) → length rest < length b

-- The three decoders that the loops below call.
pub record Advances (asn1 : Asn1) : Type 0 where
  pub raw_value_consumes : Consumes asn1.raw_value
  pub octets_consumes : Consumes asn1.octets
  pub package_info_consumes : Consumes asn1.package_info

-- `akaParsed`
pub record AkaParsed : Type 0 where
  pub security_level : ℤ
  pub challenge : Bytes
  pub root_of_trust_present : Bool
  pub verified_boot_state : ℤ
  pub device_locked : Bool
  pub package_names : List Text
  pub signing_cert_digests : List Text
