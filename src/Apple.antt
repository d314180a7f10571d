-- ===== src/Apple.antt =====
-- app_attest.go: the verifier of Apple App Attest objects. CBOR, SHA-256 and the coordinates of an
-- elliptic-curve key are an argument (`AppAttestOps`); certificates and ASN.1 are aka.go's.
pub mod Compare
pub mod AuthData
pub mod Slices
pub mod Layout
pub mod Verify
pub mod Bound
pub mod Trust
pub mod Verdicts
pub mod Device
pub mod Ends
use npvtunnel_creator_server.Base.{ℕ, List, Bytes, Text, ◌⊎◌}

-- `appAttestObject` with its `appAttestStmt`; the receipt is never read.
pub record AppAttestObject : Type 0 where
  pub fmt : Text
  pub x5c : List Bytes
  pub receipt : Bytes
  pub auth_data : Bytes

-- What the code reads of an `ecdsa.PublicKey`: the curve's size and the coordinates, in big-endian
-- bytes without leading zeros, as `big.Int` writes them.
pub record EcPoint : Type 0 where
  pub bit_size : ℕ
  pub x : Bytes
  pub y : Bytes

-- `cbor.Unmarshal` into the object, `sha256.Sum256`, and the point of a certificate's key.
pub record AppAttestOps : Type 0 where
  pub unmarshal : Bytes → Text ⊎ AppAttestObject
  pub sha256 : Bytes → Bytes
  pub point : Bytes → EcPoint

pub record AppAttestAuthData : Type 0 where
  pub rp_id_hash : Bytes
  pub flags : ℕ
  pub sign_counter : ℕ
  pub aaguid : Bytes
  pub credential_id : Bytes
