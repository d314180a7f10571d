-- ===== src/Lib.antt =====
-- The issuer of NPV tunnel configs: a server that hands encrypted configs to devices. A device asks
-- for a config (`POST /v1/issue`) with a request signed by its key and, where the config's policy
-- wants it, an attestation; or it redeems a share link (`POST /v1/redeem`) for an envelope that
-- names the config. Both handlers first look whether the creator has changed a file, and pass a
-- rate limiter; the issue handler adds a replay cache and an attestation challenge.
--
-- The files and the code they are about (Go sources in the repository's root):
--   Base         native numbers, texts as bytes and their runes, maps as association lists, Go's `int`
--   Base64       encoding/base64 as crypto.go sets it up
--   RateLimit    ratelimit.go: `Allow`, `Sweep`, `Size`
--   Replay       attestation_challenge.go: `replayCache`
--   Challenge    attestation_challenge.go: `attestationChallengeManager`; server.go:
--                `handleAttestationChallenge`
--   Envelope     envelope.go: `encodeEnvelopeWire`, `buildSignedRange`, `decodeEnvelopeWire`
--   Policy       policy.go, verifier.go: `evaluateAttestationPolicy` and what it calls
--   Tokens       state.go: the redemption tokens, in memory and on disk; management.go: `tokenStatus`
--   Configs      state.go: `loadConfigsFile`, `ReloadConfigsIfChanged`; policy.go: `resolveConfigTtl`
--   Signing      crypto.go, types.go: the request, its signature, the receipt
--   Issue        server.go: `handleIssue`, over Configs, Signing, Replay, Challenge, RateLimit, Policy
--   InFlight     server.go: `limitInFlight`
--   ClientIp     redeem.go: `clientIP`, `ipInAny`
--   ShareLink    share_link.go: `newShareLink`, `joinShareLink`, over Tokens
--   Redeem       redeem.go: `handleRedeem`, over Tokens, Configs, ClientIp, RateLimit
--   Canonical    canonical_json.go: `canonicalJSON`
--   Minting      envelope.go: `mintIssuerEnvelope`, over Envelope, Canonical and Signing
--   Android      aka.go: the verifier of Android key-attestation chains, over Signing and Policy
--   Apple        app_attest.go: the verifier of App Attest objects, over Android and Policy
--   Editing      configedit.go, menu.go, management.go: the dashboard's edits of configs.json, over
--                Configs
--   Service      service.go: the systemd unit, rendered, read back and repaired
--   Tests        runs of the definitions at concrete inputs
--
-- A method with a receiver is a function from the object's record to the new record and the
-- result; the mutexes make each such call one step, and a history is a list of them. A handler is
-- one function over the records it touches; a helper `after_x` is the code that follows the call of
-- `x`. Clock readings, random bytes and the fate of file operations are arguments. A Go error or an
-- HTTP reply is a value of a data type. The recursions are structural, but for the loops of the
-- two verifiers: these have the length of their bytes as fuel, which `verify-ne-stuck` and
-- `verify_with_app_id-ne-stuck` show to be enough.
--
-- Arguments that stand for libraries: Unicode functions of package strings (`TextOps`), package net
-- (`Addresses`), elliptic curves (`Crypto`), the parse and format of times, what kind of JSON
-- value a text is, ciphers, hashes and ECDH (`Ciphers`) with the random draws (`Draws`); for the
-- verifiers X.509 (`Certificates`), ASN.1 (`Asn1`), and CBOR with SHA-256 (`AppAttestOps`). To the
-- policy the two attestation verifiers are arguments (`Verifiers`), and so is the minting of one
-- envelope to the redeem handler; Android.Device and Apple.Device put the two verifiers in their
-- place. Not modelled are key and salt files, the dashboard's forms, its imports and its lists
-- (menu.go, management.go and configedit.go but for what Editing, Minting and Tokens have; setup.go),
-- the calls of systemctl (service.go), lifecycle.go, backup.go, atomicfile.go, the log lines
-- (audit.go), main.go, and the shell scripts.
pub mod Base
pub mod Base64
pub mod RateLimit
pub mod Replay
pub mod Challenge
pub mod Envelope
pub mod Policy
pub mod Tokens
pub mod Configs
pub mod Signing
pub mod Issue
pub mod InFlight
pub mod ClientIp
pub mod ShareLink
pub mod Redeem
pub mod Canonical
pub mod Minting
pub mod Android
pub mod Apple
pub mod Editing
pub mod Service
pub mod Tests
