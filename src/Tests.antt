-- ===== src/Tests.antt =====
-- Tests of the definitions, and each theorem that has conditions at an input that meets them.
mod Limits
mod Challenges
mod Frames
mod Policies
mod Redemptions
mod Issuance
mod Links
mod Attested
mod Apple
mod Units
mod Minted
mod Edits
