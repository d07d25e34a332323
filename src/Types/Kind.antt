-- ===== src/Types/Kind.antt =====
-- Which signature (crates/core/src/types.rs) belongs to a sign mode: the default modes of the wallet
-- types, with the 64 bytes that every signature has.
use morpheum_signing.Common.{◌≡◌, length}
use morpheum_signing.Proto.{SignMode}
use morpheum_signing.Types.Signature.{Signature}

abbrev pub HasKind : SignMode → Signature → Type 0
HasKind SignMode.ed25519 (Signature.ed25519 b) = length b ≡ 64
HasKind SignMode.secp256k1 (Signature.secp256k1 b) = length b ≡ 64
HasKind SignMode.schnorr_aggregate (Signature.schnorr b) = length b ≡ 64
HasKind _ _ = ⊥
