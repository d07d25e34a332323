-- ===== src/Types.antt =====
-- crates/core/src/types.rs, and the traits that are no more than its functions: the default mapper
-- of crates/core/src/mapper.rs.
pub mod WalletType
pub mod Address
pub mod PublicKey
pub mod Signature
pub mod Kind
pub mod HexBytes
pub mod SignedTx
