-- ===== src/Types/Address.antt =====
-- `Address` of crates/core/src/types.rs, and the mapper of crates/core/src/mapper.rs.
use morpheum_signing.Common.{String, Bytes, as_bytes, Result, ok}
use morpheum_signing.Error.{SigningError}
use morpheum_signing.Primitives.{Primitives}

-- `AccountId([u8; 32])`
pub record AccountId : Type 0 where
  pub id : Bytes

pub data Address : Type 0 where
  native : String → Address
  evm : Bytes → Address
  solana : Bytes → Address
  bitcoin : String → Address
  agent : String → Address

-- the bytes that are hashed
unfoldable pub hashed_bytes : Address → Bytes
hashed_bytes (native s) = as_bytes s
hashed_bytes (bitcoin s) = as_bytes s
hashed_bytes (agent s) = as_bytes s
hashed_bytes (evm bytes) = bytes
hashed_bytes (solana bytes) = bytes

module _ (p : Primitives) where
  unfoldable pub to_account_id : Address → AccountId
  unfolding hashed_bytes
  to_account_id a = record { id = p.sha256 (hashed_bytes a) }

  -- `DefaultAddressMapper::to_account_id`, and `map_to_account_id` of the extension trait
  unfoldable pub map_to_account_id : Address → Result SigningError AccountId
  map_to_account_id a = ok (to_account_id a)

-- `AddressMapper`, and its default
pub record AddressMapper : Type 0 where
  pub to_account_id : Address → Result SigningError AccountId
  pub name : String

unfoldable pub default_address_mapper : Primitives → AddressMapper
unfolding map_to_account_id
default_address_mapper p = record {
  to_account_id = map_to_account_id p;
  name = "default_blake3_mapper";
}
