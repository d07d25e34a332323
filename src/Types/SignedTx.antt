-- ===== src/Types/SignedTx.antt =====
-- `SignedTx` and `SigningOptions` of crates/core/src/types.rs.
use morpheum_signing.Common.{
  ℕ, String, Bool, false, Option, none, some, [], Bytes, Result, ok, map_err, ◌>>=◌,
}
use morpheum_signing.Proto.{Any, Tx, TxRaw}
use morpheum_signing.Error.{SigningError, proto_decode}
use morpheum_signing.Primitives.{Primitives, Codec}

pub record SignedTx : Type 0 where
  pub tx : Tx
  pub raw_bytes : Bytes
  pub tx_raw : Option TxRaw

pub record SigningOptions : Type 0 where
  pub deadline_seconds : Option ℕ
  pub memo : Option String
  pub include_timestamp : Bool

abbrev pub default_options : SigningOptions
default_options = record { deadline_seconds = none; memo = none; include_timestamp = false }

-- `.as_ref().map(|m| m.encode_to_vec()).unwrap_or_default()`
abbrev pub encode_or_empty : {A : Type 0} → Codec A → Option A → Bytes
encode_or_empty c none = []
encode_or_empty c (some a) = c.encode a

-- `IntoAny::into_any` of a message with its type URL
unfoldable pub into_any : {A : Type 0} → String → Codec A → A → Any
into_any type_url c m = record { type_url = type_url; value = c.encode m }

module _ (p : Primitives) where
  unfoldable pub decode : Bytes → Result SigningError SignedTx
  decode raw = do
    tx ← map_err proto_decode (p.tx_codec.decode raw)
    ok (record {
      tx = tx;
      raw_bytes = raw;
      tx_raw = some (record {
        body_bytes = encode_or_empty p.body_codec tx.body;
        auth_info_bytes = encode_or_empty p.auth_info_codec tx.auth_info;
        signatures = tx.signatures;
      });
    })

  unfoldable pub txhash_hex : SignedTx → String
  txhash_hex s = p.hex_encode (p.sha256 s.raw_bytes)
