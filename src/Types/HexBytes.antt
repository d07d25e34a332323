-- ===== src/Types/HexBytes.antt =====
-- `hex_bytes` of crates/core/src/types.rs: how arrays are written in the serde formats.
use morpheum_signing.Common.{
  ℕ, ◌≡◌, ◌↔◌, String, Bytes, length, try_into, Result, ok, ok_or, ◌>>=◌, arith,
}
use morpheum_signing.Primitives.{Primitives}

module _ (p : Primitives) where
  -- the text that is serialized
  unfoldable pub hex_serialize : Bytes → String
  hex_serialize bytes = p.hex_encode bytes

-- `decode` is `hex::decode`, and `n` the length of the array.
unfoldable pub hex_deserialize :
    (String → Result String Bytes) → ℕ → Result String String → Result String Bytes
hex_deserialize decode n text = do
  hex_str ← text
  v ← decode hex_str
  ok_or (try_into n v) "incorrect byte length"

-- What is written is read back exactly into an array of its length, if hex is decoded as it is
-- encoded.
pub hex_deserialize-hex_serialize :
    (p : Primitives) (decode : String → Result String Bytes) (n : ℕ) (bytes : Bytes)
    → decode (p.hex_encode bytes) ≡ ok bytes
    → (hex_deserialize decode n (ok (hex_serialize p bytes)) ≡ ok bytes) ↔ (length bytes ≡ n)
unfolding hex_deserialize hex_serialize
hex_deserialize-hex_serialize p decode n bytes law =
    (λ h. ground (arith, h, law), λ h. ground (arith, h, law))
