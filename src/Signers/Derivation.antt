-- ===== src/Signers/Derivation.antt =====
-- What the two key derivations of crates/native/src/signers share: HMAC-SHA512 (the hmac crate),
-- the two halves of a digest, and the recovery phrase (the bip39 crate).
pub mod Slip0010
pub mod Bip32
pub mod Mnemonic
use morpheum_signing.Common.{
  ℕ, ◌≡◌, ◌≤◌, String, List, [], ◌∷◌, ◌++◌, Bytes, length, take, drop, length-take, length-drop,
  Result, ok, map_err, ◌>>=◌, arith,
}

-- `Hmac<Sha512>`
pub record Hmac : Type 1 where
  pub Mac : Type 0
  pub new_from_slice : Bytes → Result String Mac
  pub update : Mac → Bytes → Mac
  pub finalize : Mac → Bytes

-- `bip39::Mnemonic`
pub record Bip39 : Type 1 where
  pub Mnemonic : Type 0
  pub parse : String → Result String Mnemonic
  pub to_seed : Mnemonic → String → Bytes

module _ (h : Hmac) where
  abbrev pub feed : h.Mac → List Bytes → h.Mac
  feed mac [] = mac
  feed mac (chunk ∷ chunks) = feed (h.update mac chunk) chunks

abbrev pub concat : List Bytes → Bytes
concat [] = []
concat (chunk ∷ chunks) = chunk ++ concat chunks

-- What the hmac crate documents: a key of any length is taken, and the digest of 64 bytes is the
-- function `hmac_sha512` of the key and of the chunks put together.
pub record IsHmac (h : Hmac) (hmac_sha512 : Bytes → Bytes → Bytes) : Type 0 where
  pub start : Bytes → h.Mac
  pub any_key : (key : Bytes) → h.new_from_slice key ≡ ok (start key)
  pub chunked :
      (key : Bytes) (chunks : List Bytes)
      → h.finalize (feed h (start key) chunks) ≡ hmac_sha512 key (concat chunks)
  pub digest_length : (key message : Bytes) → length (hmac_sha512 key message) ≡ 64

-- the two locals `key` and `chain_code`
pub record Node : Type 0 where
  pub key : Bytes
  pub chain_code : Bytes

-- `key.copy_from_slice(&result[..32])` and `chain_code.copy_from_slice(&result[32..])`
unfoldable pub halves : Bytes → Node
halves result = record { key = take 32 result; chain_code = drop 32 result }

unfoldable pub key_creation_failed : String
key_creation_failed = "HMAC key creation failed"

module _ (h : Hmac) where
  -- the digest of chunks, with the `?` on the key
  unfoldable pub digest : Bytes → List Bytes → Result String Bytes
  digest key chunks = do
    mac ← map_err (λ e. key_creation_failed) (h.new_from_slice key)
    ok (h.finalize (feed h mac chunks))

abbrev pub IsSized : Node → Type 0
IsSized node = (length node.key ≡ 32) × (length node.chain_code ≡ 32)

-- The halves of a digest have 32 bytes each.
pub halves-IsSized : (result : Bytes) → length result ≡ 64 → IsSized (halves result)
unfolding halves
halves-IsSized result e = (
  length-take 32 result (omega (arith, e)),
  omega (arith, e, length-drop 32 result (omega (arith, e))),
)

module _ (h : Hmac) (hmac_sha512 : Bytes → Bytes → Bytes) (law : IsHmac h hmac_sha512) where
  pub digest_lem :
      (key : Bytes) (chunks : List Bytes)
      → digest h key chunks ≡ ok (hmac_sha512 key (concat chunks))
  unfolding digest
  digest_lem key chunks = rw (law.any_key key) (rw (law.chunked key chunks))
