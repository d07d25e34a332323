-- ===== src/Types/PublicKey/Wire.antt =====
-- `PublicKey::from_proto_any` against the table of type URLs and lengths, and its round trip with
-- `PublicKey::to_proto_any`.
use morpheum_signing.Common.{
  ◌≡◌, refl, ◌↔◌, ◌⊎◌, inl, inr, String, Bytes, length, Result, ok, arith, eq_iff,
}
use morpheum_signing.Proto.{Any}
use morpheum_signing.Error.{SigningError}
use morpheum_signing.Primitives.{Primitives}
use morpheum_signing.Types.PublicKey.{
  PublicKey, ed25519, secp256k1, evm_address, schnorr, agent, from_proto_any, type_url,
  to_proto_any, to_proto_bytes, to_account_id,
}

-- the array lengths of the variants
abbrev pub IsWellFormed : PublicKey → Type 0
IsWellFormed (ed25519 b) = length b ≡ 32
IsWellFormed (secp256k1 b) = length b ≡ 33
IsWellFormed (evm_address b) = length b ≡ 20
IsWellFormed (schnorr b) = length b ≡ 32
IsWellFormed (agent b) = length b ≡ 32

-- The wire does not tell an agent's key from an Ed25519 key.
abbrev pub on_wire : PublicKey → PublicKey
on_wire (agent b) = ed25519 b
on_wire (ed25519 b) = ed25519 b
on_wire (secp256k1 b) = secp256k1 b
on_wire (evm_address b) = evm_address b
on_wire (schnorr b) = schnorr b

-- A key of the right length is read back from the `Any` that it is packed into, an agent's key as
-- an Ed25519 key.
pub from_proto_any-to_proto_any :
    (key : PublicKey) → IsWellFormed key → from_proto_any (to_proto_any key) ≡ ok (on_wire key)
unfolding from_proto_any to_proto_any type_url to_proto_bytes
from_proto_any-to_proto_any (ed25519 b) h = ground arith
from_proto_any-to_proto_any (secp256k1 b) h = ground arith
from_proto_any-to_proto_any (evm_address b) h = ground arith
from_proto_any-to_proto_any (schnorr b) h = ground arith
from_proto_any-to_proto_any (agent b) h = ground arith

-- The table: which URL announces which key, and with how many bytes. No URL announces an agent's
-- key.
abbrev pub Announces : Any → PublicKey → Type 0
Announces any (ed25519 b) =
    ((any.type_url ≡ "/morpheum.crypto.ed25519.PubKey")
      ⊎ (any.type_url ≡ "/cosmos.crypto.ed25519.PubKey"))
    × (b ≡ any.value)
    × (length b ≡ 32)
Announces any (secp256k1 b) =
    ((any.type_url ≡ "/morpheum.crypto.secp256k1.PubKey")
      ⊎ (any.type_url ≡ "/cosmos.crypto.secp256k1.PubKey"))
    × (b ≡ any.value)
    × (length b ≡ 33)
Announces any (evm_address b) =
    ((any.type_url ≡ "/morpheum.crypto.secp256k1.PubKey")
      ⊎ (any.type_url ≡ "/cosmos.crypto.secp256k1.PubKey"))
    × (b ≡ any.value)
    × (length b ≡ 20)
Announces any (schnorr b) =
    (any.type_url ≡ "/morpheum.crypto.schnorr.PubKey") × (b ≡ any.value) × (length b ≡ 32)
Announces any (agent b) = ⊥

from_proto_any-Announces :
    (any : Any) (key : PublicKey) → from_proto_any any ≡ ok key → Announces any key
unfolding from_proto_any
from_proto_any-Announces any (ed25519 b) h = ground (
  arith,
  eq_iff any.type_url "/morpheum.crypto.ed25519.PubKey",
  eq_iff any.type_url "/cosmos.crypto.ed25519.PubKey",
)
from_proto_any-Announces any (secp256k1 b) h = ground (
  arith,
  eq_iff any.type_url "/morpheum.crypto.secp256k1.PubKey",
  eq_iff any.type_url "/cosmos.crypto.secp256k1.PubKey",
)
from_proto_any-Announces any (evm_address b) h = ground (
  arith,
  eq_iff any.type_url "/morpheum.crypto.secp256k1.PubKey",
  eq_iff any.type_url "/cosmos.crypto.secp256k1.PubKey",
)
from_proto_any-Announces any (schnorr b) h =
    ground (arith, eq_iff any.type_url "/morpheum.crypto.schnorr.PubKey")
from_proto_any-Announces any (agent b) h = ground arith

-- What is parsed under a URL, as a function of the URL and the bytes.
parse_as : String → Bytes → Result SigningError PublicKey
parse_as url value = from_proto_any (record { type_url = url; value = value })

parses :
    (url : String) {url' : String} (value : Bytes) (key : PublicKey)
    → url' ≡ url
    → parse_as url value ≡ ok key
    → parse_as url' value ≡ ok key
parses url value key e h = rw e h

Announces-from_proto_any :
    (any : Any) (key : PublicKey) → Announces any key → from_proto_any any ≡ ok key
unfolding parse_as from_proto_any
Announces-from_proto_any any (ed25519 b) (inl e, v, n) =
    parses "/morpheum.crypto.ed25519.PubKey" any.value _ e (ground arith)
Announces-from_proto_any any (ed25519 b) (inr e, v, n) =
    parses "/cosmos.crypto.ed25519.PubKey" any.value _ e (ground arith)
Announces-from_proto_any any (secp256k1 b) (inl e, v, n) =
    parses "/morpheum.crypto.secp256k1.PubKey" any.value _ e (ground arith)
Announces-from_proto_any any (secp256k1 b) (inr e, v, n) =
    parses "/cosmos.crypto.secp256k1.PubKey" any.value _ e (ground arith)
Announces-from_proto_any any (evm_address b) (inl e, v, n) =
    parses "/morpheum.crypto.secp256k1.PubKey" any.value _ e (ground arith)
Announces-from_proto_any any (evm_address b) (inr e, v, n) =
    parses "/cosmos.crypto.secp256k1.PubKey" any.value _ e (ground arith)
Announces-from_proto_any any (schnorr b) (e, v, n) =
    parses "/morpheum.crypto.schnorr.PubKey" any.value _ e (ground arith)
Announces-from_proto_any any (agent b) h = absurd h

-- `from_proto_any` accepts exactly the rows of the table, and returns the key of that row.
pub from_proto_any_iff :
    (any : Any) (key : PublicKey) → (from_proto_any any ≡ ok key) ↔ Announces any key
from_proto_any_iff any key = (from_proto_any-Announces any key, Announces-from_proto_any any key)

-- Packing a key and parsing it again keeps its account.
pub to_account_id-on_wire :
    (p : Primitives) (key : PublicKey) → to_account_id p (on_wire key) ≡ to_account_id p key
unfolding to_account_id
to_account_id-on_wire p (agent b) = refl
to_account_id-on_wire p _ = refl
