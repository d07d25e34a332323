-- ===== src/Tests/Accounts.antt =====
-- Keys, signatures and the settings of the builder at concrete data.
use morpheum_signing.Common.{◌≡◌, ◌↔◌, replicate, ok}
use morpheum_signing.Proto.{Any}
use morpheum_signing.Types.PublicKey.{PublicKey, from_proto_any}
use morpheum_signing.Types.PublicKey.Wire.{Announces, from_proto_any_iff}
use morpheum_signing.Types.Signature.{Signature}

abbrev cosmos : Any
cosmos = record { type_url = "/cosmos.crypto.secp256k1.PubKey"; value = replicate 20 7 }

from_proto_any_iff_example :
    (from_proto_any cosmos ≡ ok (PublicKey.evm_address (replicate 20 7)))
    ↔ Announces cosmos (PublicKey.evm_address (replicate 20 7))
from_proto_any_iff_example = from_proto_any_iff cosmos (PublicKey.evm_address (replicate 20 7))

abbrev signature : Signature
signature = Signature.schnorr (replicate 64 2)
