-- ===== src/Adapters/MetaMaskAdapter.antt =====
-- The MetaMask adapter of the native crate (crates/native/src/adapters/metamask.rs).
use Prim.Native.String.{◌++◌ as str_append}
use morpheum_signing.Common.{
  String, Option, none, some, Bytes, length, ltb, take, replicate, strip_0x, if◌then◌else◌, Result,
  ok, err, map_err, ok_or,
}
use morpheum_signing.Error.{SigningError, wallet_adapter}
use morpheum_signing.Primitives.{Primitives}
use morpheum_signing.Exec.{Exec, pure, lift, gets, ◌>>=◌, ◌>>◌}
use morpheum_signing.Types.WalletType.{WalletType}
use morpheum_signing.Types.Address.{Address}
use morpheum_signing.Types.Signature.{Signature}
use morpheum_signing.Signer.{WalletAdapter}
use morpheum_signing.Wallets.{Browser, Hex, catching, make, run}
use morpheum_signing.Adapters.{Injected, set_or}

pub record MetaMaskAdapter : Type 0 where
  pub cached_address : Option Address

-- `new`, and the derived default
abbrev pub new_metamask_adapter : MetaMaskAdapter
new_metamask_adapter = record { cached_address = none }

-- the first 64 bytes, `r || s`
unfoldable pub first_64 : Bytes → Result SigningError Signature
first_64 sig_bytes =
    if ltb (length sig_bytes) 64
    then err (wallet_adapter "signature too short")
    else ok (Signature.secp256k1 (take 64 sig_bytes))

unfoldable pub metamask_external_address : MetaMaskAdapter → Address
metamask_external_address a = elim a.cached_address [
  | none ↦ Address.evm (replicate 20 0)
  | some address ↦ address
]

module _ (p : Primitives) {W : Type 0} (b : Browser W) where
  unfoldable pub eip712_payload : p.SignDoc → Exec W b.Value
  unfolding set_or
  eip712_payload sign_doc = do
    let hash_hex = str_append "0x" (p.hex_encode (p.sha256 (p.encode_sign_doc sign_doc)))
    domain ← make b.new_object
    set_or b "failed to build domain" domain "name" (b.from_str "Morpheum")
    set_or b "failed to build domain" domain "version" (b.from_str "1")
    set_or b "failed to build domain" domain "chainId" (b.from_number 1)
    message ← make b.new_object
    set_or b "failed to build message" message "signDocHash" (b.from_str hash_hex)
    types ← make b.new_object
    eip712_domain ← make b.new_array
    run (b.push eip712_domain (b.from_str "string"))
    run (b.push eip712_domain (b.from_str "name"))
    set_or b "failed to build types" types "EIP712Domain" eip712_domain
    sign_doc_type ← make b.new_array
    run (b.push sign_doc_type (b.from_str "string"))
    run (b.push sign_doc_type (b.from_str "signDocHash"))
    set_or b "failed to build types" types "SignDoc" sign_doc_type
    payload ← make b.new_object
    set_or b "failed to build payload" payload "types" types
    set_or b "failed to build payload" payload "domain" domain
    set_or b "failed to build payload" payload "primaryType" (b.from_str "SignDoc")
    set_or b "failed to build payload" payload "message" message
    catching (λ e. wallet_adapter "failed to stringify EIP-712 payload") (b.stringify payload)

module _ (p : Primitives) {W : Type 0} (b : Browser W) (i : Injected b) (x : Hex) where
  -- the first account that the wallet gives, whose hex must fill 20 bytes
  unfoldable pub requested_account : b.Value → Exec W String
  unfolding set_or
  requested_account ethereum = do
    params ← make (i.array_of1 (b.from_str "eth_requestAccounts"))
    request_obj ← make b.new_object
    set_or b "failed to build request" request_obj "method" (b.from_str "eth_requestAccounts")
    set_or b "failed to build request" request_obj "params" params
    result ←
        catching (λ e. wallet_adapter (str_append "Failed to request accounts: " (b.debug e)))
          (b.request ethereum request_obj)
    accounts ← make (b.array_from result)
    value ← gets (b.array_get accounts 0)
    first ← lift (ok_or (b.as_string value) (wallet_adapter "No accounts returned by MetaMask"))
    bytes ← lift (
        map_err (λ e. wallet_adapter (str_append "Invalid address from MetaMask: " e))
          (x.decode_to_slice 20 (strip_0x first)))
    pure first

  -- a cached address of Ethereum, or a request
  account_by : Option Address → b.Value → Exec W String
  account_by (some (Address.evm bytes)) ethereum = pure (str_append "0x" (p.hex_encode bytes))
  account_by (some (Address.native s)) ethereum = requested_account ethereum
  account_by (some (Address.solana s)) ethereum = requested_account ethereum
  account_by (some (Address.bitcoin s)) ethereum = requested_account ethereum
  account_by (some (Address.agent s)) ethereum = requested_account ethereum
  account_by none ethereum = requested_account ethereum

  unfoldable pub metamask_ensure_connected : MetaMaskAdapter → b.Value → Exec W String
  unfolding account_by requested_account
  metamask_ensure_connected a ethereum = account_by a.cached_address ethereum

  -- the calls of `request_signature`, and the bytes of the answer
  unfoldable pub requested_typed_data : MetaMaskAdapter → p.SignDoc → Exec W Bytes
  unfolding metamask_ensure_connected eip712_payload set_or
  requested_typed_data a sign_doc = do
    found ← gets i.ethereum
    ethereum ← lift (ok_or found (wallet_adapter "MetaMask not detected (window.ethereum missing)"))
    address ← metamask_ensure_connected a ethereum
    payload ← eip712_payload p b sign_doc
    params ← make (b.array_of2 (b.from_str address) payload)
    request_obj ← make b.new_object
    set_or b "failed to set method" request_obj "method" (b.from_str "eth_signTypedData_v4")
    set_or b "failed to set params" request_obj "params" params
    result ←
        catching (λ e. wallet_adapter (str_append "MetaMask request failed: " (b.debug e)))
          (b.request ethereum request_obj)
    sig_hex ←
        lift (ok_or (b.as_string result) (wallet_adapter "MetaMask returned non-string signature"))
    lift (
        map_err (λ e. wallet_adapter (str_append "invalid signature hex: " e))
          (x.decode (strip_0x sig_hex)))

  unfoldable pub metamask_request_signature : MetaMaskAdapter → p.SignDoc → Exec W Signature
  unfolding requested_typed_data first_64
  metamask_request_signature a sign_doc = do
    sig_bytes ← requested_typed_data a sign_doc
    lift (first_64 sig_bytes)

  unfoldable pub metamask_adapter : MetaMaskAdapter → WalletAdapter p W
  unfolding metamask_request_signature metamask_external_address
  metamask_adapter a = record {
    request_signature = metamask_request_signature a;
    wallet_type = WalletType.evm;
    external_address = metamask_external_address a;
    name = "MetaMask (EVM)";
  }
