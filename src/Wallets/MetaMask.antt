-- ===== src/Wallets/MetaMask.antt =====
-- The MetaMask wallet in the browser (crates/wasm-lib/src/metamask.rs).
use Prim.Native.String.{◌++◌ as str_append}
use morpheum_signing.Common.{
  ltb, String, ◌∷◌, ◌++◌, Bytes, ◌||◌, length, take, replicate, to_string, strip_0x, if◌then◌else◌,
  Result, ok, err, map_err, ok_or,
}
use morpheum_signing.Error.{SigningError, wallet_adapter}
use morpheum_signing.Proto.{Any}
use morpheum_signing.Primitives.{Primitives}
use morpheum_signing.Exec.{Exec, pure, lift, gets, refuse_if, ◌>>=◌, ◌>>◌}
use morpheum_signing.Types.Address.{AccountId, Address}
use morpheum_signing.Types.Address
use morpheum_signing.Types.PublicKey.{PublicKey}
use morpheum_signing.Types.Signature.{Signature}
use morpheum_signing.Wallets.{Browser, Hex, catching, make, run, get_window}

-- `MetaMaskAdapterWasm`
pub record MetaMask : Type 0 where
  pub cached_address : Bytes
  pub address_hex : String

-- the check of the length, and the bytes of `r || s`
unfoldable pub compact_signature : Bytes → Result SigningError Signature
compact_signature sig_bytes =
    if ltb (length sig_bytes) 64
    then err (
        wallet_adapter (
          str_append "MetaMask signature too short: "
            (str_append (to_string (length sig_bytes)) " bytes (expected ≥64)")))
    else ok (Signature.secp256k1 (take 64 sig_bytes))

module _ {W : Type 0} (b : Browser W) where
  unfoldable pub get_ethereum : Exec W b.Value
  unfolding get_window
  get_ethereum = do
    window ← get_window b
    val ←
        catching (λ e. wallet_adapter "failed to access window.ethereum") (b.get window "ethereum")
    refuse_if (b.is_undefined val || b.is_null val)
        (wallet_adapter "MetaMask not detected (window.ethereum is missing)")
    pure val

  unfoldable pub set_prop : b.Value → String → b.Value → Exec W (Unit {0})
  set_prop obj key val = do
    catching (λ e. wallet_adapter (str_append "failed to set property '" (str_append key "'")))
        (b.set obj key val)
    pure tt

  -- a field of a type: `{ name, type }`, pushed onto the array
  unfoldable pub push_field : b.Value → String → String → Exec W (Unit {0})
  unfolding set_prop
  push_field fields name type = do
    field ← make b.new_object
    set_prop field "name" (b.from_str name)
    set_prop field "type" (b.from_str type)
    run (b.push fields field)

  -- the calls of `connect`: the first account
  unfoldable pub first_account : Exec W String
  unfolding get_ethereum
  first_account = do
    ethereum ← get_ethereum
    request_obj ← make b.new_object
    catching (λ e. wallet_adapter "failed to build request object")
        (b.set request_obj "method" (b.from_str "eth_requestAccounts"))
    result ←
        catching (λ e. wallet_adapter (str_append "eth_requestAccounts failed: " (b.debug e)))
          (b.request ethereum request_obj)
    accounts ← make (b.array_from result)
    value ← gets (b.array_get accounts 0)
    lift (ok_or (b.as_string value) (wallet_adapter "MetaMask returned no accounts"))

module _ {W : Type 0} (b : Browser W) (x : Hex) where
  unfoldable pub metamask_connect : Exec W MetaMask
  unfolding first_account
  metamask_connect = do
    first ← first_account b
    address_bytes ← lift (
        map_err (λ e. wallet_adapter (str_append "invalid EVM address from MetaMask: " e))
          (x.decode_to_slice 20 (strip_0x first)))
    pure (record { cached_address = address_bytes; address_hex = first })

module _ (p : Primitives) {W : Type 0} (b : Browser W) where
  unfoldable pub build_eip712_payload : p.SignDoc → Exec W b.Value
  unfolding set_prop push_field
  build_eip712_payload sign_doc = do
    let hash_hex = str_append "0x" (p.hex_encode (p.sha256 (p.encode_sign_doc sign_doc)))
    domain ← make b.new_object
    set_prop b domain "name" (b.from_str "Morpheum")
    set_prop b domain "version" (b.from_str "1")
    set_prop b domain "chainId" (b.from_number 1)
    message ← make b.new_object
    set_prop b message "signDocHash" (b.from_str hash_hex)
    eip712_domain_type ← make b.new_array
    push_field b eip712_domain_type "name" "string"
    push_field b eip712_domain_type "version" "string"
    push_field b eip712_domain_type "chainId" "uint256"
    sign_doc_type ← make b.new_array
    push_field b sign_doc_type "signDocHash" "string"
    types ← make b.new_object
    set_prop b types "EIP712Domain" eip712_domain_type
    set_prop b types "MorpheumSignDoc" sign_doc_type
    payload ← make b.new_object
    set_prop b payload "types" types
    set_prop b payload "domain" domain
    set_prop b payload "primaryType" (b.from_str "MorpheumSignDoc")
    set_prop b payload "message" message
    catching (λ e. wallet_adapter "failed to stringify EIP-712 payload") (b.stringify payload)

module _ (p : Primitives) {W : Type 0} (b : Browser W) (x : Hex) where
  -- the calls of `sign_impl`, and the hex of the answer
  unfoldable pub typed_data_signature : MetaMask → p.SignDoc → Exec W Bytes
  unfolding get_ethereum build_eip712_payload
  typed_data_signature s sign_doc = do
    ethereum ← get_ethereum b
    payload ← build_eip712_payload p b sign_doc
    params ← make (b.array_of2 (b.from_str s.address_hex) payload)
    request_obj ← make b.new_object
    catching (λ e. wallet_adapter "failed to set method")
        (b.set request_obj "method" (b.from_str "eth_signTypedData_v4"))
    catching (λ e. wallet_adapter "failed to set params") (b.set request_obj "params" params)
    result ←
        catching (λ e. wallet_adapter (str_append "eth_signTypedData_v4 failed: " (b.debug e)))
          (b.request ethereum request_obj)
    sig_hex ←
        lift (ok_or (b.as_string result) (wallet_adapter "MetaMask returned non-string signature"))
    lift (
        map_err (λ e. wallet_adapter (str_append "invalid signature hex: " e))
          (x.decode (strip_0x sig_hex)))

  unfoldable pub metamask_sign_impl : MetaMask → p.SignDoc → Exec W Signature
  unfolding typed_data_signature compact_signature
  metamask_sign_impl s sign_doc = do
    sig_bytes ← typed_data_signature s sign_doc
    lift (compact_signature sig_bytes)

-- the placeholder: 0x02, the address, zeros up to 33 bytes
unfoldable pub metamask_public_key : MetaMask → PublicKey
metamask_public_key s = PublicKey.secp256k1 (0x02 ∷ (s.cached_address ++ replicate 12 0))

unfoldable pub metamask_public_key_proto : MetaMask → Any
metamask_public_key_proto s = record {
  type_url = "/morpheum.crypto.secp256k1.PubKey";
  value = s.cached_address;
}

unfoldable pub metamask_account_id : (p : Primitives) → MetaMask → AccountId
metamask_account_id p s = Address.to_account_id p (Address.evm s.cached_address)
