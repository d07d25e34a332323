-- ===== src/Wallets/Accounts.antt =====
-- The account that a browser wallet reports (crates/wasm-lib), and the one that the verifier makes
-- of the key that the wallet publishes (crates/core/src/verifier.rs).
use morpheum_signing.Common.{
  ◌≡◌, ◌≢◌, refl, ap, ◌⊎◌, inl, inr, as_bytes, bytes_eq, bytes_eq_iff, Bool-cases, ok, arith,
}
use morpheum_signing.Primitives.{Primitives}
use morpheum_signing.Types.Address.{hashed_bytes}
use morpheum_signing.Types.Address
use morpheum_signing.Types.PublicKey.{
  PublicKey, from_proto_any, to_account_id, key_bytes, secp256k1_from_bytes,
}
use morpheum_signing.Claim.Digest.{Collision, hash-cases}
use morpheum_signing.Wallets.MetaMask.{metamask_account_id, metamask_public_key_proto}
use morpheum_signing.Wallets.Phantom.{phantom_account_id, phantom_public_key_proto}
use morpheum_signing.Wallets.Taproot.{taproot_account_id, taproot_public_key_proto}
use morpheum_signing.Wallets.WasmSigner.{
  WasmSigner, metamask, phantom, taproot, wasm_account_id, wasm_public_key_proto,
}
use morpheum_signing.Wallets.Bounds.{KeySized}

-- The key of a wallet, as the verifier knows it.
abbrev pub wallet_key : WasmSigner → PublicKey
wallet_key (metamask a) = PublicKey.evm_address a.cached_address
wallet_key (phantom a) = PublicKey.ed25519 a.cached_pubkey
wallet_key (taproot a) = PublicKey.schnorr a.cached_pubkey

-- How the account that a wallet reports stands to that of its key.
abbrev pub Compares : Primitives → WasmSigner → Type 0
Compares p (metamask a) =
    wasm_account_id p (metamask a) ≡ to_account_id p (PublicKey.evm_address a.cached_address)
Compares p (phantom a) =
    wasm_account_id p (phantom a) ≡ to_account_id p (PublicKey.ed25519 a.cached_pubkey)
Compares p (taproot a) =
    (wasm_account_id p (taproot a) ≢ to_account_id p (PublicKey.schnorr a.cached_pubkey))
    ⊎ ((as_bytes a.cached_address ≡ a.cached_pubkey)
        ⊎ Collision p.sha256 (as_bytes a.cached_address) a.cached_pubkey)

module _ (p : Primitives) where
  read_back :
      (s : WasmSigner) → KeySized s → from_proto_any (wasm_public_key_proto s) ≡ ok (wallet_key s)
  unfolding wasm_public_key_proto metamask_public_key_proto phantom_public_key_proto
      taproot_public_key_proto from_proto_any secp256k1_from_bytes
  read_back (metamask a) sized = ground (arith, sized)
  read_back (phantom a) sized = ground (arith, sized)
  read_back (taproot a) sized = ground (arith, sized)

  compared : (s : WasmSigner) → Compares p s
  unfolding wasm_account_id metamask_account_id phantom_account_id taproot_account_id
      Address.to_account_id hashed_bytes to_account_id key_bytes
  compared (metamask a) = refl
  compared (phantom a) = refl
  compared (taproot a) =
      let text = p.sha256 (as_bytes a.cached_address) in
      let digest = p.sha256 a.cached_pubkey in
      elim (Bool-cases (bytes_eq text digest)) [
        | inl same ↦ inr (
            hash-cases p.sha256 (as_bytes a.cached_address) a.cached_pubkey
              ((bytes_eq_iff text digest).0 same))
        | inr other ↦
            inl (λ e. ground (arith, other, (bytes_eq_iff text digest).1 (ap (λ x. x.id) e)))
      ]

  -- The verifier reads back, from what a wallet with a key of its length publishes, the key of that
  -- wallet: the address of MetaMask, the Ed25519 key of Phantom and the Schnorr key of Taproot. The
  -- account of that key is the one that MetaMask and Phantom report. The Taproot wallet reports
  -- another one, unless the text of its address is its key or a collision of SHA-256 with it.
  pub wasm_account_id-to_account_id :
      (s : WasmSigner)
      → KeySized s
      → (from_proto_any (wasm_public_key_proto s) ≡ ok (wallet_key s)) × Compares p s
  wasm_account_id-to_account_id s sized = (read_back s sized, compared s)
