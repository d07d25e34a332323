-- ===== src/Adapters/Sized.antt =====
-- The signatures of the native wallet adapters (crates/native/src/adapters).
use morpheum_signing.Common.{
  ◌≡◌, Bytes, length, take, ltb, ◌==◌, ==_iff, Bool-cases, length-take, inl, inr, ok, arith,
}
use mathlib.Core.Path.{subst}
use morpheum_signing.Proto.{SignMode}
use morpheum_signing.Primitives.{Primitives}
use morpheum_signing.Exec.{
  pure, lift, Ensures, bind-Ensures, bind-Ensures_both, lift-Ensures, pure-Ensures,
}
use morpheum_signing.Types.WalletType.{default_sign_mode}
use morpheum_signing.Types.Signature.{Signature}
use morpheum_signing.Types.Kind.{HasKind}
use morpheum_signing.Signer.{WalletAdapter}
use morpheum_signing.Wallets.{Browser, Hex}
use morpheum_signing.Wallets.Phantom.{exact_bytes}
use morpheum_signing.Wallets.Bounds.{exact_sized, le_of_not_ltb}
use morpheum_signing.Adapters.{Injected}
use morpheum_signing.Adapters.MetaMaskAdapter.{
  MetaMaskAdapter, first_64, requested_typed_data, metamask_request_signature, metamask_adapter,
}
use morpheum_signing.Adapters.PhantomAdapter.{
  PhantomAdapter, requested_message, phantom_request_signature, phantom_adapter,
}
use morpheum_signing.Adapters.TaprootAdapter.{
  TaprootAdapter, exactly_64, requested_bip322, taproot_request_signature, taproot_adapter,
}

-- the adapters of the crate, whatever they have cached
pub data Adapts (p : Primitives) {W : Type 0} (b : Browser W) (i : Injected b) (x : Hex)
    : WalletAdapter p W → Type 0 where
  by_metamask : (a : MetaMaskAdapter) → Adapts p b i x (metamask_adapter p b i x a)
  by_phantom : (a : PhantomAdapter) → Adapts p b i x (phantom_adapter p b i a)
  by_taproot : (a : TaprootAdapter) → Adapts p b i x (taproot_adapter p b i x a)

first_64-HasKind :
    (bytes : Bytes) (sig : Signature) → first_64 bytes ≡ ok sig → HasKind SignMode.secp256k1 sig
unfolding first_64
first_64-HasKind bytes sig h = elim (Bool-cases (ltb (length bytes) 64)) [
  | inl t ↦ absurd (ground (arith, h, t))
  | inr t ↦
      (subst (HasKind SignMode.secp256k1) {x = Signature.secp256k1 (take 64 bytes)}
        (ground (arith, h, t)) (length-take 64 bytes (le_of_not_ltb (length bytes) 64 t)))
]

exactly_64-HasKind :
    (bytes : Bytes) (sig : Signature)
    → exactly_64 bytes ≡ ok sig
    → HasKind SignMode.schnorr_aggregate sig
unfolding exactly_64
exactly_64-HasKind bytes sig h = elim (Bool-cases (length bytes == 64)) [
  | inl t ↦
      (subst (HasKind SignMode.schnorr_aggregate) {x = Signature.schnorr bytes}
        (ground (arith, h, t)) ((==_iff (length bytes) 64).0 t))
  | inr t ↦ absurd (ground (arith, h, t))
]

module _ (p : Primitives) {W : Type 0} (b : Browser W) (i : Injected b) (x : Hex) where
  adapter-Ensures :
      {adapter : WalletAdapter p W}
      → Adapts p b i x adapter
      → (doc : p.SignDoc)
      → Ensures (HasKind (default_sign_mode adapter.wallet_type)) (adapter.request_signature doc)
  unfolding metamask_adapter phantom_adapter taproot_adapter metamask_request_signature
      phantom_request_signature taproot_request_signature default_sign_mode
  adapter-Ensures (by_metamask a) doc =
      bind-Ensures (requested_typed_data p b i x a doc) (λ bytes. lift (first_64 bytes))
        (λ bytes. lift-Ensures (first_64 bytes) (first_64-HasKind bytes))
  adapter-Ensures (by_phantom a) doc = bind-Ensures (requested_message p b i a doc) _ (λ value.
      bind-Ensures_both (exact_bytes b _ _ 64 value) (λ bytes. pure (Signature.ed25519 bytes))
        (exact_sized b _ _ 64 value) (λ bytes sized. pure-Ensures (Signature.ed25519 bytes) sized))
  adapter-Ensures (by_taproot a) doc =
      bind-Ensures (requested_bip322 p b i x a doc) (λ bytes. lift (exactly_64 bytes))
        (λ bytes. lift-Ensures (exactly_64 bytes) (exactly_64-HasKind bytes))

  -- Every signature that a wallet adapter of the native crate returns has 64 bytes and is of the
  -- kind of the default sign mode of the adapter's wallet type, whatever the adapter has cached and
  -- whatever the wallet answered.
  pub request_signature-HasKind :
      {adapter : WalletAdapter p W} (doc : p.SignDoc) (w : W) (sig : Signature) (w' : W)
      → Adapts p b i x adapter
      → adapter.request_signature doc w ≡ (ok sig, w')
      → HasKind (default_sign_mode adapter.wallet_type) sig
  request_signature-HasKind doc w sig w' a h = (adapter-Ensures a doc).holds w sig w' h
