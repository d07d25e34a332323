-- ===== src/CryptogramBridge/Agreement.antt =====
-- What the bridge (crates/core/src/cryptogram_bridge.rs) makes of a signature of cryptogram, against
-- the wallet types and default sign modes of crates/core/src/types.rs.
use morpheum_signing.Common.{
  ◌≡◌, ◌≢◌, ◌↔◌, refl, sym, ap, ◌∙◌, String, some, Bytes, length, strip_0x, Result-cases, ok, inl,
  inr, arith,
}
use mathlib.Core.Path.{subst}
use morpheum_signing.Types.WalletType.{WalletType, default_sign_mode}
use morpheum_signing.Types.Signature.{Signature, to_bytes}
use morpheum_signing.Types.Kind.{HasKind}
use morpheum_signing.Wallets.{Hex}
use morpheum_signing.CryptogramBridge.{
  SigType, wallet_type_to_sig_type, sig_type_to_wallet_type, signature_of_sig_type,
  hex_sig_to_signature,
}

hex_sig_to_signature_iff :
    (x : Hex) (sig_hex : String) (t : SigType) (s : Signature)
    → (hex_sig_to_signature x sig_hex t ≡ ok s) ↔ (
        (bytes : Bytes) × (x.decode (strip_0x sig_hex) ≡ ok bytes)
        × (length bytes ≡ 64)
        × (s ≡ signature_of_sig_type t bytes))
unfolding hex_sig_to_signature
hex_sig_to_signature_iff x sig_hex t s = (
  λ h. elim (Result-cases (x.decode (strip_0x sig_hex))) [
    | inl (bytes, e) ↦ (bytes, e, ground (arith, h, e), ground (arith, h, e))
    | inr (m, e) ↦ absurd (ground (arith, h, e))
  ],
  λ (bytes, e, n, k). ground (arith, e, n, k),
)

bytes_kept : (t : SigType) (bytes : Bytes) → to_bytes (signature_of_sig_type t bytes) ≡ bytes
unfolding signature_of_sig_type to_bytes
bytes_kept SigType.ed25519 bytes = refl
bytes_kept SigType.ed25519_legacy_ada bytes = refl
bytes_kept SigType.ed25519_legacy_sui bytes = refl
bytes_kept SigType.ed25519_legacy_ton bytes = refl
bytes_kept SigType.schnorr_taproot bytes = refl
bytes_kept SigType.schnorr_aggregate bytes = refl
bytes_kept _ bytes = refl

kind_agrees :
    (wallet : WalletType) (bytes : Bytes)
    → length bytes ≡ 64
    → HasKind
        (default_sign_mode wallet)
        (signature_of_sig_type (wallet_type_to_sig_type wallet) bytes)
      ↔ (wallet ≢ WalletType.hardware)
unfolding signature_of_sig_type wallet_type_to_sig_type default_sign_mode
kind_agrees WalletType.native bytes n = (λ k e. cc e, λ ne. n)
kind_agrees WalletType.evm bytes n = (λ k e. cc e, λ ne. n)
kind_agrees WalletType.solana bytes n = (λ k e. cc e, λ ne. n)
kind_agrees WalletType.bitcoin bytes n = (λ k e. cc e, λ ne. n)
kind_agrees WalletType.agent bytes n = (λ k e. cc e, λ ne. n)
kind_agrees WalletType.hardware bytes n = (λ k e. k, λ ne. ne refl)

mode_agrees :
    (wallet back : WalletType)
    → sig_type_to_wallet_type (wallet_type_to_sig_type wallet) ≡ some back
    → (default_sign_mode back ≡ default_sign_mode wallet) ↔ (wallet ≢ WalletType.hardware)
unfolding sig_type_to_wallet_type wallet_type_to_sig_type default_sign_mode
mode_agrees WalletType.native back h = (λ m e. cc e, λ ne. ground (arith, h))
mode_agrees WalletType.evm back h = (λ m e. cc e, λ ne. ground (arith, h))
mode_agrees WalletType.solana back h = (λ m e. cc e, λ ne. ground (arith, h))
mode_agrees WalletType.bitcoin back h = (λ m e. cc e, λ ne. ground (arith, h))
mode_agrees WalletType.agent back h = (λ m e. cc e, λ ne. ground (arith, h))
mode_agrees WalletType.hardware back h = (λ m e. ground (arith, h, m), λ ne. absurd (ne refl))

-- A signature of cryptogram for a wallet type is converted to the very bytes that its hex spells.
-- It is of 64 bytes and of the kind of the wallet's default sign mode exactly if the wallet is no
-- hardware wallet, and exactly then the wallet type that the bridge maps back has that mode too.
pub hex_sig_to_signature-default_sign_mode :
    (x : Hex) (sig_hex : String) (wallet back : WalletType) (s : Signature)
    → hex_sig_to_signature x sig_hex (wallet_type_to_sig_type wallet) ≡ ok s
    → sig_type_to_wallet_type (wallet_type_to_sig_type wallet) ≡ some back
    → (x.decode (strip_0x sig_hex) ≡ ok (to_bytes s))
      × (HasKind (default_sign_mode wallet) s ↔ (wallet ≢ WalletType.hardware))
      × ((default_sign_mode back ≡ default_sign_mode wallet) ↔ (wallet ≢ WalletType.hardware))
hex_sig_to_signature-default_sign_mode x sig_hex wallet back s h b =
    let t = wallet_type_to_sig_type wallet in
    let (bytes, e, n, k) = (hex_sig_to_signature_iff x sig_hex t s).0 h in
    (
      e ∙ ap ok (sym (ap to_bytes k ∙ bytes_kept t bytes)),
      subst (λ y. HasKind (default_sign_mode wallet) y ↔ (wallet ≢ WalletType.hardware)) (sym k)
          (kind_agrees wallet bytes n),
      mode_agrees wallet back b,
    )
