-- ===== src/Signers/Derivation/Mnemonic.antt =====
-- The signers that are made from a recovery phrase: `from_mnemonic` and `from_mnemonic_with_index`
-- of crates/native/src/signers (native.rs, solana.rs, evm.rs).
pub mod Accounts
pub mod Accepted
use morpheum_signing.Common.{
  ℕ, String, Option, none, some, List, [], ◌∷◌, Bytes, take, with_top_bit, Result, ok, err, map_err,
  ◌>>=◌,
}
use Prim.Native.String.{◌++◌ as str_append}
use mathlib.Core.Option
use morpheum_signing.Error.{SigningError, invalid_key}
use morpheum_signing.Signers.{
  Curves, NativeSigner, SolanaSigner, EvmSigner, native_from_seed, solana_from_seed, evm_from_seed,
}
use morpheum_signing.Signers.Derivation.{Hmac, Bip39}
use morpheum_signing.Signers.Derivation.Slip0010.{slip0010_derive}
use morpheum_signing.Signers.Derivation.Bip32.{Scalars, bip32_derive}

unfoldable pub solana_default_path : List ℕ
solana_default_path = with_top_bit 44 ∷ with_top_bit 501 ∷ 0x8000_0000 ∷ 0x8000_0000 ∷ []

-- the local `path`
unfoldable pub solana_path : ℕ → List ℕ
solana_path index = with_top_bit 44 ∷ with_top_bit 501 ∷ with_top_bit index ∷ 0x8000_0000 ∷ []

unfoldable pub evm_default_path : List ℕ
evm_default_path = with_top_bit 44 ∷ with_top_bit 60 ∷ 0x8000_0000 ∷ 0 ∷ 0 ∷ []

unfoldable pub evm_path : ℕ → List ℕ
evm_path index = with_top_bit 44 ∷ with_top_bit 60 ∷ 0x8000_0000 ∷ 0 ∷ index ∷ []

abbrev pub bad_mnemonic : String → SigningError
bad_mnemonic e = invalid_key (str_append "invalid BIP-39 mnemonic: " e)

module _ (b : Bip39) (c : Curves) where
  unfoldable pub native_from_mnemonic : String → String → Result SigningError (NativeSigner c)
  unfolding native_from_seed
  native_from_mnemonic mnemonic passphrase = do
    parsed ← map_err bad_mnemonic (b.parse mnemonic)
    ok (native_from_seed c (take 32 (b.to_seed parsed passphrase)))

module _ (b : Bip39) (h : Hmac) (c : Curves) where
  unfoldable pub solana_from_mnemonic_with_index :
      String → String → ℕ → Result SigningError (SolanaSigner c)
  unfolding slip0010_derive solana_path solana_from_seed
  solana_from_mnemonic_with_index mnemonic passphrase index = do
    parsed ← map_err bad_mnemonic (b.parse mnemonic)
    key_bytes ←
        map_err (λ e. invalid_key (str_append "SLIP-0010 derivation failed: " e))
          (slip0010_derive h (b.to_seed parsed passphrase) (solana_path index))
    ok (solana_from_seed c key_bytes)

  unfoldable pub solana_from_mnemonic : String → String → Result SigningError (SolanaSigner c)
  unfolding solana_from_mnemonic_with_index
  solana_from_mnemonic mnemonic passphrase = solana_from_mnemonic_with_index mnemonic passphrase 0

module _ (b : Bip39) (h : Hmac) (c : Curves) (k : Scalars) where
  unfoldable pub evm_key_bytes : String → String → ℕ → Result SigningError Bytes
  unfolding bip32_derive evm_path
  evm_key_bytes mnemonic passphrase index = do
    parsed ← map_err bad_mnemonic (b.parse mnemonic)
    map_err (λ e. invalid_key (str_append "BIP-32 derivation failed: " e))
        (bip32_derive h c k (b.to_seed parsed passphrase) (evm_path index))

  -- `none` is the panic of `from_seed`
  unfoldable pub evm_from_mnemonic_with_index :
      String → String → ℕ → Option (Result SigningError (EvmSigner c))
  unfolding evm_key_bytes evm_from_seed
  evm_from_mnemonic_with_index mnemonic passphrase index =
      elim (evm_key_bytes mnemonic passphrase index) [
        | err e ↦ some (err e)
        | ok key_bytes ↦ Option.map ok (evm_from_seed c key_bytes)
      ]

  unfoldable pub evm_from_mnemonic : String → String → Option (Result SigningError (EvmSigner c))
  unfolding evm_from_mnemonic_with_index
  evm_from_mnemonic mnemonic passphrase = evm_from_mnemonic_with_index mnemonic passphrase 0
