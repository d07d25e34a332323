-- ===== src/Signers/Derivation/Mnemonic/Accounts.antt =====
-- The keys that `from_mnemonic_with_index` of crates/native/src/signers/solana.rs and evm.rs gives.
use morpheum_signing.Common.{
  ℕ, ◌≡◌, ◌≢◌, refl, ap, ◌∙◌, ◌<◌, ◌%◌, ◌↔◌, inl, inr, true, String, none, List, [], ◌∷◌, Bytes,
  get_elem?, length, has_top_bit, with_top_bit, with_top_bit_lem, ◌+◌, with_top_bit_iff,
  has_top_bit-with_top_bit, Result, Result-cases, ok, err, map_err, ◌>>=◌, arith,
}
use Prim.Native.String.{◌++◌ as str_append}
use morpheum_signing.Error.{SigningError, invalid_key}
use morpheum_signing.Signers.{Curves, SolanaSigner, solana_from_seed, evm_from_seed}
use morpheum_signing.Signers.Derivation.{Hmac, IsHmac, Bip39}
use morpheum_signing.Signers.Derivation.Slip0010.{
  slip0010_derive, slip0010_derive_lem, all_hardened, descend, slip10_master, derived-IsSized,
}
use morpheum_signing.Signers.Derivation.Bip32.{Scalars, bip32_derive}
use morpheum_signing.Signers.Derivation.Bip32.CkdPriv.{IsField}
use morpheum_signing.Signers.Derivation.Bip32.Nonzero.{bip32_derive-Nonzero}
use morpheum_signing.Signers.Derivation.Mnemonic.{
  solana_path, evm_path, bad_mnemonic, solana_from_mnemonic_with_index, evm_key_bytes,
  evm_from_mnemonic_with_index,
}

-- BIP-32: a number with a prime is an index from 2^31 on.
abbrev pub hardened : ℕ → ℕ
hardened n = 0x8000_0000 + n

-- m/44'/501'/i'/0' of BIP-44, where i is the lower 31 bits of the index
abbrev pub solana_account : ℕ → List ℕ
solana_account index = hardened 44 ∷ hardened 501 ∷ hardened (index % 0x8000_0000) ∷ hardened 0 ∷ []

-- m/44'/60'/0'/0/index
abbrev pub evm_account : ℕ → List ℕ
evm_account index = hardened 44 ∷ hardened 60 ∷ hardened 0 ∷ 0 ∷ index ∷ []

pub solana_path_lem : (index : ℕ) → index < 0x1_0000_0000 → solana_path index ≡ solana_account index
unfolding solana_path with_top_bit
solana_path_lem index bound =
    let account : with_top_bit index ≡ hardened (index % 0x8000_0000) =
      ground (arith, with_top_bit_lem index bound) in
    ap (λ n. hardened 44 ∷ hardened 501 ∷ n ∷ hardened 0 ∷ []) account

pub evm_path_lem : (index : ℕ) → evm_path index ≡ evm_account index
unfolding evm_path with_top_bit
evm_path_lem index = refl

all_hardened-solana_path :
    (index : ℕ) → index < 0x1_0000_0000 → all_hardened (solana_path index) ≡ true
unfolding solana_path has_top_bit with_top_bit
all_hardened-solana_path index h = rw (has_top_bit-with_top_bit index h) refl

module _ (b : Bip39) (h : Hmac) (c : Curves) (hmac_sha512 : Bytes → Bytes → Bytes)
    (law : IsHmac h hmac_sha512) where
  -- the key of SLIP-10 at m/44'/501'/i'/0'
  abbrev pub solana_key : b.Mnemonic → String → ℕ → Bytes
  solana_key parsed passphrase index =
      (descend hmac_sha512 (slip10_master hmac_sha512 (b.to_seed parsed passphrase))
        (solana_account index)).key

  -- The derivation at the path of the program is that of SLIP-10 at the path of the standard.
  pub slip0010_derive-solana_path :
      (parsed : b.Mnemonic) (passphrase : String) (index : ℕ)
      → index < 0x1_0000_0000
      → slip0010_derive h (b.to_seed parsed passphrase) (solana_path index)
        ≡ ok (solana_key parsed passphrase index)
  slip0010_derive-solana_path parsed passphrase index bound =
      slip0010_derive_lem h hmac_sha512 law (b.to_seed parsed passphrase) (solana_path index)
      ∙ rw (all_hardened-solana_path index bound) (
          ap
            (λ path.
              ok
                (descend hmac_sha512 (slip10_master hmac_sha512 (b.to_seed parsed passphrase))
                  path).key)
            (solana_path_lem index bound))

  -- For every index of 32 bits, the Solana signer of a phrase is the one whose seed is the key that
  -- SLIP-10 describes at m/44'/501'/i'/0', where i is the lower 31 bits of the index, and that seed
  -- has 32 bytes. Only a phrase that cannot be parsed is refused: the derivation itself never fails,
  -- given that HMAC takes keys of any length.
  pub solana_from_mnemonic_with_index_lem :
      (mnemonic passphrase : String) (index : ℕ)
      → index < 0x1_0000_0000
      → (solana_from_mnemonic_with_index b h c mnemonic passphrase index
          ≡ elim (b.parse mnemonic) as (λ r. Result SigningError (SolanaSigner c)) [
            | err e ↦ err (bad_mnemonic e)
            | ok parsed ↦ ok (solana_from_seed c (solana_key parsed passphrase index))
          ])
        × ((parsed : b.Mnemonic) → length (solana_key parsed passphrase index) ≡ 32)
  unfolding solana_from_mnemonic_with_index
  solana_from_mnemonic_with_index_lem mnemonic passphrase index bound = (
    elim (Result-cases (b.parse mnemonic)) [
      | inl (parsed, e) ↦ rw e (rw (slip0010_derive-solana_path parsed passphrase index bound) refl)
      | inr (x, e) ↦ rw e refl
    ],
    λ parsed.
        (derived-IsSized h hmac_sha512 law (b.to_seed parsed passphrase) (solana_account index)).0,
  )

paths_agree :
    (i j : ℕ)
    → i < 0x1_0000_0000
    → j < 0x1_0000_0000
    → (solana_path i ≡ solana_path j) ↔ (i % 0x8000_0000 ≡ j % 0x8000_0000)
unfolding solana_path
paths_agree i j p q =
    let same = with_top_bit_iff i j p q in
    (
      λ e. same.0 (ground (arith, ap (λ path. get_elem? path 2) e)),
      λ e. ap (λ n. with_top_bit 44 ∷ with_top_bit 501 ∷ n ∷ 0x8000_0000 ∷ []) (same.1 e),
    )

-- Two indices of 32 bits have the same path exactly when their lower 31 bits agree, and then they
-- give the same Solana account, for every phrase and passphrase: `index` and `index + 2^31` are
-- one account.
pub solana_indices_agree :
    (b : Bip39) (h : Hmac) (c : Curves) (mnemonic passphrase : String) (i j : ℕ)
    → i < 0x1_0000_0000
    → j < 0x1_0000_0000
    → ((solana_path i ≡ solana_path j) ↔ (i % 0x8000_0000 ≡ j % 0x8000_0000))
      × (i % 0x8000_0000 ≡ j % 0x8000_0000
          → solana_from_mnemonic_with_index b h c mnemonic passphrase i
            ≡ solana_from_mnemonic_with_index b h c mnemonic passphrase j)
unfolding solana_from_mnemonic_with_index
solana_indices_agree b h c mnemonic passphrase i j p q = (
  paths_agree i j p q,
  λ e.
      ap
        (λ (path : List ℕ).
          (map_err bad_mnemonic (b.parse mnemonic) >>= λ parsed.
          (map_err (λ x. invalid_key (str_append "SLIP-0010 derivation failed: " x))
              (slip0010_derive h (b.to_seed parsed passphrase) path)
            >>= λ key. ok (solana_from_seed c key))))
        ((paths_agree i j p q).1 e),
)

module _ (b : Bip39) (h : Hmac) (c : Curves) (k : Scalars) (point : k.Scalar → Bytes)
    (field : IsField c k point) where
  -- The EVM signer of a phrase never hits the panic of `from_seed`: whatever the phrase, the
  -- passphrase and the index, the derived key is refused with an error or is a signing key.
  pub evm_from_mnemonic_with_index-ne-None :
      (mnemonic passphrase : String) (index : ℕ)
      → evm_from_mnemonic_with_index b h c k mnemonic passphrase index ≢ none
  unfolding evm_from_mnemonic_with_index evm_key_bytes evm_from_seed evm_path
  evm_from_mnemonic_with_index-ne-None mnemonic passphrase index e =
      elim (Result-cases (b.parse mnemonic)) [
        | inl (parsed, pe) ↦
            elim (Result-cases
              (bip32_derive h c k (b.to_seed parsed passphrase) (evm_path index))) [
                | inl (key, ke) ↦
                    let (s, at, nz) =
                      bip32_derive-Nonzero h c k (b.to_seed parsed passphrase) (with_top_bit 44)
                        (with_top_bit 60 ∷ 0x8000_0000 ∷ 0 ∷ index ∷ []) key ke in
                    let good = field.nonzero s nz in ground (arith, e, pe, ke, at, good)
                | inr (x, ke) ↦ ground (arith, e, pe, ke)
              ]
        | inr (x, pe) ↦ ground (arith, e, pe)
      ]
