-- ===== src/Signers/Derivation/Mnemonic/Accepted.antt =====
-- The signers that are made from a recovery phrase (crates/native/src/signers): their keys, against
-- the derivations of the standards, and their transactions before the verifier
-- (crates/core/src/verifier.rs).
use morpheum_signing.Common.{
  ℕ, ◌≡◌, refl, ap, ◌∙◌, ◌<◌, false, inl, inr, String, none, some, [], ◌∷◌, Bytes, take, drop,
  Result, err, as_bytes, with_top_bit, Option-cases, ok, arith,
}
use mathlib.Core.Option
use morpheum_signing.Primitives.{Primitives}
use morpheum_signing.EndToEnd.{SignsForKey}
use morpheum_signing.Signers.{
  Curves, NativeSigner, SolanaSigner, EvmSigner, native_from_seed, solana_from_seed, evm_from_seed,
  native_signer, solana_signer, evm_signer,
}
use morpheum_signing.Signers.Accepted.{AcceptsOwn, local_signers-SignsForKey}
use morpheum_signing.Signers.Derivation.{Hmac, IsHmac, Bip39}
use morpheum_signing.Signers.Derivation.Bip32.{Scalars, bip32_derive}
use morpheum_signing.Signers.Derivation.Bip32.CkdPriv.{
  IsField, ExtendedKey, descend, value, bip32_derive_lem,
}
use morpheum_signing.Signers.Derivation.Bip32.Nonzero.{bip32_derive-Nonzero}
use morpheum_signing.Signers.Derivation.Mnemonic.{
  native_from_mnemonic, solana_from_mnemonic_with_index, evm_key_bytes,
  evm_from_mnemonic_with_index, evm_path,
}
use morpheum_signing.Signers.Derivation.Mnemonic.Accounts.{
  solana_key, slip0010_derive-solana_path, evm_account, evm_path_lem,
}

value-eq-some : {A : Type 0} (m : Result String A) (a : A) → value m ≡ some a → m ≡ ok a
value-eq-some (ok x) a e = ground (arith, e)
value-eq-some (err x) a e = absurd (ground (arith, e))

-- the master key of BIP-32 of a seed whose left half is the scalar `s`
abbrev pub bip32_master :
    (k : Scalars) (point : k.Scalar → Bytes) (hmac_sha512 : Bytes → Bytes → Bytes)
    → Bytes
    → k.Scalar
    → ExtendedKey k point hmac_sha512
bip32_master k point hmac_sha512 seed s = record {
  scalar = s;
  chain = drop 32 (hmac_sha512 (as_bytes "Bitcoin seed") seed);
}

module _ (b : Bip39) (h : Hmac) (c : Curves) (k : Scalars) (point : k.Scalar → Bytes)
    (hmac_sha512 : Bytes → Bytes → Bytes) (law : IsHmac h hmac_sha512)
    (field : IsField c k point) where
  -- The derivation at the path of the program is that of BIP-32 at m/44'/60'/0'/0/index.
  bip32_derive-evm_path :
      (seed : Bytes) (index : ℕ) (s : k.Scalar) (y : ExtendedKey k point hmac_sha512)
      → k.from_repr (take 32 (hmac_sha512 (as_bytes "Bitcoin seed") seed)) ≡ some s
      → k.is_zero s ≡ false
      → descend k point hmac_sha512 (bip32_master k point hmac_sha512 seed s) (evm_account index)
        ≡ some y
      → bip32_derive h c k seed (evm_path index) ≡ ok (k.to_repr y.scalar)
  bip32_derive-evm_path seed index s y valid nz path = rw (evm_path_lem index) (
      value-eq-some (bip32_derive h c k seed (evm_account index)) (k.to_repr y.scalar) (
        bip32_derive_lem h c k point hmac_sha512 law field seed (evm_account index) s valid nz
        ∙ ap (Option.map (λ (x : ExtendedKey k point hmac_sha512). k.to_repr x.scalar)) path))

  -- The key that is derived is a signing key.
  evm_from_seed-derived :
      (seed : Bytes) (index : ℕ) (key : Bytes)
      → bip32_derive h c k seed (evm_path index) ≡ ok key
      → (s : EvmSigner c) × (evm_from_seed c key ≡ some s)
  unfolding evm_from_seed evm_path
  evm_from_seed-derived seed index key made = elim (Option-cases (evm_from_seed c key)) [
    | inr found ↦ found
    | inl none_is ↦
        let (s, at, nz) =
          bip32_derive-Nonzero h c k seed (with_top_bit 44)
            (with_top_bit 60 ∷ 0x8000_0000 ∷ 0 ∷ index ∷ []) key made in
        let good = field.nonzero s nz in absurd (ground (arith, none_is, at, good))
  ]

  -- From a phrase that is parsed to a seed, and an index of 32 bits: the native signer is made of
  -- the first 32 bytes of the seed, the Solana signer of the key of SLIP-10 at m/44'/501'/i'/0',
  -- where i is the lower 31 bits of the index, and the EVM signer of the key of BIP-32 at
  -- m/44'/60'/0'/0/index, if the master key is valid and no step fails. Each satisfies what the
  -- builder relies on: it publishes its own key, of the length of its kind, and every signature it
  -- returns is accepted for that key and its own mode, over the encoding of the document. HMAC
  -- takes keys of any length, scalars are read back from their bytes, and the curves accept their
  -- own signatures.
  pub mnemonic_signers-SignsForKey :
      (p : Primitives) (W : Type 0) (mnemonic passphrase : String) (index : ℕ) (parsed : b.Mnemonic)
      (s : k.Scalar) (y : ExtendedKey k point hmac_sha512)
      → AcceptsOwn p c
      → index < 0x1_0000_0000
      → b.parse mnemonic ≡ ok parsed
      → k.from_repr (take 32 (hmac_sha512 (as_bytes "Bitcoin seed") (b.to_seed parsed passphrase)))
        ≡ some s
      → k.is_zero s ≡ false
      → descend k point hmac_sha512
          (bip32_master k point hmac_sha512 (b.to_seed parsed passphrase) s)
          (evm_account index)
        ≡ some y
      → ((n : NativeSigner c) × (native_from_mnemonic b c mnemonic passphrase ≡ ok n)
          × (n ≡ native_from_seed c (take 32 (b.to_seed parsed passphrase)))
          × SignsForKey p {W = W} (native_signer p c n))
        × ((n : SolanaSigner c) × (solana_from_mnemonic_with_index b h c mnemonic passphrase index
              ≡ ok n)
            × (n ≡ solana_from_seed c (solana_key b h c hmac_sha512 law parsed passphrase index))
            × SignsForKey p {W = W} (solana_signer p c n))
        × ((n : EvmSigner c) × (evm_from_mnemonic_with_index b h c k mnemonic passphrase index
              ≡ some (ok n))
            × (evm_from_seed c (k.to_repr y.scalar) ≡ some n)
            × SignsForKey p {W = W} (evm_signer p c n))
  unfolding native_from_mnemonic solana_from_mnemonic_with_index evm_from_mnemonic_with_index
      evm_key_bytes
  mnemonic_signers-SignsForKey p W mnemonic passphrase index parsed s y accepts bound read valid nz
        path =
      let seed = b.to_seed parsed passphrase in
      let key = solana_key b h c hmac_sha512 law parsed passphrase index in
      let made = bip32_derive-evm_path seed index s y valid nz path in
      let (n, n_is) = evm_from_seed-derived seed index (k.to_repr y.scalar) made in
      let (kn, x1, x2, x3) =
        local_signers-SignsForKey p c {W = W} accepts (take 32 seed) (record { id = seed }) none in
      let (y1, ks, y2, y3) =
        local_signers-SignsForKey p c {W = W} accepts key (record { id = seed }) none in
      let (z1, z2, z3, ke) =
        local_signers-SignsForKey p c {W = W} accepts (k.to_repr y.scalar) (record { id = seed })
          none in
      (
        (native_from_seed c (take 32 seed), rw read refl, refl, kn),
        (
          solana_from_seed c key,
          rw read (
              rw (slip0010_derive-solana_path b h c hmac_sha512 law parsed passphrase index bound)
                refl),
          refl,
          ks,
        ),
        (n, ground (arith, read, made, n_is), n_is, ke n n_is),
      )
