-- ===== src/Tests/Deriving.antt =====
-- The key derivations and the recovery phrases over a toy HMAC and toy scalars.
use morpheum_signing.Common.{
  ℕ, suc, ◌+◌, ◌≡◌, ◌≢◌, ◌%◌, ◌↔◌, refl, String, Option, none, some, List, [], ◌∷◌, ◌++◌, Bytes,
  length, drop, replicate, bytes_eq, bytes_eq→eq, bytes_eq_refl, as_bytes, with_top_bit,
  has_top_bit, to_be_bytes, str_eq, Bool-cases, inl, inr, if◌then◌else◌, Result, ok, err, ◌==◌,
  arith,
}
use mathlib.Core.List.{append_assoc, append-nil}
use mathlib.Core.Option
use morpheum_signing.Error.{SigningError}
use morpheum_signing.EndToEnd.{SignsForKey}
use morpheum_signing.Signers.{
  NativeSigner, SolanaSigner, EvmSigner, native_signer, solana_signer, evm_signer, native_from_seed,
  solana_from_seed, evm_from_seed,
}
use morpheum_signing.Signers.Derivation.{Hmac, IsHmac, Bip39, feed, concat}
use morpheum_signing.Signers.Derivation.Slip0010.{
  slip0010_derive, slip0010_derive_lem, all_hardened, descend, slip10_master, hardened_only,
}
use morpheum_signing.Signers.Derivation.Bip32.{Scalars, bip32_derive}
use morpheum_signing.Signers.Derivation.Bip32.CkdPriv.{
  IsField, ExtendedKey, bip32_derive_lem, value,
}
use morpheum_signing.Signers.Derivation.Bip32.CkdPriv as Ckd
use morpheum_signing.Signers.Derivation.Mnemonic.{
  solana_path, solana_default_path, evm_path, evm_default_path, bad_mnemonic, native_from_mnemonic,
  solana_from_mnemonic_with_index, evm_from_mnemonic_with_index,
}
use morpheum_signing.Signers.Derivation.Mnemonic.Accounts.{
  evm_account, solana_key, solana_from_mnemonic_with_index_lem, solana_indices_agree,
  evm_from_mnemonic_with_index-ne-None,
}
use morpheum_signing.Signers.Derivation.Mnemonic.Accepted.{
  bip32_master, mnemonic_signers-SignsForKey,
}
use morpheum_signing.Tests.Toy.{toy}
use morpheum_signing.Tests.LocalSigners.{curves, curves-AcceptsOwn}

abbrev total : Bytes → ℕ
total [] = 0
total (x ∷ xs) = x + total xs

-- the digest of the sums of the key and of the message, in the form of two toy scalars
abbrev toy_hmac : Bytes → Bytes → Bytes
toy_hmac key message =
    suc (total key + total message) ∷ (replicate 31 0 ++ (total message ∷ replicate 31 0))

abbrev hmac : Hmac
hmac = record {
  Mac = Bytes × Bytes;
  new_from_slice = λ key. ok (key, []);
  update = λ mac chunk. (mac.0, mac.1 ++ chunk);
  finalize = λ mac. toy_hmac mac.0 mac.1;
}

feed_lem :
    (key seen : Bytes) (chunks : List Bytes)
    → feed hmac (key, seen) chunks ≡ (key, seen ++ concat chunks)
feed_lem key seen [] = rw (append-nil seen) refl
feed_lem key seen (chunk ∷ chunks) =
    rw (feed_lem key (seen ++ chunk) chunks) (rw (append_assoc seen chunk (concat chunks)) refl)

hmac-IsHmac : IsHmac hmac toy_hmac
hmac-IsHmac = record {
  start = λ key. (key, []);
  any_key = λ key. refl;
  chunked = λ key chunks. rw (feed_lem key [] chunks) refl;
  digest_length = λ key message. refl;
}

abbrev phrases : Bip39
phrases = record {
  Mnemonic = String;
  parse = λ s. if str_eq s "" then err "no words" else ok s;
  to_seed = λ words passphrase. replicate 64 7;
}

abbrev of_repr : Bytes → Option ℕ
of_repr [] = none
of_repr (x ∷ xs) = if bytes_eq xs (replicate 31 0) then some x else none

abbrev scalars : Scalars
scalars = record {
  Scalar = ℕ;
  from_repr = of_repr;
  to_repr = λ s. s ∷ replicate 31 0;
  add = λ s t. s + t;
  is_zero = λ s. s == 0;
}

of_repr_inverse : (b : Bytes) (s : ℕ) → of_repr b ≡ some s → s ∷ replicate 31 0 ≡ b
of_repr_inverse [] s e = ground arith
of_repr_inverse (x ∷ xs) s e = elim (Bool-cases (bytes_eq xs (replicate 31 0))) [
  | inl t ↦ let same = bytes_eq→eq xs (replicate 31 0) t in ground (arith, e, t, same)
  | inr t ↦ absurd (ground (arith, e, t))
]

abbrev point : ℕ → Bytes
point s = replicate 33 32

scalars-IsField : IsField curves scalars point
scalars-IsField = record {
  from-to = λ s. rw (bytes_eq_refl (replicate 31 0)) refl;
  to-from = of_repr_inverse;
  signing_key = λ s. 32;
  nonzero = λ s nz. refl;
  public = λ s. refl;
}

default_paths : (solana_path 0 ≡ solana_default_path) × (evm_path 0 ≡ evm_default_path)
unfolding solana_path solana_default_path evm_path evm_default_path with_top_bit
default_paths = (refl, refl)

slip0010_derive_lem_example : slip0010_derive hmac (7 ∷ []) (0x8000_0001 ∷ 0 ∷ []) ≡ (
    if all_hardened (0x8000_0001 ∷ 0 ∷ [])
    then ok (descend toy_hmac (slip10_master toy_hmac (7 ∷ [])) (0x8000_0001 ∷ 0 ∷ [])).key
    else err hardened_only)
slip0010_derive_lem_example =
    slip0010_derive_lem hmac toy_hmac hmac-IsHmac (7 ∷ []) (0x8000_0001 ∷ 0 ∷ [])

abbrev master : ℕ
master = suc (total (as_bytes "Bitcoin seed") + 7)

bip32_derive_lem_example :
    value (bip32_derive hmac curves scalars (7 ∷ []) (evm_path 3))
    ≡ Option.map
        (λ (y : ExtendedKey scalars point toy_hmac). scalars.to_repr y.scalar)
        (Ckd.descend scalars point toy_hmac
          (record {
            scalar = master;
            chain = drop 32 (toy_hmac (as_bytes "Bitcoin seed") (7 ∷ []));
          })
          (evm_path 3))
bip32_derive_lem_example =
    bip32_derive_lem hmac curves scalars point toy_hmac hmac-IsHmac scalars-IsField (7 ∷ [])
      (evm_path 3) master (scalars-IsField.from-to master) (ground arith)

solana_from_mnemonic_with_index_lem_example :
    (solana_from_mnemonic_with_index phrases hmac curves "legal winner" "" 5
      ≡ elim (phrases.parse "legal winner") as (λ r. Result SigningError (SolanaSigner curves)) [
        | err e ↦ err (bad_mnemonic e)
        | ok parsed ↦ ok (
            solana_from_seed curves
              (solana_key phrases hmac curves toy_hmac hmac-IsHmac parsed "" 5))
      ])
    × ((parsed : String)
        → length (solana_key phrases hmac curves toy_hmac hmac-IsHmac parsed "" 5) ≡ 32)
solana_from_mnemonic_with_index_lem_example =
    solana_from_mnemonic_with_index_lem phrases hmac curves toy_hmac hmac-IsHmac "legal winner" "" 5
      (omega arith)

solana_indices_agree_example :
    ((solana_path 5 ≡ solana_path 0x8000_0005) ↔ (5 % 0x8000_0000 ≡ 0x8000_0005 % 0x8000_0000))
    × (5 % 0x8000_0000 ≡ 0x8000_0005 % 0x8000_0000
        → solana_from_mnemonic_with_index phrases hmac curves "legal winner" "" 5
          ≡ solana_from_mnemonic_with_index phrases hmac curves "legal winner" "" 0x8000_0005)
solana_indices_agree_example =
    solana_indices_agree phrases hmac curves "legal winner" "" 5 0x8000_0005 (omega arith)
      (omega arith)

evm_from_mnemonic_with_index-ne-None_example :
    evm_from_mnemonic_with_index phrases hmac curves scalars "legal winner" "" 5 ≢ none
evm_from_mnemonic_with_index-ne-None_example =
    evm_from_mnemonic_with_index-ne-None phrases hmac curves scalars point scalars-IsField
      "legal winner" "" 5

abbrev phrase_seed : Bytes
phrase_seed = replicate 64 7

abbrev phrase_master : ℕ
phrase_master = suc (total (as_bytes "Bitcoin seed") + total phrase_seed)

-- the extended key at the end of the path, and that no step on it fails
found :
    (y : ExtendedKey scalars point toy_hmac) × (Ckd.descend scalars point toy_hmac
        (bip32_master scalars point toy_hmac phrase_seed phrase_master)
        (evm_account 5)
      ≡ some y)
unfolding bytes_eq as_bytes has_top_bit to_be_bytes
found = (_, refl)

mnemonic_signers-SignsForKey_example :
    ((n : NativeSigner curves) × (native_from_mnemonic phrases curves "legal winner" "" ≡ ok n)
      × (n ≡ native_from_seed curves (replicate 32 7))
      × SignsForKey toy {W = ℕ} (native_signer toy curves n))
    × ((n : SolanaSigner curves) × (solana_from_mnemonic_with_index phrases hmac curves
            "legal winner" "" 5
          ≡ ok n)
        × (n
            ≡ solana_from_seed curves
                (solana_key phrases hmac curves toy_hmac hmac-IsHmac "legal winner" "" 5))
        × SignsForKey toy {W = ℕ} (solana_signer toy curves n))
    × ((n : EvmSigner curves) × (evm_from_mnemonic_with_index phrases hmac curves scalars
            "legal winner" "" 5
          ≡ some (ok n))
        × (evm_from_seed curves (scalars.to_repr found.0.scalar) ≡ some n)
        × SignsForKey toy {W = ℕ} (evm_signer toy curves n))
mnemonic_signers-SignsForKey_example =
    mnemonic_signers-SignsForKey phrases hmac curves scalars point toy_hmac hmac-IsHmac
      scalars-IsField toy ℕ "legal winner" "" 5 "legal winner" phrase_master found.0
      curves-AcceptsOwn (omega arith) refl (scalars-IsField.from-to phrase_master) (ground arith)
      found.1
