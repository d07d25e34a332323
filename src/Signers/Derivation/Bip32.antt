-- ===== src/Signers/Derivation/Bip32.antt =====
-- `bip32_derive` (crates/native/src/signers/evm.rs). The scalars of secp256k1 (the k256 crate) are
-- parameters.
pub mod CkdPriv
pub mod Nonzero
use morpheum_signing.Common.{
  ℕ, ◌≡◌, refl, sym, ap, ◌∙◌, Bool, true, false, inl, inr, String, Option, none, some, List, [],
  ◌∷◌, ◌++◌, Bytes, take, drop, as_bytes, to_be_bytes, has_top_bit, Bool-cases, Option-cases,
  Result, ok, err, map_err, ok_or, fail_if, ◌>>=◌, ◌>>◌, >>=-eq-ok, if◌then◌else◌, arith,
}
use mathlib.Core.List.{append-nil}
use mathlib.Core.Option
use mathlib.Core.Path.{subst}
use morpheum_signing.Signers.{Curves}
use morpheum_signing.Signers.Derivation.{
  Hmac, IsHmac, Node, halves, feed, concat, key_creation_failed, digest, digest_lem,
}

-- `k256::Scalar`
pub record Scalars : Type 1 where
  pub Scalar : Type 0
  pub from_repr : Bytes → Option Scalar
  pub to_repr : Scalar → Bytes
  pub add : Scalar → Scalar → Scalar
  pub is_zero : Scalar → Bool

-- what goes into the digest before the index
unfoldable pub parent_chunks : (c : Curves) → Node → ℕ → Result String (List Bytes)
parent_chunks c node index = if has_top_bit index then ok ((0 ∷ []) ∷ node.key ∷ []) else do
  sk ← map_err (λ e. "invalid derived key") (c.secp_from_slice node.key)
  ok (c.secp_verifying_key sk ∷ [])

-- the sum of the scalars, if both are valid and it is not zero
unfoldable pub tweaked : (k : Scalars) → Node → Bytes → Result String Node
tweaked k node result = do
  parent ← ok_or (k.from_repr node.key) "invalid parent key scalar"
  tweak ← ok_or (k.from_repr (take 32 result)) "invalid tweak scalar"
  fail_if (k.is_zero (k.add parent tweak)) "derived key is zero"
  ok (record { key = k.to_repr (k.add parent tweak); chain_code = drop 32 result })

module _ (h : Hmac) (c : Curves) (k : Scalars) where
  -- the body of the loop
  unfoldable pub child : Node → ℕ → Result String Node
  unfolding parent_chunks tweaked
  child node index = do
    mac ← map_err (λ e. key_creation_failed) (h.new_from_slice node.chain_code)
    chunks ← parent_chunks c node index
    tweaked k node (h.finalize (feed h mac (chunks ++ (to_be_bytes index ∷ []))))

  unfoldable pub walk : Node → List ℕ → Result String Bytes
  unfolding child
  walk node [] = ok node.key
  walk node (index ∷ path) = do next ← child node index; walk next path

  unfoldable pub bip32_derive : Bytes → List ℕ → Result String Bytes
  unfolding walk halves digest
  bip32_derive seed path = do
    result ← digest h (as_bytes "Bitcoin seed") (seed ∷ [])
    walk (halves result) path
