-- ===== src/Signers/Derivation/Bip32/Nonzero.antt =====
-- What `bip32_derive` (crates/native/src/signers/evm.rs) returns is a signing key.
use morpheum_signing.Common.{
  ℕ, ◌≡◌, false, inl, inr, List, [], ◌∷◌, Bytes, take, Bool-cases, ok, map_err, ok_or, >>=-eq-ok,
  arith,
}
use mathlib.Core.Path.{subst}
use morpheum_signing.Signers.{Curves}
use morpheum_signing.Signers.Derivation.{Hmac, Node, halves, digest}
use morpheum_signing.Signers.Derivation.Bip32.{
  Scalars, parent_chunks, tweaked, child, walk, bip32_derive,
}

-- A key that the derivation returns over a path that is not empty is the 32 bytes of a scalar that
-- is not zero.
module _ (h : Hmac) (c : Curves) (k : Scalars) where
  abbrev pub IsNonzero : Bytes → Type 0
  IsNonzero key = (s : k.Scalar) × (key ≡ k.to_repr s) × (k.is_zero s ≡ false)

  tweaked-Nonzero :
      (node next : Node) (result : Bytes) → tweaked k node result ≡ ok next → IsNonzero next.key
  unfolding tweaked
  tweaked-Nonzero node next result e =
      let (parent, a, e1) = >>=-eq-ok (ok_or (k.from_repr node.key) _) _ e in
      let (tweak, b, e2) = >>=-eq-ok (ok_or (k.from_repr (take 32 result)) _) _ e1 in
      elim (Bool-cases (k.is_zero (k.add parent tweak))) [
        | inl z ↦ absurd (ground (arith, e2, z))
        | inr z ↦ (k.add parent tweak, ground (arith, e2, z), z)
      ]

  child-Nonzero :
      (node next : Node) (index : ℕ) → child h c k node index ≡ ok next → IsNonzero next.key
  unfolding child
  child-Nonzero node next index e =
      let (mac, a, e1) = >>=-eq-ok (map_err _ (h.new_from_slice node.chain_code)) _ e in
      let (chunks, b, e2) = >>=-eq-ok (parent_chunks c node index) _ e1 in
      tweaked-Nonzero node next _ e2

  walk-Nonzero :
      (node : Node) (path : List ℕ) (key : Bytes)
      → IsNonzero node.key
      → walk h c k node path ≡ ok key
      → IsNonzero key
  unfolding walk
  walk-Nonzero node [] key nz e =
      let same : node.key ≡ key = ground (arith, e) in subst IsNonzero same nz
  walk-Nonzero node (index ∷ path) key nz e =
      let (next, a, e1) = >>=-eq-ok (child h c k node index) _ e in
      walk-Nonzero next path key (child-Nonzero node next index a) e1

  pub bip32_derive-Nonzero :
      (seed : Bytes) (index : ℕ) (path : List ℕ) (key : Bytes)
      → bip32_derive h c k seed (index ∷ path) ≡ ok key
      → IsNonzero key
  unfolding bip32_derive walk
  bip32_derive-Nonzero seed index path key e =
      let (result, a, e1) = >>=-eq-ok (digest h _ (seed ∷ [])) _ e in
      let (next, b, e2) = >>=-eq-ok (child h c k (halves result) index) _ e1 in
      walk-Nonzero next path key (child-Nonzero (halves result) next index b) e2
