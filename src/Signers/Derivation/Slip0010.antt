-- ===== src/Signers/Derivation/Slip0010.antt =====
-- `slip0010_derive` (crates/native/src/signers/solana.rs), against the derivation that SLIP-10
-- describes for Ed25519.
use morpheum_signing.Common.{
  ℕ, ◌≡◌, refl, Bool, true, ◌&&◌, inl, inr, String, List, [], ◌∷◌, ◌++◌, Bytes, as_bytes,
  to_be_bytes, has_top_bit, take, drop, Bool-cases, Result, ok, err, ◌>>=◌, if◌then◌else◌,
}
use mathlib.Core.Bool.{not}
use mathlib.Core.List.{append-nil}
use morpheum_signing.Signers.Derivation.{
  Hmac, IsHmac, Node, halves, digest, digest_lem, IsSized, halves-IsSized,
}

unfoldable pub hardened_only : String
hardened_only = "SLIP-0010 Ed25519 only supports hardened derivation"

module _ (h : Hmac) where
  -- the body of the loop
  unfoldable pub hardened_child : Node → ℕ → Result String Node
  unfolding halves digest
  hardened_child node index = if not (has_top_bit index) then err hardened_only else do
    result ← digest h node.chain_code ((0 ∷ []) ∷ node.key ∷ to_be_bytes index ∷ [])
    ok (halves result)

  -- the loop over the path
  unfoldable pub walk : Node → List ℕ → Result String Bytes
  unfolding hardened_child
  walk node [] = ok node.key
  walk node (index ∷ path) = do child ← hardened_child node index; walk child path

  unfoldable pub slip0010_derive : Bytes → List ℕ → Result String Bytes
  unfolding walk halves digest
  slip0010_derive seed path = do
    result ← digest h (as_bytes "ed25519 seed") (seed ∷ [])
    walk (halves result) path

abbrev pub all_hardened : List ℕ → Bool
all_hardened [] = true
all_hardened (index ∷ path) = has_top_bit index && all_hardened path

-- SLIP-10: I = HMAC-SHA512(c_par, 0x00 || k_par || ser32(i)), of which the left half is the child's
-- key and the right half its chain code; the master is made from the seed under "ed25519 seed".
module _ (hmac_sha512 : Bytes → Bytes → Bytes) where
  -- the left and the right 32 bytes of a digest
  abbrev pub split : Bytes → Node
  split i = record { key = take 32 i; chain_code = drop 32 i }

  abbrev pub ckd_priv : Node → ℕ → Node
  ckd_priv node index = split (hmac_sha512 node.chain_code (0 ∷ (node.key ++ to_be_bytes index)))

  abbrev pub descend : Node → List ℕ → Node
  descend node [] = node
  descend node (index ∷ path) = descend (ckd_priv node index) path

  abbrev pub slip10_master : Bytes → Node
  slip10_master seed = split (hmac_sha512 (as_bytes "ed25519 seed") seed)

module _ (h : Hmac) (hmac_sha512 : Bytes → Bytes → Bytes) (law : IsHmac h hmac_sha512) where
  hardened_child_lem :
      (node : Node) (index : ℕ)
      → hardened_child h node index
        ≡ (if has_top_bit index then ok (ckd_priv hmac_sha512 node index) else err hardened_only)
  unfolding hardened_child halves
  hardened_child_lem node index = elim (Bool-cases (has_top_bit index)) [
    | inl set ↦ rw set (
        rw
          (digest_lem h hmac_sha512 law node.chain_code
            ((0 ∷ []) ∷ node.key ∷ to_be_bytes index ∷ []))
          (rw (append-nil (to_be_bytes index)) refl))
    | inr unset ↦ rw unset refl
  ]

  walk_lem :
      (node : Node) (path : List ℕ)
      → walk h node path
        ≡ (if all_hardened path then ok (descend hmac_sha512 node path).key else err hardened_only)
  unfolding walk
  walk_lem node [] = refl
  walk_lem node (index ∷ path) = elim (Bool-cases (has_top_bit index)) [
    | inl set ↦
        rw (hardened_child_lem node index)
          (rw set (walk_lem (ckd_priv hmac_sha512 node index) path))
    | inr unset ↦ rw (hardened_child_lem node index) (rw unset refl)
  ]

  -- On a path of hardened indices alone the derivation returns the key that SLIP-10 describes; on
  -- any other path it returns its one error. It does nothing else, given that HMAC takes keys of
  -- any length.
  pub slip0010_derive_lem :
      (seed : Bytes) (path : List ℕ)
      → slip0010_derive h seed path ≡ (
          if all_hardened path
          then ok (descend hmac_sha512 (slip10_master hmac_sha512 seed) path).key
          else err hardened_only)
  unfolding slip0010_derive halves
  slip0010_derive_lem seed path =
      rw (digest_lem h hmac_sha512 law (as_bytes "ed25519 seed") (seed ∷ []))
        (rw (append-nil seed) (walk_lem (slip10_master hmac_sha512 seed) path))

  descend-IsSized :
      (node : Node) (path : List ℕ) → IsSized node → IsSized (descend hmac_sha512 node path)
  unfolding halves
  descend-IsSized node [] sized = sized
  descend-IsSized node (index ∷ path) sized =
      descend-IsSized (ckd_priv hmac_sha512 node index) path
        (halves-IsSized _ (law.digest_length node.chain_code (0 ∷ (node.key ++ to_be_bytes index))))

  -- Every key on the way has 32 bytes, and every chain code too.
  pub derived-IsSized :
      (seed : Bytes) (path : List ℕ)
      → IsSized (descend hmac_sha512 (slip10_master hmac_sha512 seed) path)
  unfolding halves
  derived-IsSized seed path =
      descend-IsSized (slip10_master hmac_sha512 seed) path
        (halves-IsSized _ (law.digest_length (as_bytes "ed25519 seed") seed))
