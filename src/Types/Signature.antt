-- ===== src/Types/Signature.antt =====
-- `Signature` of crates/core/src/types.rs.
use morpheum_signing.Common.{
  ℕ, zero, suc, ◌≡◌, refl, sym, ap, ◌↔◌, Bool, true, ◌&&◌, [], ◌∷◌, Bytes, length, replicate, arith,
  ◌==◌,
}
use mathlib.Core.Path.{subst}

pub data Signature : Type 0 where
  ed25519 : Bytes → Signature
  secp256k1 : Bytes → Signature
  schnorr : Bytes → Signature

unfoldable pub to_bytes : Signature → Bytes
to_bytes (ed25519 b) = b
to_bytes (secp256k1 b) = b
to_bytes (schnorr b) = b

-- `b.iter().all(|&x| x == 0)`
unfoldable pub all_zero : Bytes → Bool
all_zero [] = true
all_zero (x ∷ xs) = x == 0 && all_zero xs

unfoldable pub is_zero : Signature → Bool
unfolding all_zero
is_zero (ed25519 b) = all_zero b
is_zero (secp256k1 b) = all_zero b
is_zero (schnorr b) = all_zero b

unfoldable pub zeroize : Signature → Signature
zeroize (ed25519 b) = ed25519 (replicate (length b) 0)
zeroize (secp256k1 b) = secp256k1 (replicate (length b) 0)
zeroize (schnorr b) = schnorr (replicate (length b) 0)

all_zero→replicate : (b : Bytes) → all_zero b ≡ true → b ≡ replicate (length b) 0
unfolding all_zero
all_zero→replicate [] h = refl
all_zero→replicate (x ∷ xs) h = ground (arith, all_zero→replicate xs)

all_zero-replicate : (n : ℕ) → all_zero (replicate n 0) ≡ true
unfolding all_zero
all_zero-replicate zero = refl
all_zero-replicate (suc n) = all_zero-replicate n

is_zero_of_zeroize : (s : Signature) → is_zero (zeroize s) ≡ true
unfolding is_zero zeroize
is_zero_of_zeroize (ed25519 b) = all_zero-replicate (length b)
is_zero_of_zeroize (secp256k1 b) = all_zero-replicate (length b)
is_zero_of_zeroize (schnorr b) = all_zero-replicate (length b)

zeroize_of_is_zero : (s : Signature) → is_zero s ≡ true → zeroize s ≡ s
unfolding is_zero zeroize
zeroize_of_is_zero (ed25519 b) h = ap ed25519 (sym (all_zero→replicate b h))
zeroize_of_is_zero (secp256k1 b) h = ap secp256k1 (sym (all_zero→replicate b h))
zeroize_of_is_zero (schnorr b) h = ap schnorr (sym (all_zero→replicate b h))

-- A signature reads as unset exactly when wiping it changes nothing, and a wiped signature reads
-- as unset.
pub is_zero-zeroize :
    (s : Signature) → (is_zero (zeroize s) ≡ true) × ((is_zero s ≡ true) ↔ (zeroize s ≡ s))
is_zero-zeroize s = (
  is_zero_of_zeroize s,
  (zeroize_of_is_zero s, λ e. subst (λ t. is_zero t ≡ true) e (is_zero_of_zeroize s)),
)

-- Whether a signature is unset does not depend on its kind.
pub is_zero-to_bytes : (s : Signature) → is_zero (ed25519 (to_bytes s)) ≡ is_zero s
unfolding is_zero to_bytes
is_zero-to_bytes (ed25519 b) = refl
is_zero-to_bytes (secp256k1 b) = refl
is_zero-to_bytes (schnorr b) = refl
