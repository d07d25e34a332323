-- ===== src/Verifier/Matrix.antt =====
-- Which key and mode are verified, and how: `verify_signature` of crates/core/src/verifier.rs
-- against the table in its documentation.
use morpheum_signing.Common.{
  ℕ, suc, ◌≡◌, ◌==◌, if◌then◌else◌, refl, ◌↔◌, ◌⊎◌, inl, inr, true, [], ◌∷◌, ◌++◌, Bytes, length,
  take, take-last, take-append, as_bytes, length-append, ok, err, arith, Result, String, Bool,
  map_err, fail_if, ◌>>=◌,
}
use mathlib.Core.Bool.{not}
use Prim.Native.String.{◌++◌ as str_append}
use morpheum_signing.Proto.{SignMode}
use morpheum_signing.Error.{SigningError, crypto, signature_verification_failed}
use morpheum_signing.Primitives.{Primitives}
use morpheum_signing.Types.PublicKey.{PublicKey}
use morpheum_signing.Verifier.Dispatch.{
  verify_signature, verify_eip191_personal, strip_recovery, eip191_message, secp256k1_error,
}

-- a signature of 64 bytes, or one that a recovery byte follows
pub record IsSignature (sig compact : Bytes) : Type 0 where
  pub compact_length : length compact ≡ 64
  pub recovery : (sig ≡ compact) ⊎ ((v : ℕ) × (sig ≡ compact ++ (v ∷ [])))

-- A personal signature of EIP-191 by a known key.
pub record SignsPersonal (p : Primitives) (key doc sig : Bytes) : Type 0 where
  pub compact : Bytes
  pub verifying_key : p.VerifyingKey
  pub signature : p.SecpSig
  pub key_parses : p.verifying_key_of_sec1 key ≡ ok verifying_key
  pub sig_shape : IsSignature sig compact
  pub sig_parses : p.secp_sig_of_slice compact ≡ ok signature
  pub verifies : p.verify_prehash verifying_key (p.keccak256 (eip191_message doc)) signature ≡ true

-- The rows of the table.
pub data Accepts (p : Primitives) (key : PublicKey) (doc sig : Bytes) (mode : SignMode)
    : Type 0 where
  pure_ed25519 :
      (b : Bytes)
      → (key ≡ PublicKey.ed25519 b) ⊎ (key ≡ PublicKey.agent b)
      → (mode ≡ SignMode.ed25519) ⊎ (mode ≡ SignMode.gasless_ed25519)
      → p.verify_ed25519_bytes b doc sig ≡ ok tt
      → Accepts p key doc sig mode
  solana :
      (b : Bytes)
      → (key ≡ PublicKey.ed25519 b) ⊎ (key ≡ PublicKey.agent b)
      → mode ≡ SignMode.solana_offchain
      → p.verify_ed25519_bytes b (as_bytes (p.hex_encode doc)) sig ≡ ok tt
      → Accepts p key doc sig mode
  sha256_ecdsa :
      (b : Bytes)
      → key ≡ PublicKey.secp256k1 b
      → (mode ≡ SignMode.secp256k1) ⊎ (mode ≡ SignMode.ecdsa_legacy)
      → p.verify_secp256k1_bytes b doc sig ≡ ok tt
      → Accepts p key doc sig mode
  keccak_ecdsa :
      (b : Bytes)
      → key ≡ PublicKey.secp256k1 b
      → mode ≡ SignMode.keccak256
      → p.verify_secp256k1_keccak_bytes b doc sig ≡ ok tt
      → Accepts p key doc sig mode
  personal :
      (b : Bytes)
      → key ≡ PublicKey.secp256k1 b
      → mode ≡ SignMode.eip191_personal
      → SignsPersonal p b doc sig
      → Accepts p key doc sig mode
  ecrecover :
      (address : Bytes)
      → key ≡ PublicKey.evm_address address
      → mode ≡ SignMode.eip191_personal
      → p.eip191_ecrecover_verify address doc sig ≡ ok tt
      → Accepts p key doc sig mode

strips :
    (n : ℕ) (sig compact : Bytes) (e : SigningError)
    → (if length sig == suc n then ok (take n sig) else if length sig == n then ok sig else err e)
      ≡ ok compact
    → (length compact ≡ n) × ((sig ≡ compact) ⊎ ((v : ℕ) × (sig ≡ compact ++ (v ∷ []))))
strips n sig compact e h = ground (arith, take-last n sig)

strip_recovery→ : (sig compact : Bytes) → strip_recovery sig ≡ ok compact → IsSignature sig compact
unfolding strip_recovery
strip_recovery→ sig compact h =
    let (n, r) = strips 64 sig compact _ h in record { compact_length = n; recovery = r }

strips_back :
    (n : ℕ) (sig compact : Bytes) (e : SigningError)
    → length compact ≡ n
    → (sig ≡ compact) ⊎ ((v : ℕ) × (sig ≡ compact ++ (v ∷ [])))
    → (if length sig == suc n then ok (take n sig) else if length sig == n then ok sig else err e)
      ≡ ok compact
strips_back n sig compact e h (inl q) = ground arith
strips_back n sig compact e h (inr (v, q)) =
    ground (arith, take-append n compact (v ∷ []), length-append compact (v ∷ []))

→strip_recovery : (sig compact : Bytes) → IsSignature sig compact → strip_recovery sig ≡ ok compact
unfolding strip_recovery
→strip_recovery sig compact s = strips_back 64 sig compact _ s.compact_length s.recovery

-- The bytes of a personal signature are accepted with and without the recovery byte.
pub strip_recovery_iff :
    (sig compact : Bytes) → (strip_recovery sig ≡ ok compact) ↔ IsSignature sig compact
strip_recovery_iff sig compact = (strip_recovery→ sig compact, →strip_recovery sig compact)

module _ (p : Primitives) where
  checks :
      (signature : Result String p.SecpSig) (test : p.SecpSig → Bool) (e : String → SigningError)
      (x : SigningError)
      → (do s ← map_err e signature; fail_if (not (test s)) x) ≡ ok tt
      → (s : p.SecpSig) × (signature ≡ ok s) × (test s ≡ true)
  checks (ok s) test e x h = (s, refl, ground arith)
  checks (err m) test e x h = ground arith

  verify_eip191_personal→ :
      (key doc sig : Bytes)
      → verify_eip191_personal p key doc sig ≡ ok tt
      → SignsPersonal p key doc sig
  unfolding verify_eip191_personal
  verify_eip191_personal→ key doc sig h =
      go (p.verifying_key_of_sec1 key) refl (strip_recovery sig) refl h
    where
      go :
          (k : Result String p.VerifyingKey)
          → p.verifying_key_of_sec1 key ≡ k
          → (c : Result SigningError Bytes) → strip_recovery sig ≡ c
          → (do
            verifying_key ←
                map_err (λ e. secp256k1_error (str_append "invalid secp256k1 public key: " e)) k
            sig_data ← c
            signature ←
                map_err
                  (λ e. secp256k1_error (str_append "invalid EIP-191 secp256k1 signature: " e))
                  (p.secp_sig_of_slice sig_data)
            fail_if
                (not (p.verify_prehash verifying_key (p.keccak256 (eip191_message doc)) signature))
                (crypto signature_verification_failed))
            ≡ ok tt
          → SignsPersonal p key doc sig
      go (ok k) ek (ok c) ec h1 =
          let (s, es, t) =
            checks (p.secp_sig_of_slice c) (p.verify_prehash k (p.keccak256 (eip191_message doc))) _
              _ h1 in
          record {
            compact = c;
            verifying_key = k;
            signature = s;
            key_parses = ek;
            sig_shape = strip_recovery→ sig c ec;
            sig_parses = es;
            verifies = t;
          }
      go (ok k) ek (err e) ec h1 = ground arith
      go (err e) ek c ec h1 = ground arith

  →verify_eip191_personal :
      (key doc sig : Bytes)
      → SignsPersonal p key doc sig
      → verify_eip191_personal p key doc sig ≡ ok tt
  unfolding verify_eip191_personal
  →verify_eip191_personal key doc sig s =
      ground
        (arith, s.key_parses, s.sig_parses, s.verifies, →strip_recovery sig s.compact s.sig_shape)

  verify_signature→ :
      (key : PublicKey) (doc sig : Bytes) (mode : SignMode)
      → verify_signature p key doc sig mode ≡ ok tt
      → Accepts p key doc sig mode
  unfolding verify_signature
  verify_signature→ (PublicKey.ed25519 b) doc sig SignMode.ed25519 h =
      pure_ed25519 b (inl refl) (inl refl) (ground arith)
  verify_signature→ (PublicKey.ed25519 b) doc sig SignMode.gasless_ed25519 h =
      pure_ed25519 b (inl refl) (inr refl) (ground arith)
  verify_signature→ (PublicKey.agent b) doc sig SignMode.ed25519 h =
      pure_ed25519 b (inr refl) (inl refl) (ground arith)
  verify_signature→ (PublicKey.agent b) doc sig SignMode.gasless_ed25519 h =
      pure_ed25519 b (inr refl) (inr refl) (ground arith)
  verify_signature→ (PublicKey.ed25519 b) doc sig SignMode.solana_offchain h =
      solana b (inl refl) refl (ground arith)
  verify_signature→ (PublicKey.agent b) doc sig SignMode.solana_offchain h =
      solana b (inr refl) refl (ground arith)
  verify_signature→ (PublicKey.secp256k1 b) doc sig SignMode.secp256k1 h =
      sha256_ecdsa b refl (inl refl) (ground arith)
  verify_signature→ (PublicKey.secp256k1 b) doc sig SignMode.ecdsa_legacy h =
      sha256_ecdsa b refl (inr refl) (ground arith)
  verify_signature→ (PublicKey.secp256k1 b) doc sig SignMode.keccak256 h =
      keccak_ecdsa b refl refl (ground arith)
  verify_signature→ (PublicKey.secp256k1 b) doc sig SignMode.eip191_personal h =
      personal b refl refl (verify_eip191_personal→ b doc sig h)
  verify_signature→ (PublicKey.evm_address b) doc sig SignMode.eip191_personal h =
      ecrecover b refl refl (ground arith)
  verify_signature→ _ doc sig _ h = ground arith

  →verify_signature :
      (key : PublicKey) (doc sig : Bytes) (mode : SignMode)
      → Accepts p key doc sig mode
      → verify_signature p key doc sig mode ≡ ok tt
  unfolding verify_signature
  →verify_signature key doc sig mode (pure_ed25519 b k m h) = ground arith
  →verify_signature key doc sig mode (solana b k m h) = ground arith
  →verify_signature key doc sig mode (sha256_ecdsa b k m h) = ground arith
  →verify_signature key doc sig mode (keccak_ecdsa b k m h) = ground arith
  →verify_signature key doc sig mode (personal b k m s) =
      ground (arith, →verify_eip191_personal b doc sig s)
  →verify_signature key doc sig mode (ecrecover b k m h) = ground arith

  -- A signature is accepted exactly when it stands in a row of the table: the kind of the key and
  -- the mode select the verifier, the digest and the message form, and that verifier accepts.
  pub verify_signature_iff :
      (key : PublicKey) (doc sig : Bytes) (mode : SignMode)
      → (verify_signature p key doc sig mode ≡ ok tt) ↔ Accepts p key doc sig mode
  verify_signature_iff key doc sig mode =
      (verify_signature→ key doc sig mode, →verify_signature key doc sig mode)
