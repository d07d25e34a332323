-- ===== src/Signers/Accepted.antt =====
-- What the verifier (crates/core/src/verifier.rs) makes of the signatures of the local signers
-- (crates/native/src/signers).
use morpheum_signing.Common.{
  ◌≡◌, refl, ap, ◌∙◌, inl, inr, Option, some, Bytes, length, Result, Result-cases, ok, arith,
}
use morpheum_signing.Proto.{SignMode}
use morpheum_signing.Error.{SigningError}
use morpheum_signing.Primitives.{Primitives}
use morpheum_signing.Types.WalletType.{default_sign_mode}
use morpheum_signing.Types.Address.{AccountId}
use morpheum_signing.Types.PublicKey.{PublicKey}
use morpheum_signing.Types.Signature.{Signature, to_bytes}
use morpheum_signing.Claim.{TradingKeyClaim}
use morpheum_signing.Verifier.Matrix.{Accepts, pure_ed25519, sha256_ecdsa}
use morpheum_signing.EndToEnd.{SignsForKey}
use morpheum_signing.Signers.{
  Curves, EvmSigner, native_from_seed, solana_from_seed, evm_from_seed, agent_new, native_signer,
  solana_signer, evm_sign, evm_signer, agent_signer,
}

-- What the curves promise: keys have the length of their kind, and a signature is verified by the
-- key that made it. The two modes are read back from the wire.
pub record AcceptsOwn (p : Primitives) (c : Curves) : Type 0 where
  pub ed25519_length : (key : c.SigningKey) → length (c.verifying_key key) ≡ 32
  pub ed25519_own :
      (key : c.SigningKey) (msg : Bytes)
      → p.verify_ed25519_bytes (c.verifying_key key) msg (c.sign key msg) ≡ ok tt
  pub secp256k1_length : (key : c.SecpSigningKey) → length (c.secp_verifying_key key) ≡ 33
  pub secp256k1_own :
      (key : c.SecpSigningKey) (msg sig : Bytes)
      → c.try_sign key msg ≡ ok sig
      → p.verify_secp256k1_bytes (c.secp_verifying_key key) msg sig ≡ ok tt
  pub ed25519_mode :
      p.sign_mode_of_i32 (p.sign_mode_to_i32 SignMode.ed25519) ≡ some SignMode.ed25519
  pub secp256k1_mode :
      p.sign_mode_of_i32 (p.sign_mode_to_i32 SignMode.secp256k1) ≡ some SignMode.secp256k1

evm_key :
    (c : Curves) (seed : Bytes) (s : EvmSigner c)
    → evm_from_seed c seed ≡ some s
    → s.verifying_key ≡ c.secp_verifying_key s.signing_key
unfolding evm_from_seed
evm_key c seed s h = elim (Result-cases (c.secp_from_slice seed)) [
  | inl (key, e) ↦ ground (arith, h, e)
  | inr (x, e) ↦ absurd (ground (arith, h, e))
]

evm_own :
    (p : Primitives) (c : Curves) (s : EvmSigner c) (doc : p.SignDoc) (signature : Signature)
    → evm_sign p c s doc ≡ ok signature
    → c.try_sign s.signing_key (p.encode_sign_doc doc) ≡ ok (to_bytes signature)
unfolding evm_sign to_bytes
evm_own p c s doc signature h = ground (arith, h)

module _ (p : Primitives) (c : Curves) {W : Type 0} (law : AcceptsOwn p c) where
  ed25519_accepted :
      (key : c.SigningKey) (doc : p.SignDoc) (w w' : W) (signature : Signature)
      → ◌≡◌ {A = Result SigningError Signature × W}
          (ok (Signature.ed25519 (c.sign key (p.encode_sign_doc doc))), w)
          (ok signature, w')
      → Accepts p
          (PublicKey.ed25519 (c.verifying_key key))
          (p.encode_sign_doc doc)
          (to_bytes signature)
          SignMode.ed25519
  unfolding to_bytes
  ed25519_accepted key doc w w' signature h =
      pure_ed25519 (c.verifying_key key) (inl refl) (inl refl)
        (ground (arith, h, law.ed25519_own key (p.encode_sign_doc doc)))

  native : (seed : Bytes) → SignsForKey p {W = W} (native_signer p c (native_from_seed c seed))
  unfolding native_signer native_from_seed default_sign_mode
  native seed = record {
    key_length = law.ed25519_length (c.from_bytes seed);
    published = refl;
    mode_read = law.ed25519_mode;
    sound = λ doc w w' signature h. ed25519_accepted (c.from_bytes seed) doc w w' signature h;
  }

  solana : (seed : Bytes) → SignsForKey p {W = W} (solana_signer p c (solana_from_seed c seed))
  unfolding solana_signer solana_from_seed default_sign_mode
  solana seed = record {
    key_length = law.ed25519_length (c.from_bytes seed);
    published = refl;
    mode_read = law.ed25519_mode;
    sound = λ doc w w' signature h. ed25519_accepted (c.from_bytes seed) doc w w' signature h;
  }

  agent :
      (seed : Bytes) (id : AccountId) (claim : Option TradingKeyClaim)
      → SignsForKey p {W = W} (agent_signer p c (agent_new c seed id claim))
  unfolding agent_signer agent_new default_sign_mode
  agent seed id claim = record {
    key_length = law.ed25519_length (c.from_bytes seed);
    published = refl;
    mode_read = law.ed25519_mode;
    sound = λ doc w w' signature h. ed25519_accepted (c.from_bytes seed) doc w w' signature h;
  }

  evm :
      (seed : Bytes) (s : EvmSigner c)
      → evm_from_seed c seed ≡ some s
      → SignsForKey p {W = W} (evm_signer p c s)
  unfolding evm_signer default_sign_mode
  evm seed s h = record {
    key_length = ap length (evm_key c seed s h) ∙ law.secp256k1_length s.signing_key;
    published = refl;
    mode_read = law.secp256k1_mode;
    sound = λ doc w w' signature e. sha256_ecdsa s.verifying_key refl (inl refl) (
        rw (evm_key c seed s h) (
          law.secp256k1_own s.signing_key (p.encode_sign_doc doc) (to_bytes signature)
            (evm_own p c s doc signature (ap (λ r. r.0) e))));
  }

  -- The native, the Solana, the agent's and the EVM signer that is made from a seed satisfy what the
  -- builder relies on: each publishes its own key, of the length of its kind, and every signature
  -- it returns is accepted for that key and its own mode, over the encoding of the document.
  pub local_signers-SignsForKey :
      (seed : Bytes) (id : AccountId) (claim : Option TradingKeyClaim)
      → SignsForKey p {W = W} (native_signer p c (native_from_seed c seed))
        × SignsForKey p {W = W} (solana_signer p c (solana_from_seed c seed))
        × SignsForKey p {W = W} (agent_signer p c (agent_new c seed id claim))
        × ((s : EvmSigner c)
            → evm_from_seed c seed ≡ some s
            → SignsForKey p {W = W} (evm_signer p c s))
  local_signers-SignsForKey seed id claim =
      (native seed, solana seed, agent seed id claim, evm seed)
