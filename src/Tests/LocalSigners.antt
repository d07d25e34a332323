-- ===== src/Tests/LocalSigners.antt =====
-- The local signers over toy curves.
use morpheum_signing.Common.{
  ℕ, ◌≡◌, ◌≢◌, refl, none, some, length, replicate, bytes_eq_refl, ok, arith,
}
use morpheum_signing.Types.Signature.{Signature}
use morpheum_signing.Types.SignedTx.{SignedTx}
use morpheum_signing.Builder.{
  TxBuilder, sign, preconditions, resolve_nonce, embed_claim, check_stored_claim, assemble,
  sign_doc,
}
use morpheum_signing.EndToEnd.{SignsForKey}
use morpheum_signing.Verifier.{verify_signed_tx}
use morpheum_signing.Signers.{
  Curves, EvmSigner, BitcoinSigner, native_from_seed, native_signer, solana_from_seed,
  solana_signer, evm_from_seed, evm_signer, agent_new, agent_signer, bitcoin_signer,
}
use morpheum_signing.Signers.Accepted.{AcceptsOwn, local_signers-SignsForKey}
use morpheum_signing.Signers.Refused.{bitcoin_signer-verify_signed_tx}
use morpheum_signing.Tests.Toy.{toy, clock, builder, nonce, ctx, key, signature_by}
use morpheum_signing.Tests.Signing.{accepted_claim}

-- a key is a number, of which the public key is made
abbrev pub curves : Curves
curves = record {
  SigningKey = ℕ;
  from_bytes = λ seed. length seed;
  verifying_key = λ k. replicate 32 k;
  sign = λ k msg. signature_by (replicate 32 k) msg;
  SecpSigningKey = ℕ;
  secp_from_slice = λ seed. ok (length seed);
  secp_verifying_key = λ k. replicate 33 k;
  try_sign = λ k msg. ok (signature_by (replicate 33 k) msg);
  Keypair = ℕ;
  from_seckey_slice = λ seed. ok (length seed);
  x_only_public_key = λ k. replicate 32 k;
  sign_schnorr_no_aux_rand = λ digest k. signature_by (replicate 32 k) digest;
}

pub curves-AcceptsOwn : AcceptsOwn toy curves
curves-AcceptsOwn = record {
  ed25519_length = λ k. refl;
  ed25519_own = λ k msg. rw (bytes_eq_refl (signature_by (replicate 32 k) msg)) refl;
  secp256k1_length = λ k. refl;
  secp256k1_own =
      λ k msg sig e. ground (arith, e, bytes_eq_refl (signature_by (replicate 33 k) msg));
  ed25519_mode = refl;
  secp256k1_mode = refl;
}

local_signers-SignsForKey_example :
    SignsForKey toy {W = ℕ} (native_signer toy curves (native_from_seed curves key))
    × SignsForKey toy {W = ℕ} (solana_signer toy curves (solana_from_seed curves key))
    × SignsForKey toy {W = ℕ}
        (agent_signer toy curves (agent_new curves key (record { id = key }) none))
    × ((s : EvmSigner curves)
        → evm_from_seed curves key ≡ some s
        → SignsForKey toy {W = ℕ} (evm_signer toy curves s))
local_signers-SignsForKey_example =
    local_signers-SignsForKey toy curves curves-AcceptsOwn key (record { id = key }) none

abbrev bitcoin : BitcoinSigner curves
bitcoin = record { keypair = 5; x_only_pubkey = replicate 32 5 }

abbrev bitcoin_builder : TxBuilder toy ℕ
bitcoin_builder = record builder { signer = bitcoin_signer toy curves bitcoin }

abbrev bitcoin_signed : SignedTx
bitcoin_signed =
    assemble toy bitcoin_builder nonce none
      (Signature.schnorr (signature_by (replicate 32 5) (sign_doc toy bitcoin_builder nonce none)))

bitcoin_signs : sign toy clock bitcoin_builder 3 ≡ (ok bitcoin_signed, 3)
unfolding sign preconditions resolve_nonce embed_claim check_stored_claim bitcoin_signer
bitcoin_signs = refl

bitcoin_signer-verify_signed_tx_example :
    verify_signed_tx toy bitcoin_signed ctx 0 7 ≢ ok accepted_claim.verified
bitcoin_signer-verify_signed_tx_example =
    bitcoin_signer-verify_signed_tx toy curves clock bitcoin_builder bitcoin 3 bitcoin_signed 3 ctx
      0 7 accepted_claim.verified refl bitcoin_signs
