-- ===== src/Signers/Builders.antt =====
-- The builders over the local signers (`native`, `solana`, `evm`, `agent` and `bitcoin` of
-- crates/native/src/lib.rs), and what becomes of their transactions.
use morpheum_signing.Common.{ℕ, ◌≡◌, ◌≢◌, refl, sym, Option, none, some, [], Bytes, ok, arith}
use mathlib.Core.Path.{subst}
use morpheum_signing.Proto.{Any, TxVerifyContext}
use morpheum_signing.Primitives.{Primitives}
use morpheum_signing.Types.Address.{AccountId}
use morpheum_signing.Types.Signature.{Signature}
use morpheum_signing.Types.SignedTx.{SignedTx}
use morpheum_signing.Claim.{TradingKeyClaim}
use morpheum_signing.Signer.{Signer}
use morpheum_signing.Builder.{TxBuilder, sign, resolve_nonce, nonce_with_claim_sub_start, now_secs}
use morpheum_signing.Builder.Setters
use morpheum_signing.Builder.Returns.{Answers, Agreed, Fits, sign_iff}
use morpheum_signing.EndToEnd.{SignsForKey, BindsFirst, AcceptedAs, sign-verify_signed_tx}
use morpheum_signing.Signers.{
  Curves, NativeSigner, SolanaSigner, EvmSigner, BitcoinSigner, AgentSigner, native_from_seed,
  solana_from_seed, evm_from_seed, native_signer, solana_signer, evm_sign, evm_signer,
  bitcoin_signer, agent_new, agent_signer,
}
use morpheum_signing.Signers.Accepted.{AcceptsOwn, local_signers-SignsForKey}

module _ (p : Primitives) (c : Curves) {W : Type 0} where
  unfoldable pub native : NativeSigner c → TxBuilder p W
  unfolding Setters.new
  native signer = Setters.new p (native_signer p c signer)

  unfoldable pub agent : AgentSigner c → TxBuilder p W
  unfolding Setters.new
  agent signer = Setters.new p (agent_signer p c signer)

  unfoldable pub evm : EvmSigner c → TxBuilder p W
  unfolding Setters.new
  evm signer = Setters.new p (evm_signer p c signer)

  unfoldable pub solana : SolanaSigner c → TxBuilder p W
  unfolding Setters.new
  solana signer = Setters.new p (solana_signer p c signer)

  unfoldable pub bitcoin : BitcoinSigner c → TxBuilder p W
  unfolding Setters.new
  bitcoin signer = Setters.new p (bitcoin_signer p c signer)

-- A builder that is bound to the chain of a node and holds one message.
abbrev pub addressed :
    (p : Primitives) {W : Type 0} → TxBuilder p W → TxVerifyContext → Any → TxBuilder p W
addressed p b ctx msg =
    Setters.add_message p
      (Setters.with_genesis_hash p (Setters.chain_id p b ctx.chain_id) ctx.genesis_hash) msg

-- A transaction of the builder is signed and accepted.
pub record Succeeds (p : Primitives) {W : Type 0} (clock : W → Option ℕ) (b : TxBuilder p W)
    (ctx : TxVerifyContext) (w : W) (now : ℕ) : Type 0 where
  pub signed : SignedTx
  pub after : W
  pub returned : sign p clock b w ≡ (ok signed, after)
  pub accepted : AcceptedAs p clock b ctx signed now none

Agreed-none : (p : Primitives) (stored : Option TradingKeyClaim) → Agreed p stored none
Agreed-none p none = tt
Agreed-none p (some c) = tt

module _ (p : Primitives) {W : Type 0} (clock : W → Option ℕ) where
  -- Without a claim, a manual nonce and a provider.
  plain :
      (b : TxBuilder p W) (ctx : TxVerifyContext) (w : W) (now : ℕ)
      → SignsForKey p b.signer
      → Answers p b.signer
      → BindsFirst p ctx
      → ctx.chain_id ≡ b.chain_id
      → ctx.genesis_hash ≡ b.genesis_hash
      → b.trading_key_claim ≡ none
      → b.manual_nonce ≡ none
      → b.nonce_provider ≡ none
      → b.messages ≢ []
      → b.genesis_hash ≢ []
      → Succeeds p clock b ctx w now
  unfolding resolve_nonce
  plain b ctx w now k a policy chain genesis claim manual provider messages bound =
      let nonce = nonce_with_claim_sub_start b.trading_key_claim in
      let (s, w', h) = (sign_iff p clock b w a).1 (record {
        messages = messages;
        bound = bound;
        agreed =
            subst (Agreed p b.signer.trading_key_claim) (sym claim)
              (Agreed-none p b.signer.trading_key_claim);
        nonce = nonce;
        before = w;
        nonce_from = ground (arith, manual, provider);
        fits = subst (λ x. Fits x nonce (now_secs clock w)) (sym claim) tt;
      }) in
      record {
        signed = s;
        after = w';
        returned = h;
        accepted = sign-verify_signed_tx p clock b ctx w s w' now k policy chain genesis claim h;
      }

  fresh :
      (signer : Signer p W) (ctx : TxVerifyContext) (msg : Any) (w : W) (now : ℕ)
      → SignsForKey p signer
      → Answers p signer
      → signer.trading_key_claim ≡ none
      → BindsFirst p ctx
      → ctx.genesis_hash ≢ []
      → Succeeds p clock (addressed p (Setters.new p signer) ctx msg) ctx w now
  unfolding Setters.new Setters.add_message Setters.with_genesis_hash Setters.chain_id
  fresh signer ctx msg w now k a unclaimed policy bound =
      plain (addressed p (Setters.new p signer) ctx msg) ctx w now k a policy refl refl unclaimed
        refl refl (λ e. cc e) bound

-- the builders over the signers that are made from a seed, the agent's without a stored claim
pub data FromSeed (p : Primitives) (c : Curves) {W : Type 0} (seed : Bytes) (id : AccountId)
    : TxBuilder p W → Type 0 where
  by_native : FromSeed p c seed id (native p c (native_from_seed c seed))
  by_solana : FromSeed p c seed id (solana p c (solana_from_seed c seed))
  by_agent : FromSeed p c seed id (agent p c (agent_new c seed id none))
  by_evm : (s : EvmSigner c) → evm_from_seed c seed ≡ some s → FromSeed p c seed id (evm p c s)

module _ (p : Primitives) (c : Curves) {W : Type 0} where
  evm-Answers :
      (s : EvmSigner c)
      → ((key : c.SecpSigningKey) (m : Bytes) → (sig : Bytes) × (c.try_sign key m ≡ ok sig))
      → Answers p {W = W} (evm_signer p c s)
  unfolding evm_signer evm_sign
  evm-Answers s total = record {
    answers = λ doc w.
        let (sig, e) = total s.signing_key (p.encode_sign_doc doc) in
        (Signature.secp256k1 sig, w, rw e);
  }

  -- Such a builder is a new one over a signer that signs for its key, answers and has no claim.
  FromSeed-new :
      {seed : Bytes} {id : AccountId} {b : TxBuilder p W}
      → AcceptsOwn p c
      → ((key : c.SecpSigningKey) (m : Bytes) → (sig : Bytes) × (c.try_sign key m ≡ ok sig))
      → FromSeed p c seed id b
      → (signer : Signer p W) × (b ≡ Setters.new p signer)
        × SignsForKey p signer
        × Answers p signer
        × (signer.trading_key_claim ≡ none)
  unfolding native solana agent evm evm_signer native_signer solana_signer agent_signer agent_new
  FromSeed-new {seed} {id} law total by_native =
      let (k, ks, ka, ke) = local_signers-SignsForKey p c law seed id none in
      (native_signer p c _, refl, k, record { answers = λ doc v. (_, v, refl) }, refl)
  FromSeed-new {seed} {id} law total by_solana =
      let (kn, k, ka, ke) = local_signers-SignsForKey p c law seed id none in
      (solana_signer p c _, refl, k, record { answers = λ doc v. (_, v, refl) }, refl)
  FromSeed-new {seed} {id} law total by_agent =
      let (kn, ks, k, ke) = local_signers-SignsForKey p c law seed id none in
      (agent_signer p c _, refl, k, record { answers = λ doc v. (_, v, refl) }, refl)
  FromSeed-new {seed} {id} law total (by_evm s e) =
      let (kn, ks, ka, k) = local_signers-SignsForKey p c law seed id none in
      (evm_signer p c s, refl, k s e, evm-Answers s total, refl)

  -- A builder over the native, the Solana or the EVM signer that is made from a seed, or over the
  -- agent's signer that is made from a seed without a stored claim, bound to the chain and genesis
  -- hash of a node, which is set, and with one message, signs its transaction, and the node accepts
  -- it for the account of the signer's key. The curves accept their own signatures, ECDSA never
  -- fails to sign, and the node's strictest preimage is the canonical document.
  pub local_builders-verify_signed_tx :
      (clock : W → Option ℕ) (seed : Bytes) (id : AccountId) (b : TxBuilder p W)
      (ctx : TxVerifyContext) (msg : Any) (w : W) (now : ℕ)
      → AcceptsOwn p c
      → ((key : c.SecpSigningKey) (m : Bytes) → (sig : Bytes) × (c.try_sign key m ≡ ok sig))
      → BindsFirst p ctx
      → ctx.genesis_hash ≢ []
      → FromSeed p c seed id b
      → Succeeds p clock (addressed p b ctx msg) ctx w now
  local_builders-verify_signed_tx clock seed id b ctx msg w now law total policy bound made =
      let (signer, is_new, k, a, unclaimed) = FromSeed-new law total made in
      subst (λ x. Succeeds p clock (addressed p x ctx msg) ctx w now) (sym is_new)
        (fresh p clock signer ctx msg w now k a unclaimed policy bound)
