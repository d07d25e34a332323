-- ===== src/Wallets/Asked.antt =====
-- What Phantom is asked to sign in the browser (crates/wasm-lib/src/phantom.rs), and what the
-- verifier (crates/core/src/verifier.rs) makes of it.
use morpheum_signing.Common.{
  ℕ, ◌≡◌, ◌≢◌, ◌⊎◌, Option, refl, sym, ◌∙◌, ◌∷◌, Bytes, as_bytes, Result, Result-cases, ok, err,
  map_err, inl, inr, arith,
}
use mathlib.Core.Path.{subst}
use Prim.Native.String.{◌++◌ as str_append}
use morpheum_signing.Error.{SigningError, wallet_adapter}
use morpheum_signing.Proto.{TxVerifyContext}
use morpheum_signing.Primitives.{Primitives}
use morpheum_signing.Exec.{Exec, pure, ◌>>=◌, >>=-eq-ok, pure-eq-ok}
use morpheum_signing.Types.Signature.{Signature, to_bytes}
use morpheum_signing.Types.SignedTx.{SignedTx}
use morpheum_signing.Builder.{TxBuilder, sign, signer_info, sign_doc}
use morpheum_signing.Builder.Covered.{Run, sign-Run}
use morpheum_signing.Verifier.{VerifiedTx, verify_signed_tx}
use morpheum_signing.Verifier.Dispatch.{extract_sign_mode}
use morpheum_signing.Verifier.Built.{verify_signed_tx-Checked}
use morpheum_signing.EndToEnd.Replay.{BindsAlways, Forged, rung_terms, Terms, document_bytes}
use morpheum_signing.Wallets.{Browser, Hex, catching}
use morpheum_signing.Wallets.Phantom.{
  Phantom, get_phantom_solana, exact_bytes, message_signature, phantom_sign_message,
  phantom_sign_impl,
}
use morpheum_signing.Wallets.WasmSigner.{phantom, wasm_signer, wasm_sign}

abbrev pub signature_bytes : {W : Type 0} (b : Browser W) → b.Value → Exec W Bytes
signature_bytes b =
    exact_bytes b "Phantom returned invalid signature length: "
      (wallet_adapter "Phantom signature is not a Uint8Array") 64

abbrev pub ask : {W : Type 0} (b : Browser W) → Bytes → b.Value → Exec W b.Value
ask b message provider =
    catching (λ e. wallet_adapter (str_append "Phantom signMessage failed: " (b.debug e)))
      (b.sign_bytes provider message)

abbrev pub signature_field : {W : Type 0} (b : Browser W) → b.Value → Exec W b.Value
signature_field b answer =
    catching (λ e. wallet_adapter "Phantom response missing 'signature'") (b.get answer "signature")

-- The wallet was asked once to sign `message`, and the signature is made of the field `signature`
-- of its answer.
pub record Asked {W : Type 0} (b : Browser W) (message : Bytes) (before : W) (sig : Signature)
    (after : W) : Type 0 where
  pub provider : b.Value
  pub w1 : W
  pub reached : get_phantom_solana b before ≡ (ok provider, w1)
  pub answer : b.Value
  pub w2 : W
  pub asked : b.sign_bytes provider message w1 ≡ (ok answer, w2)
  pub value : b.Value
  pub w3 : W
  pub field : b.get answer "signature" w2 ≡ (ok value, w3)
  pub bytes : Bytes
  pub sized : signature_bytes b value w3 ≡ (ok bytes, after)
  pub sig_is : sig ≡ Signature.ed25519 bytes

-- Inversion of a call that did not throw.
catching-eq-ok :
    {W V A : Type 0} (f : V → SigningError) (call : W → Result V A × W) (w : W) (a : A) (w' : W)
    → catching f call w ≡ (ok a, w')
    → call w ≡ (ok a, w')
catching-eq-ok {W} {V} {A} f call w a w' h = go (call w) h
  where
    go :
        (r : Result V A × W)
        → ◌≡◌ {A = Result SigningError A × W} (map_err f r.0, r.1) (ok a, w')
        → r ≡ (ok a, w')
    go (ok x, u) e = ground (arith, e)
    go (err x, u) e = absurd (ground (arith, e))

module _ (p : Primitives) {W : Type 0} (br : Browser W) where
  phantom_sign_impl-Asked :
      (a : Phantom) (doc : p.SignDoc) (before : W) (sig : Signature) (after : W)
      → phantom_sign_impl p br a doc before ≡ (ok sig, after)
      → Asked br (phantom_sign_message p doc) before sig after
  unfolding phantom_sign_impl message_signature
  phantom_sign_impl-Asked a doc before sig after h =
      let (value, w3, first, rest) =
        >>=-eq-ok (message_signature p br doc)
          (λ v. ◌>>=◌ (signature_bytes br v) (λ bs. pure (Signature.ed25519 bs))) before h in
      let (bytes, w4, sized, last) =
        >>=-eq-ok (signature_bytes br value) (λ bs. pure (Signature.ed25519 bs)) w3 rest in
      let (sig_is, same) = pure-eq-ok (Signature.ed25519 bytes) w4 last in
      let (provider, w1, reached, calls) =
        >>=-eq-ok (get_phantom_solana br)
          (λ y. ◌>>=◌ (ask br (phantom_sign_message p doc) y) (signature_field br)) before first in
      let (answer, w2, asked, field) =
        >>=-eq-ok (ask br (phantom_sign_message p doc) provider) (signature_field br) w1 calls in
      record {
        provider = provider;
        w1 = w1;
        reached = reached;
        answer = answer;
        w2 = w2;
        asked =
            catching-eq-ok _ (br.sign_bytes provider (phantom_sign_message p doc)) w1 answer w2
              asked;
        value = value;
        w3 = w3;
        field =
            catching-eq-ok (λ e. wallet_adapter "Phantom response missing 'signature'")
              (br.get answer "signature") w2 value w3 field;
        bytes = bytes;
        sized = cc (sized, same);
        sig_is = sig_is;
      }

module _ (p : Primitives) {W : Type 0} (br : Browser W) (x : Hex) (clock : W → Option ℕ)
    (b : TxBuilder p W) where
  abbrev pub AskedIn : (w : W) (s : SignedTx) (w' : W) → Run p clock b w s w' → Type 0
  AskedIn w s w' r =
      Asked br (phantom_sign_message p (sign_doc p b r.nonce r.options)) r.before r.signature w'

  run_asked :
      (a : Phantom) (w : W) (s : SignedTx) (w' : W)
      → b.signer ≡ wasm_signer p br x (phantom a)
      → (r : Run p clock b w s w') → AskedIn w s w' r
  unfolding wasm_signer wasm_sign
  run_asked a w s w' e r =
      phantom_sign_impl-Asked p br a (sign_doc p b r.nonce r.options) r.before r.signature w' (
        subst (λ g. g.sign (sign_doc p b r.nonce r.options) r.before ≡ (ok r.signature, w')) e
          r.signed)

  -- The message is no document: it begins with the letter M.
  begins : (doc : p.SignDoc) → (rest : Bytes) × (phantom_sign_message p doc ≡ 77 ∷ rest)
  unfolding phantom_sign_message as_bytes
  begins doc = (_, refl)

  -- A transaction that is signed with Phantom in the browser: the wallet was asked once to sign a
  -- prefix and the digest of the document, and its answer is the signature. So each node whose
  -- policy binds every preimage refuses the transaction, or the signature is a forgery, accepted for
  -- the wallet's key over a message that the wallet was not asked to sign. The encoding of a
  -- document does not begin with the letter M, which is the tag of no field of it.
  pub phantom-verify_signed_tx :
      (a : Phantom) (w : W) (s : SignedTx) (w' : W) (ctx : TxVerifyContext) (account_number now : ℕ)
      → BindsAlways p ctx
      → ((t : Terms) (rest : Bytes) → document_bytes p t ≢ 77 ∷ rest)
      → b.signer ≡ wasm_signer p br x (phantom a)
      → sign p clock b w ≡ (ok s, w')
      → ((r : Run p clock b w s w') × AskedIn w s w' r)
        × (((v : VerifiedTx) → verify_signed_tx p s ctx account_number now ≢ ok v)
            ⊎ ((r : Run p clock b w s w') × AskedIn w s w' r
                × Forged p b
                    (phantom_sign_message p (sign_doc p b r.nonce r.options))
                    (to_bytes r.signature)))
  phantom-verify_signed_tx a w s w' ctx account_number now policy tagged e h = (
    (sign-Run p clock b w s w' h, run_asked a w s w' e (sign-Run p clock b w s w' h)),
    elim (Result-cases (verify_signed_tx p s ctx account_number now)) [
      | inr (t, refused) ↦ inl (λ v accepted. ground (arith, refused, accepted))
      | inl (v, accepted) ↦
          (let c = verify_signed_tx-Checked p clock b ctx w s w' account_number now v h accepted in
            let document =
              rung_terms p clock b ctx s account_number c.verdict c.ladder c.rung c.binding
                c.preimage policy c.ladder_is c.on_ladder in
            let (rest, letter) = begins (sign_doc p b c.run.nonce c.run.options) in
            inr (
              c.run,
              run_asked a w s w' e c.run,
              record {
                key = c.key;
                key_is = c.key_is;
                mode = extract_sign_mode p (signer_info p b c.run.options);
                message = c.preimage;
                other = λ same. tagged _ rest (sym document ∙ same ∙ letter);
                accepts = c.accepts;
              },
            ))
    ],
  )
