-- ===== src/Verifier/Scope.antt =====
-- Consequences for the claim that `verify_signed_tx` (crates/core/src/verifier.rs) returns, and the
-- safety of its indexing.
use morpheum_signing.Common.{
  ℕ, suc, ◌≤◌, ◌<◌, ◌≡◌, refl, sym, ◌∙◌, Option, none, some, List, [], ◌∷◌, Bytes, get_elem?, ok,
  arith, inl, inr, ◌⊎◌,
}
use mathlib.Core.Path.{subst}
use morpheum_signing.Proto.{SignerInfo, ClaimOptions, Nonce, TxVerifyContext}
use morpheum_signing.Primitives.{Primitives}
use morpheum_signing.Types.PublicKey.{PublicKey, to_account_id}
use morpheum_signing.Types.SignedTx.{SignedTx}
use morpheum_signing.Claim.{TradingKeyClaim, decode_from_signing_options}
use morpheum_signing.Claim.Validity.{IsValid}
use morpheum_signing.Verifier.{VerifiedTx, verify_signed_tx}
use morpheum_signing.Verifier.Loop.{Permits, PermitsEach, or_else}
use morpheum_signing.Verifier.Signers.{Signers}
use morpheum_signing.Verifier.Summary.{accounts, last_claim}
use morpheum_signing.Verifier.Sound.{verify_signed_tx_iff}

-- The scope in which a claim is returned with a transaction.
pub record InScope (c : TradingKeyClaim) (now : ℕ) (v : VerifiedTx) : Type 0 where
  pub valid : IsValid c now
  pub signer : ℕ
  pub issuer : get_elem? v.account_ids signer ≡ some c.issuer
  pub nonce : Nonce
  pub nonce_is : v.nonce ≡ some nonce
  pub start : c.nonce_sub_range_start ≤ nonce.sub
  pub end : nonce.sub < c.nonce_sub_range_end

or_else-eq-some :
    (l o : Option TradingKeyClaim) (c : TradingKeyClaim)
    → or_else l o ≡ some c
    → (l ≡ some c) ⊎ (o ≡ some c)
or_else-eq-some none o c h = inr h
or_else-eq-some (some d) o c h = inl h

module _ (p : Primitives) where
  Permits-some :
      (tx_nonce : Option Nonce) (now : ℕ) (key : PublicKey) (o : Option TradingKeyClaim)
      (c : TradingKeyClaim)
      → PermitsEach p tx_nonce now key o
      → o ≡ some c
      → Permits p tx_nonce now key c
  Permits-some tx_nonce now key none c q e = ground arith
  Permits-some tx_nonce now key (some d) c q e =
      subst (Permits p tx_nonce now key) (ground (arith, e)) q

  Issued : List (PublicKey × Option TradingKeyClaim) → Option Nonce → ℕ → TradingKeyClaim → Type 0
  Issued seen tx_nonce now c =
      (at : ℕ) × (key : PublicKey) × (get_elem? (accounts p seen) at ≡ some (to_account_id p key))
      × Permits p tx_nonce now key c

  carried :
      (ladder : List (p.Binding × Bytes)) (sigs : List Bytes) (tx_nonce : Option Nonce) (now i : ℕ)
      (infos : List SignerInfo) (seen : List (PublicKey × Option TradingKeyClaim))
      (c : TradingKeyClaim)
      → Signers p ladder sigs tx_nonce now i infos seen
      → last_claim p seen ≡ some c
      → Issued seen tx_nonce now c
  unfolding Issued
  carried ladder sigs tx_nonce now i [] [] c all h = ground arith
  carried ladder sigs tx_nonce now i [] (s ∷ seen) c all h = absurd all
  carried ladder sigs tx_nonce now i (si ∷ rest) [] c all h = absurd all
  carried ladder sigs tx_nonce now i (si ∷ rest) ((key, found) ∷ seen) c (a, all) h =
      elim (or_else-eq-some (last_claim p seen) found c h) [
        | inl e ↦
            let (at, k, e2, q) = carried ladder sigs tx_nonce now (suc i) rest seen c all e in
            (suc at, k, e2, q)
        | inr e ↦ (0, key, refl, Permits-some tx_nonce now key found c a.permits e)
      ]

  -- A claim that is returned with a transaction is in scope: it has not expired, its sub-range is
  -- not empty, its signature is not all zeros, its issuer is one of the accounts of the
  -- transaction's own signers, and the transaction carries a nonce whose sub it covers.
  pub verify_signed_tx-InScope :
      (s : SignedTx) (ctx : TxVerifyContext) (account_number now : ℕ) (v : VerifiedTx)
      (c : TradingKeyClaim)
      → verify_signed_tx p s ctx account_number now ≡ ok v
      → v.trading_key_claim ≡ some c
      → InScope c now v
  unfolding Issued
  verify_signed_tx-InScope s ctx account_number now v c h e =
      let a = (verify_signed_tx_iff p s ctx account_number now v).0 h in
      let (at, key, e2, q) =
        carried a.ladder s.tx.signatures s.tx.nonce now 0 v.auth_info.signer_infos a.seen c
          a.signers (sym a.claim ∙ e) in
      record {
        valid = q.valid;
        signer = at;
        issuer = ground (arith, a.account_ids, e2, q.issuer);
        nonce = q.nonce;
        nonce_is = a.nonce ∙ q.nonce_is;
        start = q.start;
        end = q.end;
      }

  -- An accepted transaction with one signer whose options hold a claim returns one account, the
  -- issuer of that claim.
  pub first_claim-issuer :
      (s : SignedTx) (ctx : TxVerifyContext) (account_number now : ℕ) (v : VerifiedTx)
      (si : SignerInfo) (opts : ClaimOptions) (c : TradingKeyClaim)
      → verify_signed_tx p s ctx account_number now ≡ ok v
      → v.auth_info.signer_infos ≡ si ∷ []
      → si.signing_options ≡ some opts
      → decode_from_signing_options p opts ≡ ok (some c)
      → v.account_ids ≡ c.issuer ∷ []
  first_claim-issuer s ctx account_number now v si opts c h one o d =
      let a = (verify_signed_tx_iff p s ctx account_number now v).0 h in
      go a.ladder a.seen a.account_ids
        (subst (λ l. Signers p a.ladder s.tx.signatures s.tx.nonce now 0 l a.seen) one a.signers)
    where
      go :
          (ladder : List (p.Binding × Bytes)) (seen : List (PublicKey × Option TradingKeyClaim))
          → v.account_ids ≡ accounts p seen
          → Signers p ladder s.tx.signatures s.tx.nonce now 0 (si ∷ []) seen
          → v.account_ids ≡ c.issuer ∷ []
      go ladder [] e all = absurd all
      go ladder (x ∷ y ∷ seen) e all = absurd all.1
      go ladder ((key, found) ∷ []) e (q, u) =
          let r : found ≡ some c = ground (arith, o, d, q.carries) in
          let w = Permits-some s.tx.nonce now key found c q.permits r in ground (arith, e, w.issuer)
