-- ===== src/Verifier/Sound.antt =====
-- What `verify_signed_tx` (crates/core/src/verifier.rs) accepts, and what it returns.
use mathlib.Core.Path.{subst}
use morpheum_signing.Common.{
  ℕ, ◌≡◌, refl, ap, ◌∙◌, ◌↔◌, ◌≢◌, Option, none, some, List, [], Bytes, get_elem?, length, ok,
  ◌>>=◌, >>=-eq-ok, ok_or, arith,
}
use morpheum_signing.Proto.{SignerInfo, TxBody, AuthInfo, TxVerifyContext}
use morpheum_signing.Error.{signing}
use morpheum_signing.Primitives.{Primitives}
use morpheum_signing.Types.PublicKey.{PublicKey, infer_wallet_type}
use morpheum_signing.Types.SignedTx.{SignedTx}
use morpheum_signing.Claim.{TradingKeyClaim}
use morpheum_signing.Verifier.Dispatch.{extract_sign_mode}
use morpheum_signing.Verifier.{
  VerifiedTx, panicked, try, verify_signers, initial, ladder_of, check_counts, verify_signed_tx,
  verify_parts, verify_under, verified,
}
use morpheum_signing.Verifier.Loop.{try-eq-ok}
use morpheum_signing.Verifier.Signers.{Signers, verify_signers_iff}
use morpheum_signing.Verifier.Summary.{accounts, last_claim, summary}

module _ (p : Primitives) where
  -- What a signed transaction must satisfy, and what is read from it: `seen` holds the key and the
  -- claim of each signer in order, `primary` is the first signer.
  pub record Authenticated (s : SignedTx) (ctx : TxVerifyContext) (account_number now : ℕ)
      (v : VerifiedTx) : Type 0 where
    pub body : s.tx.body ≡ some v.body
    pub auth_info : s.tx.auth_info ≡ some v.auth_info
    pub counts : length v.auth_info.signer_infos ≡ length s.tx.signatures
    pub ladder : List (p.Binding × Bytes)
    pub ladder_is : ladder_of p s v.body v.auth_info account_number ctx ≡ ok ladder
    pub seen : List (PublicKey × Option TradingKeyClaim)
    pub signers : Signers p ladder s.tx.signatures s.tx.nonce now 0 v.auth_info.signer_infos seen
    pub account_ids : v.account_ids ≡ accounts p seen
    pub claim : v.trading_key_claim ≡ last_claim p seen
    pub nonce : v.nonce ≡ s.tx.nonce
    pub primary : SignerInfo
    pub key : PublicKey
    pub primary_is : get_elem? v.auth_info.signer_infos 0 ≡ some primary
    pub key_is : (found : Option TradingKeyClaim) × (get_elem? seen 0 ≡ some (key, found))
    pub sign_mode : v.sign_mode ≡ extract_sign_mode p primary
    pub wallet_type : v.wallet_type ≡ infer_wallet_type key
    pub agent :
        (v.agent_did ≡ primary.agent_did)
        × (v.verifiable_presentation ≡ primary.verifiable_presentation)
        × (v.trading_key_address ≡ primary.trading_key_address)

  check_counts_iff :
      (infos : List SignerInfo) (sigs : List Bytes)
      → (check_counts p infos sigs ≡ ok tt) ↔ ((length infos ≡ length sigs) × (infos ≢ []))
  unfolding check_counts
  check_counts_iff infos sigs = (λ h. ground arith, λ h. ground arith)

  under→ :
      (s : SignedTx) (ctx : TxVerifyContext) (account_number now : ℕ) (body : TxBody)
      (info : AuthInfo) (ladder : List (p.Binding × Bytes)) (v : VerifiedTx)
      → s.tx.body ≡ some body
      → s.tx.auth_info ≡ some info
      → (length info.signer_infos ≡ length s.tx.signatures) × (info.signer_infos ≢ [])
      → ladder_of p s body info account_number ctx ≡ ok ladder
      → verify_under p s body info now ladder ≡ ok v
      → Authenticated s ctx account_number now v
  unfolding verify_under verified
  under→ s ctx account_number now body info ladder v eb ei (counts, ne) el h =
      let (last, h1, h2) =
        >>=-eq-ok
          (verify_signers p ladder s.tx.signatures s.tx.nonce now 0 info.signer_infos (initial p))
          (λ progress. ok_or (get_elem? info.signer_infos 0) panicked >>= λ primary.
            ok (verified p s.tx body info progress primary))
          h in
      let (seen, all, e) =
        (verify_signers_iff p ladder s.tx.signatures s.tx.nonce now 0 info.signer_infos (initial p)
            last).0
          h1 in
      let m = summary p ladder s.tx.signatures s.tx.nonce now info.signer_infos seen ne all in
      let (primary, h3, h4) =
        >>=-eq-ok (ok_or (get_elem? info.signer_infos 0) panicked)
          (λ primary. ok (verified p s.tx body info last primary)) h2 in
      let same : primary ≡ m.primary = ground (arith, m.primary_is, h3) in
      let result : verified p s.tx body info last primary ≡ v = ground (arith, h4) in
      subst (Authenticated s ctx account_number now) result (record {
        body = eb;
        auth_info = ei;
        counts = counts;
        ladder = ladder;
        ladder_is = el;
        seen = seen;
        signers = all;
        account_ids = ap (λ q. q.account_ids) e ∙ m.account_ids;
        claim = ap (λ q. q.trading_key_claim) e ∙ m.claim;
        nonce = refl;
        primary = m.primary;
        key = m.key;
        primary_is = m.primary_is;
        key_is = (m.found, m.key_is);
        sign_mode = ap (λ q. q.primary_sign_mode) e ∙ m.sign_mode;
        wallet_type = ap (λ q. q.primary_wallet_type) e ∙ m.wallet_type;
        agent = (
          ap (λ i. i.agent_did) same,
          ap (λ i. i.verifiable_presentation) same,
          ap (λ i. i.trading_key_address) same,
        );
      })

  parts→ :
      (s : SignedTx) (ctx : TxVerifyContext) (account_number now : ℕ) (body : TxBody)
      (info : AuthInfo) (v : VerifiedTx)
      → s.tx.body ≡ some body
      → s.tx.auth_info ≡ some info
      → verify_parts p s ctx account_number now body info ≡ ok v
      → Authenticated s ctx account_number now v
  unfolding verify_parts
  parts→ s ctx account_number now body info v eb ei h =
      let (u, c, h1) =
        >>=-eq-ok (try (check_counts p info.signer_infos s.tx.signatures))
          (λ _. try (ladder_of p s body info account_number ctx) >>= verify_under p s body info now)
          h in
      let (ladder, l, h2) =
        >>=-eq-ok (try (ladder_of p s body info account_number ctx))
          (verify_under p s body info now) h1 in
      under→ s ctx account_number now body info ladder v eb ei
        ((check_counts_iff info.signer_infos s.tx.signatures).0 (try-eq-ok _ c)) (try-eq-ok _ l) h2

  verify_signed_tx→ :
      (s : SignedTx) (ctx : TxVerifyContext) (account_number now : ℕ) (v : VerifiedTx)
      → verify_signed_tx p s ctx account_number now ≡ ok v
      → Authenticated s ctx account_number now v
  unfolding verify_signed_tx
  verify_signed_tx→ s ctx account_number now v h = go s.tx.body refl s.tx.auth_info refl h
    where
      go :
          (b : Option TxBody)
          → s.tx.body ≡ b
          → (i : Option AuthInfo) → s.tx.auth_info ≡ i
          → (do
            body ← try (ok_or b (signing "transaction missing body"))
            info ← try (ok_or i (signing "transaction missing auth_info"))
            verify_parts p s ctx account_number now body info)
            ≡ ok v
          → Authenticated s ctx account_number now v
      go (some body) eb (some info) ei h1 = parts→ s ctx account_number now body info v eb ei h1
      go (some body) eb none ei h1 = absurd (ground (arith, h1))
      go none eb i ei h1 = absurd (ground (arith, h1))

  →verify_under :
      (s : SignedTx) (ctx : TxVerifyContext) (account_number now : ℕ) (v : VerifiedTx)
      (a : Authenticated s ctx account_number now v)
      → v.auth_info.signer_infos ≢ []
      → verify_under p s v.body v.auth_info now a.ladder ≡ ok v
  unfolding verify_under verified
  →verify_under s ctx account_number now v a ne =
      let infos = v.auth_info.signer_infos in
      let loop =
        (verify_signers_iff p a.ladder s.tx.signatures s.tx.nonce now 0 infos (initial p) _).1
          (a.seen, a.signers, refl) in
      let m = summary p a.ladder s.tx.signatures s.tx.nonce now infos a.seen ne a.signers in
      let same : m.primary ≡ a.primary = ground (arith, m.primary_is, a.primary_is) in
      let keys : m.key ≡ a.key = ground (arith, m.key_is, a.key_is.1) in
      rw loop (
        rw a.primary_is (
          ground (
            arith, a.account_ids, a.claim, a.nonce, a.sign_mode, a.wallet_type, a.agent,
            m.account_ids, m.claim, m.sign_mode, m.wallet_type, same, keys,
          )))

  →verify_signed_tx :
      (s : SignedTx) (ctx : TxVerifyContext) (account_number now : ℕ) (v : VerifiedTx)
      → Authenticated s ctx account_number now v
      → verify_signed_tx p s ctx account_number now ≡ ok v
  unfolding verify_signed_tx verify_parts ladder_of
  →verify_signed_tx s ctx account_number now v a =
      let ne : v.auth_info.signer_infos ≢ [] = λ e. ground (arith, e, a.primary_is) in
      let counts = (check_counts_iff v.auth_info.signer_infos s.tx.signatures).1 (a.counts, ne) in
      rw a.body (
        rw a.auth_info (rw counts (rw a.ladder_is (→verify_under s ctx account_number now v a ne))))

  -- `verify_signed_tx` accepts exactly the authenticated transactions. The body, the signers and
  -- as many signatures as signers are there, and there is a signer. Each signer has a key of a
  -- known type and length, and its signature, at the signer's own position, is accepted for that
  -- key over a preimage of the ladder. Each claim that a signer carries is valid at the time, issued
  -- by the account of that signer's key, and covers the sub of the transaction's nonce. The
  -- accounts returned are those of the keys, in order; the claim is the last one carried; the mode,
  -- the wallet type and the agent's data are those of the first signer.
  pub verify_signed_tx_iff :
      (s : SignedTx) (ctx : TxVerifyContext) (account_number now : ℕ) (v : VerifiedTx)
      → (verify_signed_tx p s ctx account_number now ≡ ok v)
        ↔ Authenticated s ctx account_number now v
  verify_signed_tx_iff s ctx account_number now v =
      (verify_signed_tx→ s ctx account_number now v, →verify_signed_tx s ctx account_number now v)
