-- ===== src/Verifier/Summary.antt =====
-- What the loop of `verify_signed_tx` (crates/core/src/verifier.rs) leaves behind, as a function of
-- the keys and the claims of the signers.
use mathlib.Core.List.{append-nil, append_assoc}
use morpheum_signing.Common.{
  ℕ, suc, ◌<◌, ◌≡◌, refl, sym, ◌∙◌, ◌≢◌, Option, none, some, List, [], ◌∷◌, ◌++◌, Bytes, get_elem?,
  arith,
}
use morpheum_signing.Proto.{SignerInfo, Nonce}
use morpheum_signing.Primitives.{Primitives}
use morpheum_signing.Types.Address.{AccountId}
use morpheum_signing.Types.PublicKey.{PublicKey, infer_wallet_type, to_account_id}
use morpheum_signing.Claim.{TradingKeyClaim}
use morpheum_signing.Verifier.Dispatch.{extract_sign_mode}
use morpheum_signing.Verifier.{Progress, record_signer, initial}
use morpheum_signing.Verifier.Loop.{or_else}
use morpheum_signing.Verifier.Signers.{Signers, after, next}

module _ (p : Primitives) where
  abbrev pub accounts : List (PublicKey × Option TradingKeyClaim) → List AccountId
  accounts [] = []
  accounts (s ∷ seen) = to_account_id p s.0 ∷ accounts seen

  -- the claim of the last signer that carries one
  abbrev pub last_claim : List (PublicKey × Option TradingKeyClaim) → Option TradingKeyClaim
  last_claim [] = none
  last_claim (s ∷ seen) = or_else (last_claim seen) s.1

  module _ (ladder : List (p.Binding × Bytes)) (sigs : List Bytes) (tx_nonce : Option Nonce)
      (now : ℕ) where
    after-accounts :
        (i : ℕ) (infos : List SignerInfo) (progress : Progress)
        (seen : List (PublicKey × Option TradingKeyClaim))
        → Signers p ladder sigs tx_nonce now i infos seen
        → (after p ladder sigs tx_nonce now i infos seen progress).account_ids
          ≡ progress.account_ids ++ accounts seen
    unfolding after next record_signer
    after-accounts i [] progress [] all = sym (append-nil progress.account_ids)
    after-accounts i [] progress (s ∷ seen) all = absurd all
    after-accounts i (si ∷ rest) progress [] all = absurd all
    after-accounts i (si ∷ rest) progress (s ∷ seen) (a, all) =
        after-accounts (suc i) rest (next p ladder sigs tx_nonce now i si s progress) seen all
        ∙ append_assoc progress.account_ids (to_account_id p s.0 ∷ []) (accounts seen)

    after-claim :
        (i : ℕ) (infos : List SignerInfo) (progress : Progress)
        (seen : List (PublicKey × Option TradingKeyClaim))
        → Signers p ladder sigs tx_nonce now i infos seen
        → (after p ladder sigs tx_nonce now i infos seen progress).trading_key_claim
          ≡ or_else (last_claim seen) progress.trading_key_claim
    unfolding after next record_signer
    after-claim i [] progress [] all = refl
    after-claim i [] progress (s ∷ seen) all = absurd all
    after-claim i (si ∷ rest) progress [] all = absurd all
    after-claim i (si ∷ rest) progress (s ∷ seen) (a, all) =
        ground (
          arith,
          after-claim (suc i) rest (next p ladder sigs tx_nonce now i si s progress) seen all,
        )

    after-primary :
        (i : ℕ) (infos : List SignerInfo) (progress : Progress)
        (seen : List (PublicKey × Option TradingKeyClaim))
        → 0 < i
        → ((after p ladder sigs tx_nonce now i infos seen progress).primary_sign_mode
            ≡ progress.primary_sign_mode)
          × ((after p ladder sigs tx_nonce now i infos seen progress).primary_wallet_type
              ≡ progress.primary_wallet_type)
    unfolding after next record_signer
    after-primary i [] progress seen h = (refl, refl)
    after-primary i (si ∷ rest) progress [] h = (refl, refl)
    after-primary i (si ∷ rest) progress (s ∷ seen) h = ground (
      arith,
      after-primary (suc i) rest (next p ladder sigs tx_nonce now i si s progress) seen
          (omega arith),
    )

  or_else-none : (o : Option TradingKeyClaim) → or_else o none ≡ o
  or_else-none none = refl
  or_else-none (some c) = refl

  -- What the loop leaves, by the signers.
  pub record Summary (infos : List SignerInfo) (seen : List (PublicKey × Option TradingKeyClaim))
      (last : Progress) : Type 0 where
    pub primary : SignerInfo
    pub key : PublicKey
    pub found : Option TradingKeyClaim
    pub primary_is : get_elem? infos 0 ≡ some primary
    pub key_is : get_elem? seen 0 ≡ some (key, found)
    pub account_ids : last.account_ids ≡ accounts seen
    pub claim : last.trading_key_claim ≡ last_claim seen
    pub sign_mode : last.primary_sign_mode ≡ extract_sign_mode p primary
    pub wallet_type : last.primary_wallet_type ≡ infer_wallet_type key

  pub summary :
      (ladder : List (p.Binding × Bytes)) (sigs : List Bytes) (tx_nonce : Option Nonce) (now : ℕ)
      (infos : List SignerInfo) (seen : List (PublicKey × Option TradingKeyClaim))
      → infos ≢ []
      → Signers p ladder sigs tx_nonce now 0 infos seen
      → Summary infos seen (after p ladder sigs tx_nonce now 0 infos seen (initial p))
  unfolding after next record_signer
  summary ladder sigs tx_nonce now [] seen ne all = absurd (ne refl)
  summary ladder sigs tx_nonce now (si ∷ rest) [] ne all = absurd all
  summary ladder sigs tx_nonce now (si ∷ rest) ((key, found) ∷ seen) ne all =
      let (mode, wallet) =
        after-primary ladder sigs tx_nonce now 1 rest
          (next p ladder sigs tx_nonce now 0 si (key, found) (initial p)) seen (omega arith) in
      record {
        primary = si;
        key = key;
        found = found;
        primary_is = refl;
        key_is = refl;
        account_ids =
            after-accounts ladder sigs tx_nonce now 0 (si ∷ rest) (initial p) ((key, found) ∷ seen)
              all;
        claim =
            after-claim ladder sigs tx_nonce now 0 (si ∷ rest) (initial p) ((key, found) ∷ seen) all
            ∙ or_else-none (last_claim ((key, found) ∷ seen));
        sign_mode = mode;
        wallet_type = wallet;
      }
