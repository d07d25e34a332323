-- ===== src/Verifier/Signers.antt =====
-- The loop over the signers of `verify_signed_tx` (crates/core/src/verifier.rs): each signer is
-- verified by itself, and what the loop keeps is a function of the keys and the claims.
use morpheum_signing.Common.{
  ℕ, suc, ◌≡◌, refl, sym, ap, ◌∙◌, ◌↔◌, Option, none, some, List, [], ◌∷◌, Bytes, ok, ◌>>=◌,
  >>=-eq-ok, arith, Result-cases, inl, inr,
}
use morpheum_signing.Proto.{Any, SignerInfo, Nonce, ClaimOptions}
use morpheum_signing.Primitives.{Primitives}
use morpheum_signing.Types.PublicKey.{PublicKey}
use morpheum_signing.Types.PublicKey.Wire.{Announces}
use morpheum_signing.Claim.{TradingKeyClaim, decode_from_signing_options}
use morpheum_signing.Verifier.Dispatch.{extract_sign_mode}
use morpheum_signing.Verifier.{
  Progress, try, signer_key, verify_ladder, read_claim, record_signer, check_signer, verify_signer,
  verify_signers,
}
use morpheum_signing.Verifier.Loop.{
  Signed, Carries, PermitsEach, or_else, try-eq-ok, verify_ladder_iff, signer_key_iff,
  accept_claim_iff,
}

module _ (p : Primitives) where
  read_claim→ :
      (tx_nonce : Option Nonce) (now : ℕ) (key : PublicKey) (before : Option TradingKeyClaim)
      (opts : Option ClaimOptions) (after : Option TradingKeyClaim)
      → read_claim p tx_nonce now key before opts ≡ ok after
      → (found : Option TradingKeyClaim) × Carries p opts found
        × PermitsEach p tx_nonce now key found
        × (after ≡ or_else found before)
  unfolding read_claim
  read_claim→ tx_nonce now key before none after h = (none, refl, tt, ground arith)
  read_claim→ tx_nonce now key before (some opts) after h =
      elim (Result-cases (decode_from_signing_options p opts)) [
        | inl (none, e) ↦ (none, e, tt, ground arith)
        | inl (some c, e) ↦
            (some c, e, (accept_claim_iff p tx_nonce now key c).0 (ground arith), ground arith)
        | inr (x, e) ↦ absurd (ground arith)
      ]

  →read_claim :
      (tx_nonce : Option Nonce) (now : ℕ) (key : PublicKey) (before : Option TradingKeyClaim)
      (opts : Option ClaimOptions) (found : Option TradingKeyClaim)
      → Carries p opts found
      → PermitsEach p tx_nonce now key found
      → read_claim p tx_nonce now key before opts ≡ ok (or_else found before)
  unfolding read_claim
  →read_claim tx_nonce now key before none found carries permits = ground arith
  →read_claim tx_nonce now key before (some opts) none carries permits = ground arith
  →read_claim tx_nonce now key before (some opts) (some c) carries permits =
      ground (arith, (accept_claim_iff p tx_nonce now key c).1 permits)

  module _ (ladder : List (p.Binding × Bytes)) (sigs : List Bytes) (tx_nonce : Option Nonce)
      (now : ℕ) where
    -- The signer at `i` has the key `key` and carries the claim `found`.
    pub record Authentic (i : ℕ) (si : SignerInfo) (key : PublicKey)
        (found : Option TradingKeyClaim) : Type 0 where
      pub any : Any
      pub public_key : si.public_key ≡ some any
      pub announced : Announces any key
      pub signed : Signed p ladder sigs i (extract_sign_mode p si) key
      pub carries : Carries p si.signing_options found
      pub permits : PermitsEach p tx_nonce now key found

    unfoldable pub next : ℕ → SignerInfo → PublicKey × Option TradingKeyClaim → Progress → Progress
    next i si (key, found) progress =
        record_signer p i (extract_sign_mode p si) key (or_else found progress.trading_key_claim)
          progress

    verify_signer→ :
        (i : ℕ) (si : SignerInfo) (progress after : Progress)
        → verify_signer p ladder sigs tx_nonce now i si progress ≡ ok after
        → (seen : PublicKey × Option TradingKeyClaim) × Authentic i si seen.0 seen.1
          × (after ≡ next i si seen progress)
    unfolding verify_signer check_signer next
    verify_signer→ i si progress after h =
        let (key, k, h1) =
          >>=-eq-ok (signer_key i si) (check_signer p ladder sigs tx_nonce now i si progress) h in
        let (u, l, h2) =
          >>=-eq-ok (verify_ladder p key sigs i (extract_sign_mode p si) none ladder)
            (λ _.
              try (read_claim p tx_nonce now key progress.trading_key_claim si.signing_options)
              >>= λ claim. ok (record_signer p i (extract_sign_mode p si) key claim progress))
            h1 in
        let (claim, c, h3) =
          >>=-eq-ok
            (try (read_claim p tx_nonce now key progress.trading_key_claim si.signing_options))
            (λ claim. ok (record_signer p i (extract_sign_mode p si) key claim progress)) h2 in
        let (found, carries, permits, e) =
          read_claim→ tx_nonce now key progress.trading_key_claim si.signing_options claim
            (try-eq-ok _ c) in
        let (any, public_key, announced) = (signer_key_iff p i si key).0 k in
        (
          (key, found),
          record {
            any = any;
            public_key = public_key;
            announced = announced;
            signed = (verify_ladder_iff p key sigs i (extract_sign_mode p si) none ladder).0 l;
            carries = carries;
            permits = permits;
          },
          ground arith,
        )

    →verify_signer :
        (i : ℕ) (si : SignerInfo) (progress : Progress) (seen : PublicKey × Option TradingKeyClaim)
        → Authentic i si seen.0 seen.1
        → verify_signer p ladder sigs tx_nonce now i si progress ≡ ok (next i si seen progress)
    unfolding verify_signer check_signer next
    →verify_signer i si progress (key, found) a = ground (
      arith,
      (signer_key_iff p i si key).1 (a.any, a.public_key, a.announced),
      (verify_ladder_iff p key sigs i (extract_sign_mode p si) none ladder).1 a.signed,
      →read_claim tx_nonce now key progress.trading_key_claim si.signing_options found a.carries
          a.permits,
    )

    -- Every signer is authentic, from position `i` on, with its key and its claim in `seen`.
    abbrev pub Signers : ℕ → List SignerInfo → List (PublicKey × Option TradingKeyClaim) → Type 0
    Signers i [] [] = Unit
    Signers i [] (s ∷ seen) = ⊥
    Signers i (si ∷ rest) [] = ⊥
    Signers i (si ∷ rest) (s ∷ seen) = Authentic i si s.0 s.1 × Signers (suc i) rest seen

    unfoldable pub after :
        ℕ → List SignerInfo → List (PublicKey × Option TradingKeyClaim) → Progress → Progress
    after i [] seen progress = progress
    after i (si ∷ rest) [] progress = progress
    after i (si ∷ rest) (s ∷ seen) progress = after (suc i) rest seen (next i si s progress)

    verify_signers→ :
        (i : ℕ) (infos : List SignerInfo) (progress last : Progress)
        → verify_signers p ladder sigs tx_nonce now i infos progress ≡ ok last
        → (seen : List (PublicKey × Option TradingKeyClaim)) × Signers i infos seen
          × (last ≡ after i infos seen progress)
    unfolding verify_signers after
    verify_signers→ i [] progress last h = ([], tt, ground arith)
    verify_signers→ i (si ∷ rest) progress last h =
        let (mid, h1, h2) =
          >>=-eq-ok (verify_signer p ladder sigs tx_nonce now i si progress)
            (verify_signers p ladder sigs tx_nonce now (suc i) rest) h in
        let (s, a, e) = verify_signer→ i si progress mid h1 in
        let (seen, all, e2) = verify_signers→ (suc i) rest mid last h2 in
        (s ∷ seen, (a, all), e2 ∙ ap (after (suc i) rest seen) e)

    loop_succeeds :
        (i : ℕ) (infos : List SignerInfo) (progress : Progress)
        (seen : List (PublicKey × Option TradingKeyClaim))
        → Signers i infos seen
        → verify_signers p ladder sigs tx_nonce now i infos progress
          ≡ ok (after i infos seen progress)
    unfolding verify_signers after
    loop_succeeds i [] progress [] all = refl
    loop_succeeds i [] progress (s ∷ seen) all = absurd all
    loop_succeeds i (si ∷ rest) progress [] all = absurd all
    loop_succeeds i (si ∷ rest) progress (s ∷ seen) (a, all) =
        rw (→verify_signer i si progress s a)
          (loop_succeeds (suc i) rest (next i si s progress) seen all)

    -- The loop succeeds exactly when every signer is authentic, and it leaves what `after` computes
    -- from their keys and claims.
    pub verify_signers_iff :
        (i : ℕ) (infos : List SignerInfo) (progress last : Progress)
        → (verify_signers p ladder sigs tx_nonce now i infos progress ≡ ok last) ↔ (
            (seen : List (PublicKey × Option TradingKeyClaim)) × Signers i infos seen
            × (last ≡ after i infos seen progress))
    verify_signers_iff i infos progress last = (
      verify_signers→ i infos progress last,
      λ (seen, all, e). loop_succeeds i infos progress seen all ∙ ap ok (sym e),
    )
