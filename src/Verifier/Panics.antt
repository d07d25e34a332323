-- ===== src/Verifier/Panics.antt =====
-- `verify_signed_tx` (crates/core/src/verifier.rs) indexes `signatures[i]` and `signer_infos[0]`
-- only where there is an element.
use morpheum_signing.Common.{
  ℕ, suc, ◌+◌, ◌<◌, ◌≡◌, ◌≢◌, Option, none, List, [], ◌∷◌, Bytes, get_elem?, get_elem?-Some, length,
  Result, ok, err, ◌>>=◌, ok_or, arith, Result-cases, inl, inr,
}
use morpheum_signing.Proto.{SignMode, SignerInfo, Nonce, TxBody, AuthInfo, TxVerifyContext}
use morpheum_signing.Error.{SigningError, signing}
use morpheum_signing.Primitives.{Primitives}
use morpheum_signing.Types.PublicKey.{PublicKey, from_proto_any}
use morpheum_signing.Types.SignedTx.{SignedTx}
use morpheum_signing.Verifier.Dispatch.{verify_signature, extract_sign_mode}
use morpheum_signing.Verifier.{
  Failure, panicked, Progress, try, or_some, missing_public_key, signer_key, verify_ladder,
  read_claim, record_signer, check_signer, verify_signer, verify_signers, initial, ladder_of,
  check_counts, verify_signed_tx, verify_parts, verify_under, verified,
}

abbrev Safe : {A : Type 0} → Result Failure A → Type 0
Safe r = r ≢ err panicked

try-Safe : {A : Type 0} (r : Result SigningError A) → Safe (try r)
try-Safe (ok a) = λ h. ground (arith, h)
try-Safe (err e) = λ h. ground (arith, h)

>>=-Safe :
    {A B : Type 0} (m : Result Failure A) (f : A → Result Failure B)
    → Safe m
    → ((a : A) → Safe (f a))
    → Safe (m >>= f)
>>=-Safe (ok a) f hm hf = hf a
>>=-Safe (err e) f hm hf = λ h. hm (ground (arith, h))

module _ (p : Primitives) where
  verify_ladder-Safe :
      (key : PublicKey) (sigs : List Bytes) (i : ℕ) (mode : SignMode)
      (strictest : Option SigningError) (ladder : List (p.Binding × Bytes))
      → i < length sigs
      → Safe (verify_ladder p key sigs i mode strictest ladder)
  unfolding verify_ladder
  verify_ladder-Safe key sigs i mode strictest [] h = λ e. ground (arith, e)
  verify_ladder-Safe key sigs i mode strictest ((b, preimage) ∷ rest) h =
      let (sig, at) = get_elem?-Some sigs i h in
      λ e. elim (Result-cases (verify_signature p key preimage sig mode)) [
        | inl (u, v) ↦ ground (arith, e, at, v)
        | inr (x, v) ↦
            verify_ladder-Safe key sigs i mode (or_some strictest x) rest h
              (ground (arith, e, at, v))
      ]

  verify_signer-Safe :
      (ladder : List (p.Binding × Bytes)) (sigs : List Bytes) (tx_nonce : Option Nonce) (now i : ℕ)
      (si : SignerInfo) (progress : Progress)
      → i < length sigs
      → Safe (verify_signer p ladder sigs tx_nonce now i si progress)
  unfolding verify_signer check_signer signer_key
  verify_signer-Safe ladder sigs tx_nonce now i si progress h =
      >>=-Safe (signer_key i si) (check_signer p ladder sigs tx_nonce now i si progress)
        (>>=-Safe (try (ok_or si.public_key (missing_public_key i)))
          (λ any. try (from_proto_any any)) (try-Safe _) (λ any. try-Safe (from_proto_any any)))
        (λ key.
          >>=-Safe (verify_ladder p key sigs i (extract_sign_mode p si) none ladder)
            (λ _.
              try (read_claim p tx_nonce now key progress.trading_key_claim si.signing_options)
              >>= λ claim. ok (record_signer p i (extract_sign_mode p si) key claim progress))
            (verify_ladder-Safe key sigs i (extract_sign_mode p si) none ladder h)
            (λ _.
              >>=-Safe
                (try (read_claim p tx_nonce now key progress.trading_key_claim si.signing_options))
                (λ claim. ok (record_signer p i (extract_sign_mode p si) key claim progress))
                (try-Safe _) (λ claim e. ground (arith, e))))

  verify_signers-Safe :
      (ladder : List (p.Binding × Bytes)) (sigs : List Bytes) (tx_nonce : Option Nonce) (now i : ℕ)
      (infos : List SignerInfo) (progress : Progress)
      → i + length infos ≡ length sigs
      → Safe (verify_signers p ladder sigs tx_nonce now i infos progress)
  unfolding verify_signers
  verify_signers-Safe ladder sigs tx_nonce now i [] progress h = λ e. ground (arith, e)
  verify_signers-Safe ladder sigs tx_nonce now i (si ∷ rest) progress h =
      >>=-Safe (verify_signer p ladder sigs tx_nonce now i si progress)
        (verify_signers p ladder sigs tx_nonce now (suc i) rest)
        (verify_signer-Safe ladder sigs tx_nonce now i si progress (omega arith))
        (λ next. verify_signers-Safe ladder sigs tx_nonce now (suc i) rest next (omega arith))

  verify_under-Safe :
      (s : SignedTx) (now : ℕ) (body : TxBody) (info : AuthInfo) (ladder : List (p.Binding × Bytes))
      → check_counts p info.signer_infos s.tx.signatures ≡ ok tt
      → Safe (verify_under p s body info now ladder)
  unfolding verify_under check_counts
  verify_under-Safe s now body info ladder c =
      let lengths : length info.signer_infos ≡ length s.tx.signatures = ground (arith, c) in
      let some_signer : 0 < length info.signer_infos = ground (arith, c) in
      let (primary, at) = get_elem?-Some info.signer_infos 0 some_signer in
      >>=-Safe
        (verify_signers p ladder s.tx.signatures s.tx.nonce now 0 info.signer_infos (initial p))
        (λ progress. ok_or (get_elem? info.signer_infos 0) panicked >>= λ primary.
          ok (verified p s.tx body info progress primary))
        (verify_signers-Safe ladder s.tx.signatures s.tx.nonce now 0 info.signer_infos (initial p)
          (omega arith))
        (λ progress e. ground (arith, e, at))

  verify_parts-Safe :
      (s : SignedTx) (ctx : TxVerifyContext) (account_number now : ℕ) (body : TxBody)
      (info : AuthInfo)
      → Safe (verify_parts p s ctx account_number now body info)
  unfolding verify_parts
  verify_parts-Safe s ctx account_number now body info =
      elim (Result-cases (check_counts p info.signer_infos s.tx.signatures)) [
        | inl (u, c) ↦ λ e.
            >>=-Safe (try (ladder_of p s body info account_number ctx))
              (verify_under p s body info now) (try-Safe _)
              (λ ladder. verify_under-Safe s now body info ladder c) (ground (arith, e, c))
        | inr (x, c) ↦ λ e. ground (arith, e, c)
      ]

  -- `verify_signed_tx` never indexes out of bounds, whatever the transaction holds: it returns a
  -- verified transaction or a signing error.
  pub verify_signed_tx-ne-panicked :
      (s : SignedTx) (ctx : TxVerifyContext) (account_number now : ℕ)
      → verify_signed_tx p s ctx account_number now ≢ err panicked
  unfolding verify_signed_tx
  verify_signed_tx-ne-panicked s ctx account_number now =
      >>=-Safe (try (ok_or s.tx.body (signing "transaction missing body")))
        (λ body. try (ok_or s.tx.auth_info (signing "transaction missing auth_info")) >>= λ info.
          verify_parts p s ctx account_number now body info)
        (try-Safe _)
        (λ body.
          >>=-Safe (try (ok_or s.tx.auth_info (signing "transaction missing auth_info")))
            (verify_parts p s ctx account_number now body) (try-Safe _)
            (λ info. verify_parts-Safe s ctx account_number now body info))
