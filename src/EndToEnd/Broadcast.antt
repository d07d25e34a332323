-- ===== src/EndToEnd/Broadcast.antt =====
-- The two encodings of a signed transaction, `Tx` and `TxRaw` (crates/core/src/builder.rs), against
-- `SignedTx::decode` (crates/core/src/types.rs) and the verifier.
use morpheum_signing.Common.{
  ℕ, ◌≡◌, ◌≢◌, ◌⊎◌, refl, sym, ap, ◌∙◌, Option, none, some, [], ◌∷◌, Bytes, ok, inl, inr, arith,
  Result-cases,
}
use mathlib.Core.Path.{subst}
use morpheum_signing.Proto.{Tx, TxRaw, AuthInfo, SignerInfo, TxVerifyContext}
use morpheum_signing.Primitives.{Primitives, RoundTrips}
use morpheum_signing.Types.Signature.{to_bytes}
use morpheum_signing.Types.SignedTx.{SignedTx, decode}
use morpheum_signing.Builder.{TxBuilder, sign, sign_doc, assemble}
use morpheum_signing.Builder.Covered.{Run, sign-Run}
use morpheum_signing.Verifier.{
  VerifiedTx, verify_signed_tx, verify_parts, verify_under, ladder_of, wire_bytes, verified,
}
use morpheum_signing.Verifier.Sound.{verify_signed_tx_iff}
use morpheum_signing.EndToEnd.Replay.{DeterminesTerms, BindsAlways, Forged, sign-replayed}

-- What the format documents: `TxRaw` has no field for a nonce, so that a `Tx` that is read from its
-- encoding has none.
pub record OmitsNonce (p : Primitives) : Type 0 where
  pub omits :
      (raw : TxRaw) (tx : Tx)
      → p.tx_codec.decode (p.tx_raw_codec.encode raw) ≡ ok tx
      → tx.nonce ≡ none

module _ (p : Primitives) where
  -- The verifier does not read the bytes that were decoded.
  verify-raw_bytes :
      (s : SignedTx) (bytes : Bytes) (ctx : TxVerifyContext) (account_number now : ℕ)
      → verify_signed_tx p (record s { raw_bytes = bytes }) ctx account_number now
        ≡ verify_signed_tx p s ctx account_number now
  unfolding verify_signed_tx verify_parts verify_under ladder_of wire_bytes verified
  verify-raw_bytes s bytes ctx account_number now = refl

  decode-tx :
      (bytes : Bytes) (t : SignedTx) → decode p bytes ≡ ok t → p.tx_codec.decode bytes ≡ ok t.tx
  unfolding decode
  decode-tx bytes t h = ground (arith, h)

module _ (p : Primitives) {W : Type 0} (clock : W → Option ℕ) (b : TxBuilder p W) where
  run_decoded :
      (w : W) (s : SignedTx) (w' : W)
      → Run p clock b w s w'
      → p.tx_codec.decode (p.tx_codec.encode s.tx) ≡ ok s.tx
      → decode p (p.tx_codec.encode s.tx) ≡ ok (record s { raw_bytes = p.tx_codec.encode s.tx })
  unfolding decode assemble
  run_decoded w s w' r read = rw read (rw r.result refl)

  -- A transaction that the builder signed, sent as the encoding of its `Tx`, is decoded to the same
  -- `Tx` and the same `TxRaw`, and every node has the verdict on it that it has on what the builder
  -- returned. A `Tx` in range is read back from its encoding.
  pub decode-sign :
      {InRange : Tx → Type 0} (w : W) (s : SignedTx) (w' : W)
      → RoundTrips InRange p.tx_codec
      → sign p clock b w ≡ (ok s, w')
      → InRange s.tx
      → (t : SignedTx) × (decode p (p.tx_codec.encode s.tx) ≡ ok t)
        × (t.tx ≡ s.tx)
        × (t.tx_raw ≡ s.tx_raw)
        × ((ctx : TxVerifyContext) (account_number now : ℕ)
            → verify_signed_tx p t ctx account_number now
              ≡ verify_signed_tx p s ctx account_number now)
  decode-sign w s w' rt h range =
      let bytes = p.tx_codec.encode s.tx in
      (
        record s { raw_bytes = bytes },
        run_decoded w s w' (sign-Run p clock b w s w' h) (rt.decode-encode s.tx range),
        refl,
        refl,
        verify-raw_bytes p s bytes,
      )

  raw_bytes_of :
      (w : W) (s : SignedTx) (w' : W)
      → Run p clock b w s w'
      → (raw : TxRaw) × (s.raw_bytes ≡ p.tx_raw_codec.encode raw)
  unfolding assemble
  raw_bytes_of w s w' r = (_, ap (λ x. x.raw_bytes) r.result)

  module _ (ctx : TxVerifyContext) (w : W) (s : SignedTx) (w' : W) (t : SignedTx)
      (account_number now : ℕ) (law : DeterminesTerms p) (policy : BindsAlways p ctx)
      (format : OmitsNonce p) (h : sign p clock b w ≡ (ok s, w'))
      (read : decode p s.raw_bytes ≡ ok t) where
    -- What is read from the bytes of the `TxRaw` has no nonce.
    unbound : t.tx.nonce ≡ none
    unbound =
        let (raw, e) = raw_bytes_of w s w' (sign-Run p clock b w s w' h) in
        format.omits raw t.tx
          (subst (λ x. p.tx_codec.decode x ≡ ok t.tx) e (decode-tx p s.raw_bytes t read))

    -- Its terms are not those that were signed, which have a nonce.
    accepted-Forged :
        (v : VerifiedTx) (info : SignerInfo)
        → verify_signed_tx p t ctx account_number now ≡ ok v
        → t.tx.signatures ≡ s.tx.signatures
        → v.auth_info.signer_infos ≡ info ∷ []
        → info.public_key ≡ some b.signer.public_key_proto
        → (r : Run p clock b w s w') × Forged p b
            (p.encode_sign_doc (sign_doc p b r.nonce r.options))
            (to_bytes r.signature)
    accepted-Forged v info accepted same only published =
        let (r, verdict) =
          sign-replayed p clock b ctx w s w' t account_number now v info law policy h accepted same
            only published in
        elim verdict [
          | inl e ↦
              (let nonce : none ≡ some r.nonce = sym unbound ∙ ap (λ x. x.nonce) e in
                absurd (ground (arith, nonce)))
          | inr forged ↦ (r, forged)
        ]

  -- A transaction that the builder signed, sent as its `raw_bytes`, is refused by every node whose
  -- policy binds every preimage, or its signature is a forgery: `raw_bytes` is the encoding of a
  -- `TxRaw`, which holds no nonce, and the signature binds one. What is decoded carries the
  -- builder's signature and key. An encoded document determines what it is about.
  pub decode-raw_bytes :
      (ctx : TxVerifyContext) (w : W) (s : SignedTx) (w' : W) (t : SignedTx)
      (account_number now : ℕ) (a : AuthInfo) (info : SignerInfo)
      → DeterminesTerms p
      → BindsAlways p ctx
      → OmitsNonce p
      → sign p clock b w ≡ (ok s, w')
      → decode p s.raw_bytes ≡ ok t
      → t.tx.signatures ≡ s.tx.signatures
      → t.tx.auth_info ≡ some a
      → a.signer_infos ≡ info ∷ []
      → info.public_key ≡ some b.signer.public_key_proto
      → ((v : VerifiedTx) → verify_signed_tx p t ctx account_number now ≢ ok v)
        ⊎ ((r : Run p clock b w s w') × Forged p b
              (p.encode_sign_doc (sign_doc p b r.nonce r.options))
              (to_bytes r.signature))
  decode-raw_bytes ctx w s w' t account_number now a info law policy format h read same auth only
        published =
      elim (Result-cases (verify_signed_tx p t ctx account_number now)) [
        | inr (e, refused) ↦ inl (λ v accepted. ground (arith, refused, accepted))
        | inl (v, accepted) ↦
            (let x = (verify_signed_tx_iff p t ctx account_number now v).0 accepted in
              let one : v.auth_info.signer_infos ≡ info ∷ [] =
                ground (arith, x.auth_info, auth, only) in
              inr (
                accepted-Forged ctx w s w' t account_number now law policy format h read v info
                  accepted same one published))
      ]
