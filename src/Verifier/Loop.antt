-- ===== src/Verifier/Loop.antt =====
-- The loops of `verify_signed_tx` (crates/core/src/verifier.rs): one signer under the ladder of
-- accepted preimages, its claim, and the signers one after another.
use morpheum_signing.Common.{
  ℕ, zero, suc, ◌≤◌, ◌<◌, ◌≡◌, refl, ◌↔◌, Option, none, some, List, [], ◌∷◌, Bytes, get_elem?,
  Result, ok, err, ◌>>=◌, ok_or, arith, Result-cases, inl, inr,
}
use morpheum_signing.Proto.{Any, SignMode, SignerInfo, Nonce, ClaimOptions}
use morpheum_signing.Error.{SigningError}
use morpheum_signing.Primitives.{Primitives}
use morpheum_signing.Types.PublicKey.{PublicKey, from_proto_any, to_account_id}
use morpheum_signing.Types.PublicKey.Wire.{Announces, from_proto_any_iff}
use morpheum_signing.Claim.{TradingKeyClaim, decode_from_signing_options}
use morpheum_signing.Claim.Validity.{IsValid, verify_iff}
use morpheum_signing.Verifier.Dispatch.{verify_signature}
use morpheum_signing.Verifier.Matrix.{Accepts, verify_signature_iff}
use morpheum_signing.Verifier.{
  Failure, panicked, try, or_some, missing_public_key, signer_key, verify_ladder, accept_claim,
}

-- Inversion of a successful `?`.
pub try-eq-ok : {A : Type 0} (r : Result SigningError A) {a : A} → try r ≡ ok a → r ≡ ok a
try-eq-ok (ok x) h = ground arith
try-eq-ok (err e) h = ground arith

-- A signer whose signature stands at `i` of `sigs` signed one of the accepted preimages.
pub record Signed (p : Primitives) (ladder : List (p.Binding × Bytes)) (sigs : List Bytes) (i : ℕ)
    (mode : SignMode) (key : PublicKey) : Type 0 where
  pub sig : Bytes
  pub sig_at : get_elem? sigs i ≡ some sig
  pub rung : ℕ
  pub binding : p.Binding
  pub preimage : Bytes
  pub accepted_preimage : get_elem? ladder rung ≡ some (binding, preimage)
  pub accepts : Accepts p key preimage sig mode

-- What is demanded of a claim: valid at the time, issued by the account of the key, and covering
-- the sub of the transaction's nonce.
pub record Permits (p : Primitives) (tx_nonce : Option Nonce) (now : ℕ) (key : PublicKey)
    (c : TradingKeyClaim) : Type 0 where
  pub valid : IsValid c now
  pub issuer : c.issuer ≡ to_account_id p key
  pub nonce : Nonce
  pub nonce_is : tx_nonce ≡ some nonce
  pub start : c.nonce_sub_range_start ≤ nonce.sub
  pub end : nonce.sub < c.nonce_sub_range_end

-- What a signer's options hold: nothing without options, else what is decoded from them.
abbrev pub Carries : Primitives → Option ClaimOptions → Option TradingKeyClaim → Type 0
Carries p none found = found ≡ none
Carries p (some opts) found = decode_from_signing_options p opts ≡ ok found

abbrev pub PermitsEach : Primitives → Option Nonce → ℕ → PublicKey → Option TradingKeyClaim → Type 0
PermitsEach p tx_nonce now key none = Unit
PermitsEach p tx_nonce now key (some c) = Permits p tx_nonce now key c

abbrev pub or_else : {A : Type 0} → Option A → Option A → Option A
or_else none before = before
or_else (some a) before = some a

module _ (p : Primitives) where
  verify_ladder→ :
      (key : PublicKey) (sigs : List Bytes) (i : ℕ) (mode : SignMode)
      (strictest : Option SigningError) (ladder : List (p.Binding × Bytes))
      → verify_ladder p key sigs i mode strictest ladder ≡ ok tt
      → Signed p ladder sigs i mode key
  unfolding verify_ladder
  verify_ladder→ key sigs i mode strictest [] h = ground arith
  verify_ladder→ key sigs i mode strictest ((binding, preimage) ∷ rest) h =
      go (λ e. verify_ladder→ key sigs i mode (or_some strictest e) rest) (get_elem? sigs i) refl h
    where
      Again : Type 0
      Again =
          (e : SigningError)
          → verify_ladder p key sigs i mode (or_some strictest e) rest ≡ ok tt
          → Signed p rest sigs i mode key

      verdict :
          Again
          → (sig : Bytes) → get_elem? sigs i ≡ some sig
          → (r : Result SigningError (Unit {0})) → verify_signature p key preimage sig mode ≡ r
          → (elim r as (λ x. Result Failure (Unit {0})) [
            | ok u ↦ ok tt
            | err e ↦ verify_ladder p key sigs i mode (or_some strictest e) rest
          ])
            ≡ ok tt
          → Signed p ((binding, preimage) ∷ rest) sigs i mode key
      verdict again sig at (ok u) e h2 = record {
        sig = sig;
        sig_at = at;
        rung = 0;
        binding = binding;
        preimage = preimage;
        accepted_preimage = refl;
        accepts = (verify_signature_iff p key preimage sig mode).0 e;
      }
      verdict again sig at (err x) e h2 =
          let s = again x h2 in
          record {
            sig = s.sig;
            sig_at = s.sig_at;
            rung = suc s.rung;
            binding = s.binding;
            preimage = s.preimage;
            accepted_preimage = s.accepted_preimage;
            accepts = s.accepts;
          }

      go :
          Again
          → (o : Option Bytes) → get_elem? sigs i ≡ o
          → (elim o as (λ x. Result Failure (Unit {0})) [
            | none ↦ err panicked
            | some sig ↦ elim (verify_signature p key preimage sig mode) [
              | ok u ↦ ok tt
              | err e ↦ verify_ladder p key sigs i mode (or_some strictest e) rest
            ]
          ])
            ≡ ok tt
          → Signed p ((binding, preimage) ∷ rest) sigs i mode key
      go again none e h1 = ground arith
      go again (some sig) e h1 =
          verdict again sig e (verify_signature p key preimage sig mode) refl h1

  ladder_accepts :
      (key : PublicKey) (sigs : List Bytes) (i : ℕ) (mode : SignMode)
      (ladder : List (p.Binding × Bytes)) (sig : Bytes) (rung : ℕ) (binding : p.Binding)
      (preimage : Bytes)
      → get_elem? sigs i ≡ some sig
      → get_elem? ladder rung ≡ some (binding, preimage)
      → verify_signature p key preimage sig mode ≡ ok tt
      → (strictest : Option SigningError) → verify_ladder p key sigs i mode strictest ladder ≡ ok tt
  unfolding verify_ladder
  ladder_accepts key sigs i mode [] sig rung binding preimage at rung_at h strictest = ground arith
  ladder_accepts key sigs i mode ((b, pre) ∷ rest) sig zero binding preimage at rung_at h
        strictest =
      ground arith
  ladder_accepts key sigs i mode ((b, pre) ∷ rest) sig (suc rung) binding preimage at rung_at h
        strictest =
      elim (Result-cases (verify_signature p key pre sig mode)) [
        | inl (u, e) ↦ ground arith
        | inr (x, e) ↦ ground (
          arith,
          ladder_accepts key sigs i mode rest sig rung binding preimage at rung_at h
              (or_some strictest x),
        )
      ]

  -- The ladder accepts a signer exactly when its signature is accepted over some preimage of the
  -- ladder, whichever error was recorded before.
  pub verify_ladder_iff :
      (key : PublicKey) (sigs : List Bytes) (i : ℕ) (mode : SignMode)
      (strictest : Option SigningError) (ladder : List (p.Binding × Bytes))
      → (verify_ladder p key sigs i mode strictest ladder ≡ ok tt) ↔ Signed p ladder sigs i mode key
  verify_ladder_iff key sigs i mode strictest ladder = (
    verify_ladder→ key sigs i mode strictest ladder,
    λ s.
        ladder_accepts key sigs i mode ladder s.sig s.rung s.binding s.preimage s.sig_at
          s.accepted_preimage ((verify_signature_iff p key s.preimage s.sig mode).1 s.accepts)
          strictest,
  )

  -- A signer's key is the one that its `Any` announces.
  pub signer_key_iff :
      (i : ℕ) (si : SignerInfo) (key : PublicKey)
      → (signer_key i si ≡ ok key) ↔ ((any : Any) × (si.public_key ≡ some any) × Announces any key)
  unfolding signer_key
  signer_key_iff i si key = (to si.public_key refl, from)
    where
      to :
          (o : Option Any)
          → si.public_key ≡ o
          → (do pk_any ← try (ok_or o (missing_public_key i)); try (from_proto_any pk_any)) ≡ ok key
          → (any : Any) × (si.public_key ≡ some any) × Announces any key
      to none e h = ground arith
      to (some any) e h =
          (any, e, (from_proto_any_iff any key).0 (try-eq-ok (from_proto_any any) h))

      from :
          ((any : Any) × (si.public_key ≡ some any) × Announces any key)
          → (do
            pk_any ← try (ok_or si.public_key (missing_public_key i))
            try (from_proto_any pk_any))
            ≡ ok key
      from (any, e, a) = ground (arith, (from_proto_any_iff any key).1 a)

  accept_claim→ :
      (tx_nonce : Option Nonce) (now : ℕ) (key : PublicKey) (c : TradingKeyClaim)
      → accept_claim p tx_nonce now key c ≡ ok tt
      → Permits p tx_nonce now key c
  unfolding accept_claim
  accept_claim→ none now key c h = ground arith
  accept_claim→ (some n) now key c h =
      let (v, i) = (verify_iff p c now key).0 (ground arith) in
      record {
        valid = v;
        issuer = i;
        nonce = n;
        nonce_is = refl;
        start = ground arith;
        end = ground arith;
      }

  →accept_claim :
      (tx_nonce : Option Nonce) (now : ℕ) (key : PublicKey) (c : TradingKeyClaim)
      → Permits p tx_nonce now key c
      → accept_claim p tx_nonce now key c ≡ ok tt
  unfolding accept_claim
  →accept_claim tx_nonce now key c q =
      ground (arith, q.nonce_is, q.start, q.end, (verify_iff p c now key).1 (q.valid, q.issuer))

  -- A decoded claim passes exactly when it is valid at the time, issued by the account of the
  -- signer's own key, and covers the sub of the nonce that the transaction carries.
  pub accept_claim_iff :
      (tx_nonce : Option Nonce) (now : ℕ) (key : PublicKey) (c : TradingKeyClaim)
      → (accept_claim p tx_nonce now key c ≡ ok tt) ↔ Permits p tx_nonce now key c
  accept_claim_iff tx_nonce now key c =
      (accept_claim→ tx_nonce now key c, →accept_claim tx_nonce now key c)
