-- ===== src/Verifier/Strictest.antt =====
-- The error of a signer whom `verify_signed_tx` (crates/core/src/verifier.rs) refuses.
use morpheum_signing.Common.{
  ℕ, suc, ◌≡◌, refl, none, some, List, [], ◌∷◌, Bytes, get_elem?, Result-cases, inl, inr, ok, err,
  arith,
}
use morpheum_signing.Proto.{SignMode}
use morpheum_signing.Error.{SigningError}
use morpheum_signing.Primitives.{Primitives}
use morpheum_signing.Types.PublicKey.{PublicKey}
use morpheum_signing.Verifier.Dispatch.{verify_signature}
use morpheum_signing.Verifier.Matrix.{verify_signature_iff}
use morpheum_signing.Verifier.{returned, verify_ladder}
use morpheum_signing.Verifier.Loop.{Signed}

module _ (p : Primitives) (key : PublicKey) (sigs : List Bytes) (i : ℕ) (mode : SignMode)
    (sig : Bytes) (at : get_elem? sigs i ≡ some sig) where
  first_rung :
      (b : p.Binding) (preimage : Bytes) (rest : List (p.Binding × Bytes))
      → verify_signature p key preimage sig mode ≡ ok tt
      → Signed p ((b, preimage) ∷ rest) sigs i mode key
  first_rung b preimage rest h = record {
    sig = sig;
    sig_at = at;
    rung = 0;
    binding = b;
    preimage = preimage;
    accepted_preimage = refl;
    accepts = (verify_signature_iff p key preimage sig mode).0 h;
  }

  later_rung :
      (b : p.Binding) (preimage : Bytes) (rest : List (p.Binding × Bytes))
      → Signed p rest sigs i mode key
      → Signed p ((b, preimage) ∷ rest) sigs i mode key
  later_rung b preimage rest s = record {
    sig = s.sig;
    sig_at = s.sig_at;
    rung = suc s.rung;
    binding = s.binding;
    preimage = s.preimage;
    accepted_preimage = s.accepted_preimage;
    accepts = s.accepts;
  }

  keeps :
      (e : SigningError) (ladder : List (p.Binding × Bytes))
      → ¬ Signed p ladder sigs i mode key
      → verify_ladder p key sigs i mode (some e) ladder ≡ err (returned e)
  unfolding verify_ladder
  keeps e [] unsigned = refl
  keeps e ((b, preimage) ∷ rest) unsigned =
      elim (Result-cases (verify_signature p key preimage sig mode)) [
        | inl (u, h) ↦ absurd (unsigned (first_rung b preimage rest h))
        | inr (x, h) ↦
            ground (arith, at, h, keeps e rest (λ s. unsigned (later_rung b preimage rest s)))
      ]

  -- A signer whose signature is accepted over no preimage of the ladder is refused with the error
  -- of the first preimage, the strictest one, whatever the later ones reported.
  pub verify_ladder-err :
      (b : p.Binding) (preimage : Bytes) (rest : List (p.Binding × Bytes))
      → ¬ Signed p ((b, preimage) ∷ rest) sigs i mode key
      → (e : SigningError) × (verify_signature p key preimage sig mode ≡ err e)
        × (verify_ladder p key sigs i mode none ((b, preimage) ∷ rest) ≡ err (returned e))
  unfolding verify_ladder
  verify_ladder-err b preimage rest unsigned =
      elim (Result-cases (verify_signature p key preimage sig mode)) [
        | inl (u, h) ↦ absurd (unsigned (first_rung b preimage rest h))
        | inr (x, h) ↦ (
          x,
          h,
          ground (arith, at, h, keeps x rest (λ s. unsigned (later_rung b preimage rest s))),
        )
      ]
