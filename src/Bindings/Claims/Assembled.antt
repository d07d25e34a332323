-- ===== src/Bindings/Claims/Assembled.antt =====
-- The builders of claims that JavaScript can make with the exported methods
-- (crates/wasm/src/bindings.rs), and what holds of each.
use mathlib.Core.Path.{subst}
use morpheum_signing.Common.{
  ℕ, ◌≡◌, sym, String, Option, none, some, Bytes, length, ok, arith, inl, inr, Option-cases,
}
use morpheum_signing.Types.Address.{AccountId}
use morpheum_signing.Types.Signature.{Signature, to_bytes}
use morpheum_signing.Claim.VcClaimBuilder
use morpheum_signing.Bindings.Claims.{
  signature_of_type, VcClaimBuilderWasm, new, issuer, subject, permissions, max_daily_usd, expiry,
  nonce_sub_range, signature,
}

-- the builders that the exported methods make
pub data Assembled : VcClaimBuilderWasm → Type 0 where
  by_new : Assembled new
  by_issuer :
      {b c : VcClaimBuilderWasm} (value : Bytes) → Assembled b → issuer b value ≡ ok c → Assembled c
  by_subject :
      {b c : VcClaimBuilderWasm} (value : Bytes)
      → Assembled b
      → subject b value ≡ ok c
      → Assembled c
  by_permissions : {b : VcClaimBuilderWasm} (n : ℕ) → Assembled b → Assembled (permissions b n)
  by_max_daily_usd : {b : VcClaimBuilderWasm} (n : ℕ) → Assembled b → Assembled (max_daily_usd b n)
  by_expiry : {b : VcClaimBuilderWasm} (n : ℕ) → Assembled b → Assembled (expiry b n)
  by_nonce_sub_range :
      {b : VcClaimBuilderWasm} (start end : ℕ)
      → Assembled b
      → Assembled (nonce_sub_range b start end)
  by_signature :
      {b c : VcClaimBuilderWasm} (value : Bytes) (type : String)
      → Assembled b
      → signature b value type ≡ ok c
      → Assembled c

abbrev pub Sized : Option AccountId → Type 0
Sized none = Unit {0}
Sized (some a) = length a.id ≡ 32

-- The type that was recorded is that of the signature that was set.
abbrev pub Agrees : Option Signature → Option String → Type 0
Agrees none none = Unit {0}
Agrees none (some t) = ⊥
Agrees (some s) none = ⊥
Agrees (some s) (some t) = (length (to_bytes s) ≡ 64) × (signature_of_type t (to_bytes s) ≡ some s)

pub record IsTyped (b : VcClaimBuilderWasm) : Type 0 where
  pub issuer_size : Sized b.inner.issuer
  pub subject_size : Sized b.inner.subject
  pub agrees : Agrees b.inner.signature b.signature_type

typed_bytes :
    (t : String) (arr : Bytes) (s : Signature) → signature_of_type t arr ≡ some s → to_bytes s ≡ arr
unfolding signature_of_type to_bytes
typed_bytes t arr s h = ground (arith, h)

signature-Agrees :
    (t : String) (arr : Bytes) (s : Signature)
    → length arr ≡ 64
    → signature_of_type t arr ≡ some s
    → Agrees (some s) (some t)
signature-Agrees t arr s n h = rw (typed_bytes t arr s h) (n, h)

-- What the methods that check their argument return.
issuer-ok :
    (b c : VcClaimBuilderWasm) (value : Bytes)
    → issuer b value ≡ ok c
    → (length value ≡ 32)
      × (c ≡ record b { inner = VcClaimBuilder.set_issuer (record { id = value }) b.inner })
unfolding issuer
issuer-ok b c value h = ground (arith, h)

subject-ok :
    (b c : VcClaimBuilderWasm) (value : Bytes)
    → subject b value ≡ ok c
    → (length value ≡ 32)
      × (c ≡ record b { inner = VcClaimBuilder.set_subject (record { id = value }) b.inner })
unfolding subject
subject-ok b c value h = ground (arith, h)

signature-ok :
    (b c : VcClaimBuilderWasm) (value : Bytes) (type : String)
    → signature b value type ≡ ok c
    → (s : Signature) × (length value ≡ 64)
      × (signature_of_type type value ≡ some s)
      × (c ≡ record { inner = VcClaimBuilder.set_signature s b.inner; signature_type = some type })
unfolding signature
signature-ok b c value type h = elim (Option-cases (signature_of_type type value)) [
  | inl e ↦ absurd (ground (arith, h, e))
  | inr (s, e) ↦ (s, ground (arith, h, e), e, ground (arith, h, e))
]

-- Every builder that the exported methods make holds an issuer and a subject of 32 bytes, if any,
-- and a signature of 64 bytes exactly if it holds a type, which is the type of that signature.
pub Assembled-IsTyped : {b : VcClaimBuilderWasm} → Assembled b → IsTyped b
unfolding issuer subject permissions max_daily_usd expiry nonce_sub_range signature
Assembled-IsTyped by_new = record { issuer_size = tt; subject_size = tt; agrees = tt }
Assembled-IsTyped (by_issuer {b} {c} value a h) =
    let ih = Assembled-IsTyped a in
    let (size, e) = issuer-ok b c value h in
    subst IsTyped (sym e)
      (record { issuer_size = size; subject_size = ih.subject_size; agrees = ih.agrees })
Assembled-IsTyped (by_subject {b} {c} value a h) =
    let ih = Assembled-IsTyped a in
    let (size, e) = subject-ok b c value h in
    subst IsTyped (sym e)
      (record { issuer_size = ih.issuer_size; subject_size = size; agrees = ih.agrees })
Assembled-IsTyped (by_permissions n a) =
    let ih = Assembled-IsTyped a in
    record { issuer_size = ih.issuer_size; subject_size = ih.subject_size; agrees = ih.agrees }
Assembled-IsTyped (by_max_daily_usd n a) =
    let ih = Assembled-IsTyped a in
    record { issuer_size = ih.issuer_size; subject_size = ih.subject_size; agrees = ih.agrees }
Assembled-IsTyped (by_expiry n a) =
    let ih = Assembled-IsTyped a in
    record { issuer_size = ih.issuer_size; subject_size = ih.subject_size; agrees = ih.agrees }
Assembled-IsTyped (by_nonce_sub_range start end a) =
    let ih = Assembled-IsTyped a in
    record { issuer_size = ih.issuer_size; subject_size = ih.subject_size; agrees = ih.agrees }
Assembled-IsTyped (by_signature {b} {c} value type a h) =
    let ih = Assembled-IsTyped a in
    let (s, size, kind, e) = signature-ok b c value type h in
    subst IsTyped (sym e) (record {
      issuer_size = ih.issuer_size;
      subject_size = ih.subject_size;
      agrees = signature-Agrees type value s size kind;
    })
