-- ===== src/Exec.antt =====
-- Asynchronous code that calls signers, nonce providers and the clock: an action on the state of
-- the world `W`, which comes back beside the result, also beside an error.
use mathlib.Core.Path.{subst}
use morpheum_signing.Common.{
  ◌≡◌, ◌⊎◌, inl, inr, refl, sym, ap, Bool, Result, ok, err, arith, if◌then◌else◌,
}
use morpheum_signing.Error.{SigningError}

abbrev pub Exec : Type 0 → Type 0 → Type 0
Exec W A = W → Result SigningError A × W

module _ {W A : Type 0} where
  abbrev pub pure : A → Exec W A
  pure a w = (ok a, w)

  -- `?` on a pure result
  abbrev pub lift : Result SigningError A → Exec W A
  lift r w = (r, w)

  abbrev pub gets : (W → A) → Exec W A
  gets f w = (ok (f w), w)

abbrev pub refuse_if : {W : Type 0} → Bool → SigningError → Exec W (Unit {0})
refuse_if test e w = (if test then err e else ok tt, w)

module _ {W A B : Type 0} where
  infixl 5 ◌>>=◌ ◌>>◌
  abbrev pub ◌>>=◌ : Exec W A → (A → Exec W B) → Exec W B
  ◌>>=◌ m f w = let (r, w') = m w in elim r [ ok a ↦ f a w' | err e ↦ (err e, w') ]

  abbrev pub ◌>>◌ : Exec W A → Exec W B → Exec W B
  m >> k = m >>= λ _. k

  -- A block goes on with what its first action returned.
  pub >>=-ok :
      (m : Exec W A) (f : A → Exec W B) (w : W) {a : A} {w1 : W}
      → m w ≡ (ok a, w1)
      → (m >>= f) w ≡ f a w1
  >>=-ok m f w {a} {w1} e =
      ap
        (λ (out : Result SigningError A × W). elim out.0 as (λ x. Result SigningError B × W) [
          | ok a ↦ f a out.1
          | err e ↦ (err e, out.1)
        ])
        e

  -- Inversion of a block that returned.
  pub >>=-eq-ok :
      (m : Exec W A) (f : A → Exec W B) (w : W) {b : B} {w' : W}
      → (m >>= f) w ≡ (ok b, w')
      → (a : A) × (w1 : W) × (m w ≡ (ok a, w1)) × (f a w1 ≡ (ok b, w'))
  >>=-eq-ok m f w {b} {w'} h = go (m w) refl h
    where
      go :
          (r : Result SigningError A × W)
          → m w ≡ r
          → (elim r.0 as (λ x. Result SigningError B × W) [ ok a ↦ f a r.1 | err e ↦ (err e, r.1) ])
            ≡ (ok b, w')
          → (a : A) × (w1 : W) × (m w ≡ (ok a, w1)) × (f a w1 ≡ (ok b, w'))
      go (ok a, w1) e h = (a, w1, e, h)
      go (err x, w1) e h = ground arith

  -- Inversion of a block that failed: in its first action or behind it.
  pub >>=-eq-err :
      (m : Exec W A) (f : A → Exec W B) (w : W) {e : SigningError} {w' : W}
      → (m >>= f) w ≡ (err e, w')
      → (m w ≡ (err e, w')) ⊎ ((a : A) × (w1 : W) × (m w ≡ (ok a, w1)) × (f a w1 ≡ (err e, w')))
  >>=-eq-err m f w {e} {w'} h = go (m w) refl h
    where
      go :
          (r : Result SigningError A × W)
          → m w ≡ r
          → (elim r.0 as (λ x. Result SigningError B × W) [ ok a ↦ f a r.1 | err x ↦ (err x, r.1) ])
            ≡ (err e, w')
          → (m w ≡ (err e, w')) ⊎ ((a : A) × (w1 : W) × (m w ≡ (ok a, w1)) × (f a w1 ≡ (err e, w')))
      go (ok a, w1) first h = inr (a, w1, first, h)
      go (err x, w1) first h = inl (ground (arith, first, h))

-- Inversion of a block that begins with a pure check.
pub lift->>-eq-ok :
    {W B : Type 0} (r : Result SigningError (Unit {0})) (k : Exec W B) (w : W) {b : B} {w' : W}
    → (lift r >> k) w ≡ (ok b, w')
    → (r ≡ ok tt) × (k w ≡ (ok b, w'))
lift->>-eq-ok (ok u) k w h = (refl, h)
lift->>-eq-ok (err e) k w h = ground arith

pub pure-eq-ok :
    {W A : Type 0} (a : A) (w : W) {b : A} {w' : W} → pure a w ≡ (ok b, w') → (b ≡ a) × (w ≡ w')
pure-eq-ok a w h = ground arith

-- What every result of an action satisfies, errors aside.
pub record Ensures {W A : Type 0} (P : A → Type 0) (m : Exec W A) : Type 0 where
  pub holds : (w : W) (a : A) (w' : W) → m w ≡ (ok a, w') → P a

module _ {W A B : Type 0} {P : B → Type 0} where
  pub bind-Ensures :
      (m : Exec W A) (f : A → Exec W B) → ((a : A) → Ensures P (f a)) → Ensures P (m >>= f)
  bind-Ensures m f next = record {
    holds = λ w b w' e. let (a, w1, first, rest) = >>=-eq-ok m f w e in (next a).holds w1 b w' rest;
  }

  -- The same where the first action ensures something too.
  pub bind-Ensures_both :
      {Q : A → Type 0} (m : Exec W A) (f : A → Exec W B)
      → Ensures Q m
      → ((a : A) → Q a → Ensures P (f a))
      → Ensures P (m >>= f)
  bind-Ensures_both m f given next = record {
    holds = λ w b w' e.
        let (a, w1, first, rest) = >>=-eq-ok m f w e in
        (next a (given.holds w a w1 first)).holds w1 b w' rest;
  }

module _ {W A : Type 0} {P : A → Type 0} where
  pub pure-Ensures : (a : A) → P a → Ensures P (pure {W = W} a)
  pure-Ensures a given = record { holds = λ w b w' e. subst P (sym (pure-eq-ok a w e).0) given }

  pub lift-Ensures :
      (r : Result SigningError A) → ((a : A) → r ≡ ok a → P a) → Ensures P (lift {W = W} r)
  lift-Ensures r given = record { holds = λ w a w' e. given a (ap (λ out. out.0) e) }
