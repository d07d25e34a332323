-- ===== src/Providers/Constructors.antt =====
-- The constructors of the HTTP nonce providers (crates/native/src/providers/sentry.rs and
-- portal.rs), which set time limits on the client and trim the URL.
use Prim.Native.Char.{Char, code}
use Prim.Native.String.{◌++◌ as str_append}
use text.Mathlib.TextLemmas.{cons-append}
use morpheum_signing.Common.{
  ℕ, ◌≡◌, refl, ap, ◌∙◌, String, Bool, true, false, ◌==◌, ◌&&◌, Option, none, some, if◌then◌else◌,
  Result, ok, err, inl, inr, Bool-cases, map_err, ◌>>=◌, arith,
}
use morpheum_signing.Error.{SigningError}
use morpheum_signing.Primitives.{Primitives}
use morpheum_signing.Signer.{NonceProvider}
use morpheum_signing.Providers.{Client, failed, sentry_next_nonce, portal_next_nonce}

abbrev is_empty_text : String → Bool
is_empty_text String.[] = true
is_empty_text (String.◌∷◌ c s) = false

-- `trim_end_matches('/')`
unfoldable pub trim_slashes : String → String
trim_slashes String.[] = String.[]
trim_slashes (String.◌∷◌ c s) =
    let rest = trim_slashes s in
    if code c == 0x2F && is_empty_text rest then String.[] else String.◌∷◌ c rest

-- A slash behind a text is trimmed.
trim_slashes-append : (s : String) → trim_slashes (str_append s "/") ≡ trim_slashes s
unfolding trim_slashes
trim_slashes-append String.[] = refl
trim_slashes-append (String.◌∷◌ c s) =
    ap trim_slashes (cons-append c s "/")
    ∙ ap (λ rest. if code c == 0x2F && is_empty_text rest then String.[] else String.◌∷◌ c rest)
        (trim_slashes-append s)

pub ends_in_slash : String → Bool
ends_in_slash String.[] = false
ends_in_slash (String.◌∷◌ c String.[]) = code c == 0x2F
ends_in_slash (String.◌∷◌ c (String.◌∷◌ d s)) = ends_in_slash (String.◌∷◌ d s)

ends-cons :
    (c : Char) (rest : String)
    → ends_in_slash rest ≡ false
    → ends_in_slash (if code c == 0x2F && is_empty_text rest then String.[] else String.◌∷◌ c rest)
      ≡ false
unfolding ends_in_slash
ends-cons c String.[] h = elim (Bool-cases (code c == 0x2F)) [
  | inl slash ↦ rw slash refl
  | inr other ↦ rw other other
]
ends-cons c (String.◌∷◌ d s) h = elim (Bool-cases (code c == 0x2F)) [
  | inl slash ↦ rw slash h
  | inr other ↦ rw other h
]

-- No slash is left at the end.
ends-trim_slashes : (s : String) → ends_in_slash (trim_slashes s) ≡ false
unfolding trim_slashes ends_in_slash
ends-trim_slashes String.[] = refl
ends-trim_slashes (String.◌∷◌ c s) = ends-cons c (trim_slashes s) (ends-trim_slashes s)

-- `Client::builder` with a time limit and one for connecting, in milliseconds
abbrev pub ClientBuilder : Type 0 → Type 0
ClientBuilder W = ℕ → ℕ → Result String (Client W)

pub record SentryNonceProvider (W : Type 0) : Type 0 where
  pub client : Client W
  pub base_url : String

pub record PortalNonceProvider (W : Type 0) : Type 0 where
  pub client : Client W
  pub base_url : String

module _ {W : Type 0} (build : ClientBuilder W) where
  unfoldable pub sentry_new : String → Result SigningError (SentryNonceProvider W)
  unfolding trim_slashes
  sentry_new base_url = do
    client ←
        map_err (λ e. failed (str_append "failed to build HTTP client for Sentry: " e))
          (build 10_000 5_000)
    ok (record { client = client; base_url = trim_slashes base_url })

  unfoldable pub portal_new : String → Result SigningError (PortalNonceProvider W)
  unfolding trim_slashes
  portal_new base_url = do
    client ←
        map_err (λ e. failed (str_append "failed to build HTTP client for AgentPortal: " e))
          (build 300 100)
    ok (record { client = client; base_url = trim_slashes base_url })

  -- `expect`: a panic on an error
  unfoldable pub sentry_local : Option (SentryNonceProvider W)
  unfolding sentry_new
  sentry_local = elim (sentry_new "http://127.0.0.1:8080") [ ok s ↦ some s | err e ↦ none ]

  unfoldable pub portal_local : Option (PortalNonceProvider W)
  unfolding portal_new
  portal_local = elim (portal_new "http://127.0.0.1:9090") [ ok s ↦ some s | err e ↦ none ]

  -- A URL makes the same provider with a slash behind it, and the provider that is made requests
  -- below a URL that ends in none.
  pub new-trims :
      (base : String)
      → (sentry_new (str_append base "/") ≡ sentry_new base)
        × (portal_new (str_append base "/") ≡ portal_new base)
        × ((s : SentryNonceProvider W) → sentry_new base ≡ ok s → ends_in_slash s.base_url ≡ false)
        × ((s : PortalNonceProvider W) → portal_new base ≡ ok s → ends_in_slash s.base_url ≡ false)
  unfolding sentry_new portal_new
  new-trims base = (
    rw (trim_slashes-append base),
    rw (trim_slashes-append base),
    λ s h. ap ends_in_slash (ground (arith, h)) ∙ ends-trim_slashes base,
    λ s h. ap ends_in_slash (ground (arith, h)) ∙ ends-trim_slashes base,
  )

-- The implementations of the trait.
module _ (p : Primitives) {W : Type 0} where
  unfoldable pub sentry_strategy : (W → Option ℕ) → SentryNonceProvider W → NonceProvider W
  unfolding sentry_next_nonce
  sentry_strategy clock s = record {
    next_nonce = sentry_next_nonce p s.client clock s.base_url;
    strategy_name = "sentry_sequential_nonce_provider";
  }

  unfoldable pub portal_strategy : PortalNonceProvider W → NonceProvider W
  unfolding portal_next_nonce
  portal_strategy s = record {
    next_nonce = portal_next_nonce p s.client s.base_url;
    strategy_name = "agent_portal_hot_nonce_provider";
  }
