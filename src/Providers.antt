-- ===== src/Providers.antt =====
-- `next_nonce` of the HTTP nonce providers: crates/native/src/providers/sentry.rs and portal.rs.
-- Their constructors are in a child module. The HTTP client (reqwest) is a parameter.
pub mod Sequential
pub mod Constructors
use Prim.Native.String.{◌++◌ as str_append}
use morpheum_signing.Common.{
  ℕ, ◌+◌, ◌%◌, ◌^◌, String, Bool, Option, none, some, ltb, if◌then◌else◌, Result, ok, err, map_err,
  ok_or, ◌>>=◌,
}
use morpheum_signing.Proto.{Nonce}
use morpheum_signing.Error.{SigningError, nonce, fetch_failed}
use morpheum_signing.Primitives.{Primitives}
use morpheum_signing.Exec.{Exec}
use morpheum_signing.Types.Address.{AccountId}
use morpheum_signing.Signer.{NonceProvider}

-- What the client returns: the status as it is displayed, whether it is a success, and the body
-- read as text and as JSON, which may fail with the text of an error.
pub record Response (A : Type 0) : Type 0 where
  pub status : String
  pub is_success : Bool
  pub text : Result String String
  pub json : Result String A

pub record QueryNonceStateResponse : Type 0 where
  pub last_monotonic : ℕ

pub record GenerateNextNonceRequest : Type 0 where
  pub agent_did : String
  pub agent_hash : String

pub record GenerateNextNonceResponse : Type 0 where
  pub monotonic : ℕ
  pub ts_ms : ℕ
  pub sub : ℕ

pub record Client (W : Type 0) : Type 0 where
  pub get : String → W → Result String (Response QueryNonceStateResponse) × W
  pub post :
      String → GenerateNextNonceRequest → W → Result String (Response GenerateNextNonceResponse) × W

abbrev pub failed : String → SigningError
failed message = nonce (fetch_failed message)

-- "{method} {url}{tail}"
abbrev pub report : String → String → String → SigningError
report method url tail = failed (str_append method (str_append " " (str_append url tail)))

-- `.text().await.unwrap_or_default()`
abbrev pub text_of : Result String String → String
text_of (ok t) = t
text_of (err e) = ""

-- the test on the status, and the JSON of the body
unfoldable pub read_response : {A : Type 0} → String → String → Response A → Result SigningError A
read_response method url r =
    if r.is_success
    then map_err (λ e. report method url (str_append " returned invalid JSON: " e)) r.json
    else err (
        report method url
          (str_append " returned HTTP " (str_append r.status (str_append ": " (text_of r.text)))))

-- `send().await?` and what follows
unfoldable pub receive :
    {A : Type 0} → String → String → Result String (Response A) → Result SigningError A
unfolding read_response
receive method url sent = do
  r ← map_err (λ e. report method url (str_append " failed: " e)) sent
  read_response method url r

-- `last_monotonic.checked_add(1)` on 64 bits
unfoldable pub checked_next : ℕ → Option ℕ
checked_next last = if ltb (last + 1) (2 ^ 64) then some (last + 1) else none

-- `d.as_millis() as u32`, 0 before the epoch
unfoldable pub now_ms : Option ℕ → ℕ
now_ms none = 0
now_ms (some ms) = ms % 2 ^ 32

unfoldable pub sequential_nonce : Option ℕ → QueryNonceStateResponse → Result SigningError Nonce
unfolding checked_next now_ms
sequential_nonce clock state = do
  next ← ok_or (checked_next state.last_monotonic) (failed "monotonic nonce overflow")
  ok (record { monotonic = next; ts_ms = now_ms clock; sub = 0 })

module _ (p : Primitives) {W : Type 0} (client : Client W) where
  abbrev pub sentry_url : String → AccountId → String
  sentry_url base id =
      str_append base (str_append "/auth/v1/nonce-state?address=" (p.hex_encode id.id))

  -- `SentryNonceProvider::next_nonce`
  unfoldable pub sentry_next_nonce : (W → Option ℕ) → String → AccountId → Exec W Nonce
  unfolding receive sequential_nonce
  sentry_next_nonce clock base id w =
      let (sent, w') = client.get (sentry_url base id) w in
      ((do state ← receive "GET" (sentry_url base id) sent; sequential_nonce (clock w') state), w')

  abbrev pub sentry_provider : (W → Option ℕ) → String → NonceProvider W
  sentry_provider clock base = record {
    next_nonce = sentry_next_nonce clock base;
    strategy_name = "sentry_sequential_nonce_provider";
  }

  abbrev pub portal_url : String → String
  portal_url base = str_append base "/auth/v1/next-nonce"

  abbrev pub portal_request : AccountId → GenerateNextNonceRequest
  portal_request id = record {
    agent_did = str_append "did:agent:" (p.hex_encode id.id);
    agent_hash = p.hex_encode id.id;
  }

  -- `PortalNonceProvider::next_nonce`
  unfoldable pub portal_next_nonce : String → AccountId → Exec W Nonce
  unfolding receive
  portal_next_nonce base id w =
      let (sent, w') = client.post (portal_url base) (portal_request id) w in
      (
        (do
          r ← receive "POST" (portal_url base) sent
          ok (record { monotonic = r.monotonic; ts_ms = r.ts_ms; sub = r.sub })),
        w',
      )
