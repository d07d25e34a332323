-- ===== src/Providers/Sequential.antt =====
-- What the provider of crates/native/src/providers/sentry.rs gives, and its use by the builder.
use morpheum_signing.Common.{
  ℕ, ◌+◌, ◌^◌, ◌<◌, ◌≡◌, ◌≢◌, refl, ap, ◌↔◌, String, true, Option, none, some, Result, ok, err,
  arith, >>=-eq-ok,
}
use mathlib.Core.Path.{subst}
use morpheum_signing.Proto.{Nonce}
use morpheum_signing.Primitives.{Primitives}
use morpheum_signing.Types.Address.{AccountId}
use morpheum_signing.Types.SignedTx.{SignedTx}
use morpheum_signing.Claim.{TradingKeyClaim}
use morpheum_signing.Builder.{TxBuilder, sign, resolve_nonce}
use morpheum_signing.Builder.Covered.{sign-Run}
use morpheum_signing.Builder.Claims.{embed_claim_iff}
use morpheum_signing.Builder.{embed_claim}
use morpheum_signing.Providers.{
  Response, QueryNonceStateResponse, Client, receive, read_response, checked_next, now_ms,
  sequential_nonce, sentry_url, sentry_next_nonce, sentry_provider,
}

-- The nonce that follows the state that the endpoint answered with.
pub record Follows (state : QueryNonceStateResponse) (clock : Option ℕ) (n : Nonce) : Type 0 where
  pub next : n.monotonic ≡ state.last_monotonic + 1
  pub in_range : n.monotonic < 2 ^ 64
  pub time : n.ts_ms ≡ now_ms clock
  pub time_in_range : n.ts_ms < 2 ^ 32
  pub sub : n.sub ≡ 0

now_ms-lt : (clock : Option ℕ) → now_ms clock < 2 ^ 32
unfolding now_ms
now_ms-lt none = omega arith
now_ms-lt (some ms) = omega arith

sequential_nonce→ :
    (clock : Option ℕ) (state : QueryNonceStateResponse) (n : Nonce)
    → sequential_nonce clock state ≡ ok n
    → Follows state clock n
unfolding sequential_nonce checked_next
sequential_nonce→ clock state n h = ground (arith, h, now_ms-lt clock)

→sequential_nonce :
    (clock : Option ℕ) (state : QueryNonceStateResponse) (n : Nonce)
    → Follows state clock n
    → sequential_nonce clock state ≡ ok n
unfolding sequential_nonce checked_next
→sequential_nonce clock state n f = ground (arith, f.next, f.in_range, f.time, f.sub)

-- The sequential nonce is given exactly when it fits 64 bits: the successor of the last one, with
-- the low 32 bits of the clock's milliseconds and sub 0.
pub sequential_nonce_iff :
    (clock : Option ℕ) (state : QueryNonceStateResponse) (n : Nonce)
    → (sequential_nonce clock state ≡ ok n) ↔ Follows state clock n
sequential_nonce_iff clock state n =
    (sequential_nonce→ clock state n, →sequential_nonce clock state n)

-- What the endpoint answered.
pub record Answered {A : Type 0} (sent : Result String (Response A)) (answer : A) : Type 0 where
  pub response : Response A
  pub arrived : sent ≡ ok response
  pub success : response.is_success ≡ true
  pub json : response.json ≡ ok answer

receive→ :
    {A : Type 0} (method url : String) (sent : Result String (Response A)) (answer : A)
    → receive method url sent ≡ ok answer
    → Answered sent answer
unfolding receive read_response
receive→ method url (err e) answer h = ground (arith, h)
receive→ method url (ok r) answer h = record {
  response = r;
  arrived = refl;
  success = ground (arith, h);
  json = ground (arith, h);
}

module _ (p : Primitives) {W : Type 0} (client : Client W) (clock : W → Option ℕ)
    (base : String) where
  -- A nonce that the provider returns follows the state that the endpoint answered to the one
  -- request that was sent, and the world is the one after that request.
  pub sentry_next_nonce-Follows :
      (id : AccountId) (w : W) (n : Nonce) (w' : W)
      → sentry_next_nonce p client clock base id w ≡ (ok n, w')
      → (state : QueryNonceStateResponse) × Answered
          (client.get (sentry_url p client base id) w).0
          state
        × ((client.get (sentry_url p client base id) w).1 ≡ w')
        × Follows state (clock w') n
  unfolding sentry_next_nonce
  sentry_next_nonce-Follows id w n w' h =
      let sent = client.get (sentry_url p client base id) w in
      let same : sent.1 ≡ w' = ap (λ r. r.1) h in
      let (state, received, given) =
        >>=-eq-ok (receive "GET" (sentry_url p client base id) sent.0)
          (sequential_nonce (clock sent.1)) (ap (λ r. r.0) h) in
      (
        state,
        receive→ "GET" (sentry_url p client base id) sent.0 state received,
        same,
        (sequential_nonce_iff (clock w') state n).0
            (subst (λ x. sequential_nonce (clock x) state ≡ ok n) same given),
      )

  -- With this provider and no manual nonce, a transaction with a claim whose sub-range starts above
  -- 0 is never signed, whatever the endpoint answers: the nonce has sub 0, which the claim does not
  -- cover.
  pub sign_claim-sentry_provider :
      (b : TxBuilder p W) (c : TradingKeyClaim) (w : W) (s : SignedTx) (w' : W)
      → b.manual_nonce ≡ none
      → b.nonce_provider ≡ some (sentry_provider p client clock base)
      → b.trading_key_claim ≡ some c
      → 0 < c.nonce_sub_range_start
      → sign p clock b w ≢ (ok s, w')
  unfolding resolve_nonce
  sign_claim-sentry_provider b c w s w' m provided e start h =
      let r = sign-Run p clock b w s w' h in
      let asked : sentry_next_nonce p client clock base b.signer.account_id w
          ≡ (ok r.nonce, r.before) =
        ground (arith, m, provided, r.nonce_from) in
      let (state, answered, same, follows) =
        sentry_next_nonce-Follows b.signer.account_id w r.nonce r.before asked in
      let (valid, low, high, o) = (embed_claim_iff p clock c r.nonce r.before r.options).0 (
        subst (λ x. embed_claim p clock x r.nonce r.before ≡ (ok r.options, r.before)) e
          r.claim_from) in
      omega (arith, low, start, follows.sub)
