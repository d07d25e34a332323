-- ===== src/Tests/Providing.antt =====
-- The sequential provider, and the error of a refused signer, at concrete data.
use morpheum_signing.Common.{ℕ, suc, ◌≡◌, refl, ◌≢◌, true, none, some, [], ◌∷◌, ok, err, arith}
use morpheum_signing.Proto.{Nonce, SignMode}
use morpheum_signing.Error.{SigningError}
use morpheum_signing.Types.Address.{AccountId}
use morpheum_signing.Types.PublicKey.{PublicKey}
use morpheum_signing.Builder.{TxBuilder, sign}
use morpheum_signing.Providers.{
  QueryNonceStateResponse, Client, sequential_nonce, sentry_url, sentry_next_nonce, sentry_provider,
  receive, now_ms, checked_next, read_response,
}
use morpheum_signing.Providers.Sequential.{
  Follows, Answered, sentry_next_nonce-Follows, sign_claim-sentry_provider,
}
use morpheum_signing.Verifier.Dispatch.{verify_signature}
use morpheum_signing.Verifier.{returned, verify_ladder}
use morpheum_signing.Verifier.Loop.{Signed, verify_ladder_iff}
use morpheum_signing.Verifier.Strictest.{verify_ladder-err}
use morpheum_signing.Tests.Toy.{toy, key, claim, clock}
use morpheum_signing.Tests.Signing.{signed, with_claim}

-- An endpoint that counts, and has no portal.
abbrev client : Client ℕ
client = record {
  get = λ url w. (
    ok (record {
      status = "200 OK";
      is_success = true;
      text = ok "";
      json = ok (record { last_monotonic = w });
    }),
    suc w,
  );
  post = λ url request w. (err "refused", w);
}

abbrev third : Nonce
third = record { monotonic = 3; ts_ms = 3000; sub = 0 }

abbrev id : AccountId
id = record { id = key }

answers : sentry_next_nonce toy client clock "http://127.0.0.1:8080" id 2 ≡ (ok third, 3)
unfolding sentry_next_nonce receive read_response sequential_nonce checked_next now_ms
answers = refl

sentry_next_nonce-Follows_example :
    (state : QueryNonceStateResponse) × Answered
      (client.get (sentry_url toy client "http://127.0.0.1:8080" id) 2).0
      state
    × ((client.get (sentry_url toy client "http://127.0.0.1:8080" id) 2).1 ≡ 3)
    × Follows state (clock 3) third
sentry_next_nonce-Follows_example =
    sentry_next_nonce-Follows toy client clock "http://127.0.0.1:8080" id 2 third 3 answers

abbrev sequential : TxBuilder toy ℕ
sequential = record with_claim {
  manual_nonce = none;
  nonce_provider = some (sentry_provider toy client clock "http://127.0.0.1:8080");
}

sign_claim-sentry_provider_example : sign toy clock sequential 2 ≢ (ok signed, 3)
sign_claim-sentry_provider_example =
    sign_claim-sentry_provider toy client clock "http://127.0.0.1:8080" sequential claim 2 signed 3
      refl refl refl (omega arith)

rejected :
    verify_ladder toy
      (PublicKey.schnorr key)
      ((4 ∷ []) ∷ [])
      0
      SignMode.ed25519
      none
      ((tt, 4 ∷ []) ∷ [])
    ≢ ok tt
unfolding verify_ladder verify_signature
rejected = λ h. ground (arith, h)

not_signed :
    ¬ Signed toy ((tt, 4 ∷ []) ∷ []) ((4 ∷ []) ∷ []) 0 SignMode.ed25519 (PublicKey.schnorr key)
not_signed s = rejected (
    (verify_ladder_iff toy (PublicKey.schnorr key) ((4 ∷ []) ∷ []) 0 SignMode.ed25519 none
        ((tt, 4 ∷ []) ∷ [])).1
      s)

verify_ladder-err_example :
    (e : SigningError) × (verify_signature toy
        (PublicKey.schnorr key)
        (4 ∷ [])
        (4 ∷ [])
        SignMode.ed25519
      ≡ err e)
    × (verify_ladder toy
          (PublicKey.schnorr key)
          ((4 ∷ []) ∷ [])
          0
          SignMode.ed25519
          none
          ((tt, 4 ∷ []) ∷ [])
        ≡ err (returned e))
verify_ladder-err_example =
    verify_ladder-err toy (PublicKey.schnorr key) ((4 ∷ []) ∷ []) 0 SignMode.ed25519 (4 ∷ []) refl
      tt (4 ∷ []) [] not_signed
