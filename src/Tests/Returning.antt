-- ===== src/Tests/Returning.antt =====
-- When the builder signs, and the transactions of the builders over the local signers, at concrete
-- data.
use morpheum_signing.Common.{ℕ, ◌≡◌, ◌≢◌, ◌↔◌, refl, [], Bytes, ok}
use morpheum_signing.Types.SignedTx.{SignedTx}
use morpheum_signing.Builder.{sign}
use morpheum_signing.Builder.Returns.{Answers, Ready, sign_iff}
use morpheum_signing.EndToEnd.{BindsFirst}
use morpheum_signing.Signers.{solana_from_seed}
use morpheum_signing.Signers.Builders.{
  solana, by_solana, addressed, Succeeds, local_builders-verify_signed_tx,
}
use morpheum_signing.Tests.Toy.{toy, clock, signer, ctx, key, message}
use morpheum_signing.Tests.Signing.{with_claim}
use morpheum_signing.Tests.LocalSigners.{curves, curves-AcceptsOwn}

signer-Answers : Answers toy signer
signer-Answers = record { answers = λ doc w. (_, w, refl) }

sign_iff_example :
    ((s : SignedTx) × (w' : ℕ) × (sign toy clock with_claim 3 ≡ (ok s, w')))
    ↔ Ready toy clock with_claim 3
sign_iff_example = sign_iff toy clock with_claim 3 signer-Answers

first : BindsFirst toy ctx
first = record { ladder = λ body info account_number n. (tt, [], refl) }

bound : ctx.genesis_hash ≢ []
bound e = cc e

signing_never_fails :
    (k : curves.SecpSigningKey) (m : Bytes) → (sig : Bytes) × (curves.try_sign k m ≡ ok sig)
signing_never_fails k m = (_, refl)

local_builders-verify_signed_tx_example :
    Succeeds toy clock
      (addressed toy (solana toy curves (solana_from_seed curves key)) ctx message)
      ctx
      3
      7
local_builders-verify_signed_tx_example =
    local_builders-verify_signed_tx toy curves clock key (record { id = key })
      (solana toy curves (solana_from_seed curves key)) ctx message 3 7 curves-AcceptsOwn
      signing_never_fails first bound by_solana
