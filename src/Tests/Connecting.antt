-- ===== src/Tests/Connecting.antt =====
-- The browser wallets in a toy browser.
use morpheum_signing.Common.{
  ℕ, suc, ◌≡◌, ◌≢◌, refl, true, false, ◌⊎◌, String, none, some, [], ◌∷◌, Bytes, replicate,
  Option-cases, inl, inr, length-replicate, ok, arith,
}
use morpheum_signing.Types.PublicKey.{PublicKey, from_proto_any}
use morpheum_signing.Types.Signature.{Signature, to_bytes}
use morpheum_signing.Types.SignedTx.{SignedTx}
use morpheum_signing.Builder.{
  TxBuilder, sign, preconditions, resolve_nonce, embed_claim, check_stored_claim, assemble,
  sign_doc,
}
use morpheum_signing.Verifier.{VerifiedTx, verify_signed_tx}
use morpheum_signing.Wallets.{Browser, Hex}
use morpheum_signing.Wallets.MetaMask.{MetaMask}
use morpheum_signing.Wallets.Phantom.{Phantom, phantom_sign_message}
use morpheum_signing.Wallets.Taproot.{Taproot, taproot_connect}
use morpheum_signing.Wallets.WasmSigner.{
  metamask, phantom, taproot, wasm_signer, wasm_sign, wasm_public_key_proto,
}
use morpheum_signing.Wallets.Bounds.{
  KeySized, IsSized, by_taproot, wasm_sign-IsSized, Connects-KeySized,
}
use morpheum_signing.Wallets.Accounts.{Compares, wasm_account_id-to_account_id}
use morpheum_signing.Wallets.Refused.{metamask-verify_signed_tx}
use morpheum_signing.Wallets.Asked.{AskedIn, phantom-verify_signed_tx}
use morpheum_signing.EndToEnd.Replay.{Terms, document_bytes, Forged}
use morpheum_signing.Builder.Covered.{Run}
use morpheum_signing.Tests.Toy.{toy, clock, builder, nonce, ctx}
use morpheum_signing.Tests.Signing.{accepted_claim}
use morpheum_signing.Tests.Replaying.{ctx-BindsAlways}

abbrev pub browser : Browser ℕ
browser = record {
  Value = String;
  debug = λ v. v;
  from_str = λ s. s;
  from_number = λ n. "1";
  as_string = λ v. some v;
  is_undefined = λ v. false;
  is_null = λ v. false;
  is_function = λ v. true;
  window = λ w. some "window";
  new_object = λ w. ("{}", w);
  new_array = λ w. ("[]", w);
  array_of2 = λ u v w. ("[]", w);
  array_from = λ v w. (v, w);
  push = λ v u w. w;
  array_get = λ v i w. v;
  get = λ v name w. (ok name, w);
  set = λ v name u w. (ok true, w);
  call0 = λ f v w. (ok v, w);
  stringify = λ v w. (ok v, w);
  uint8_array = λ v w. some (replicate 64 4);
  request = λ v u w. (ok "0x04", suc w);
  connect = λ v w. (ok v, suc w);
  sign_bytes = λ v msg w. (ok v, suc w);
  request_accounts = λ v w. (ok "bc1p", suc w);
  get_public_key = λ v w. (ok "04", suc w);
  sign_text = λ v msg options w. (ok "04", suc w);
}

-- whatever the text, as many fours as the parameter says
abbrev pub hex : ℕ → Hex
hex n = record { decode = λ s. ok (replicate n 4); decode_to_slice = λ k s. ok (replicate k 4) }

abbrev account : MetaMask
account = record { cached_address = replicate 20 4; address_hex = "0x04" }

abbrev metamask_builder : TxBuilder toy ℕ
metamask_builder = record builder { signer = wasm_signer toy browser (hex 65) (metamask account) }

abbrev metamask_signed : SignedTx
metamask_signed = assemble toy metamask_builder nonce none (Signature.secp256k1 (replicate 64 4))

metamask_signs : sign toy clock metamask_builder 3 ≡ (ok metamask_signed, 4)
unfolding sign preconditions resolve_nonce embed_claim check_stored_claim wasm_signer
metamask_signs = refl

metamask-verify_signed_tx_example :
    verify_signed_tx toy metamask_signed ctx 0 7 ≢ ok accepted_claim.verified
metamask-verify_signed_tx_example =
    metamask-verify_signed_tx toy browser (hex 65) clock metamask_builder account 3 metamask_signed
      4 ctx 0 7 accepted_claim.verified refl refl refl metamask_signs

abbrev document : toy.SignDoc
document = 1 ∷ 2 ∷ []

wasm_sign-IsSized_example : IsSized (metamask account) (Signature.secp256k1 (replicate 64 4))
unfolding wasm_sign
wasm_sign-IsSized_example =
    wasm_sign-IsSized toy browser (hex 65) (metamask account) document 3
      (Signature.secp256k1 (replicate 64 4)) 4 refl

abbrev taproot_wallet : Taproot
taproot_wallet = record { cached_pubkey = replicate 32 4; cached_address = "bc1p" }

taproot_connects : taproot_connect browser (hex 33) 3 ≡ (ok taproot_wallet, 5)
unfolding taproot_connect
taproot_connects = refl

Connects-KeySized_example : KeySized (taproot taproot_wallet)
Connects-KeySized_example =
    Connects-KeySized browser (hex 33)
      (λ n text out e. ground (arith, e, length-replicate {A = ℕ} n 4))
      (by_taproot taproot_connects)

wasm_account_id-to_account_id_example :
    (from_proto_any (wasm_public_key_proto (taproot taproot_wallet))
      ≡ ok (PublicKey.schnorr (replicate 32 4)))
    × Compares toy (taproot taproot_wallet)
wasm_account_id-to_account_id_example =
    wasm_account_id-to_account_id toy (taproot taproot_wallet) refl

abbrev phantom_wallet : Phantom
phantom_wallet = record { cached_pubkey = replicate 32 4 }

abbrev phantom_builder : TxBuilder toy ℕ
phantom_builder = record builder {
  signer = wasm_signer toy browser (hex 65) (phantom phantom_wallet);
}

abbrev phantom_signed : SignedTx
phantom_signed = assemble toy phantom_builder nonce none (Signature.ed25519 (replicate 64 4))

phantom_signs : sign toy clock phantom_builder 3 ≡ (ok phantom_signed, 4)
unfolding sign preconditions resolve_nonce embed_claim check_stored_claim wasm_signer
phantom_signs = refl

no_letter : (t : Terms) (rest : Bytes) → document_bytes toy t ≢ 77 ∷ rest
no_letter t rest e = elim (Option-cases t.nonce) [
  | inl absent ↦ ground (arith, e, absent)
  | inr (n, present) ↦ ground (arith, e, present)
]

phantom-verify_signed_tx_example :
    ((r : Run toy clock phantom_builder 3 phantom_signed 4) × AskedIn toy browser
        (hex 65)
        clock
        phantom_builder
        3
        phantom_signed
        4
        r)
    × (((v : VerifiedTx) → verify_signed_tx toy phantom_signed ctx 0 7 ≢ ok v)
        ⊎ ((r : Run toy clock phantom_builder 3 phantom_signed 4) × AskedIn toy browser
              (hex 65)
              clock
              phantom_builder
              3
              phantom_signed
              4
              r
            × Forged toy phantom_builder
                (phantom_sign_message toy (sign_doc toy phantom_builder r.nonce r.options))
                (to_bytes r.signature)))
unfolding wasm_signer
phantom-verify_signed_tx_example =
    phantom-verify_signed_tx toy browser (hex 65) clock phantom_builder phantom_wallet 3
      phantom_signed 4 ctx 0 7 ctx-BindsAlways no_letter refl phantom_signs
