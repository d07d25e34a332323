-- ===== src/Bindings/TxBuilderWasm/Returned.antt =====
-- What `TxBuilderWasm::sign` (crates/wasm/src/bindings.rs) returns to JavaScript of the transaction
-- that `TxBuilder::sign` signs.
use morpheum_signing.Common.{ℕ, ◌≡◌, refl, sym, Option, some, [], ok, err, true}
use mathlib.Core.Path.{subst}
use morpheum_signing.Error.{SigningError}
use morpheum_signing.Error.Display.{display_error}
use morpheum_signing.Primitives.{Primitives}
use morpheum_signing.Types.SignedTx.{SignedTx, txhash_hex}
use morpheum_signing.Builder.{sign, assemble}
use morpheum_signing.Builder.Covered.{Run, sign-Run}
use morpheum_signing.Bindings.{Js, IsJs, JsObject, bytes, text, get_field, are_new, set_fields-ok}
use morpheum_signing.Bindings.TxBuilderWasm.{TxBuilderWasm, signed_fields, sign_object}

-- What a caller in JavaScript reads of a signed transaction.
pub record Shows (p : Primitives) (s : SignedTx) (obj : JsObject) : Type 0 where
  pub raw_bytes : get_field "raw_bytes" obj ≡ some (bytes s.raw_bytes)
  pub tx_raw_bytes : get_field "tx_raw_bytes" obj ≡ some (bytes s.raw_bytes)
  pub tx_bytes : get_field "tx_bytes" obj ≡ some (bytes (p.tx_codec.encode s.tx))
  pub txhash : get_field "txhash" obj ≡ some (text (txhash_hex p s))

module _ (p : Primitives) (js : Js) {W : Type 0} (clock : W → Option ℕ) where
  -- The object of a transaction that the builder assembled.
  run_shown :
      (t : TxBuilderWasm p W) (w : W) (s : SignedTx) (w' : W)
      → Run p clock t.inner w s w'
      → Shows p s (signed_fields p s)
  unfolding signed_fields assemble txhash_hex
  run_shown t w s w' r =
      subst (λ x. Shows p x (signed_fields p x)) (sym r.result)
        (record { raw_bytes = refl; tx_raw_bytes = refl; tx_bytes = refl; txhash = refl })

  run_new :
      (t : TxBuilderWasm p W) (w : W) (s : SignedTx) (w' : W)
      → Run p clock t.inner w s w'
      → are_new (signed_fields p s) [] ≡ true
  unfolding signed_fields assemble
  run_new t w s w' r = subst (λ x. are_new (signed_fields p x) [] ≡ true) (sym r.result) refl

  object_ok :
      (t : TxBuilderWasm p W) (w : W) (s : SignedTx) (w' : W)
      → IsJs js
      → sign p clock t.inner w ≡ (ok s, w')
      → sign_object p js clock t w ≡ (ok (signed_fields p s), w')
  unfolding sign_object
  object_ok t w s w' law h = rw h (
      rw (
        set_fields-ok js law (signed_fields p s) []
          (run_new t w s w' (sign-Run p clock t.inner w s w' h))))

  object_err :
      (t : TxBuilderWasm p W) (w : W) (e : SigningError) (w' : W)
      → sign p clock t.inner w ≡ (err e, w')
      → sign_object p js clock t w ≡ (err (display_error e), w')
  unfolding sign_object
  object_err t w e w' h = rw h

  -- When the builder signs, `TxBuilderWasm::sign` returns an object that holds the bytes to
  -- broadcast, the same bytes as those of the `TxRaw`, the encoding of the transaction and its
  -- hash. When the builder fails, its error is thrown as the text that it displays. The world is
  -- the one that the builder leaves.
  pub sign_object-Shows :
      (t : TxBuilderWasm p W) (w : W)
      → IsJs js
      → ((s : SignedTx) (w' : W)
          → sign p clock t.inner w ≡ (ok s, w')
          → (obj : JsObject) × (sign_object p js clock t w ≡ (ok obj, w')) × Shows p s obj)
        × ((e : SigningError) (w' : W)
            → sign p clock t.inner w ≡ (err e, w')
            → sign_object p js clock t w ≡ (err (display_error e), w'))
  sign_object-Shows t w law = (
    λ s w' h. (
      signed_fields p s,
      object_ok t w s w' law h,
      run_shown t w s w' (sign-Run p clock t.inner w s w' h),
    ),
    λ e w' h. object_err t w e w' h,
  )
