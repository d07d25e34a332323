-- ===== src/Wallets.antt =====
-- What the browser wallets of crates/wasm-lib call and do not implement: JavaScript values
-- (js-sys, web-sys, wasm-bindgen) and the hex crate. A call returns a value or throws one, and
-- changes the world `W`. Awaiting a promise is a part of the call that returns it.
pub mod MetaMask
pub mod Phantom
pub mod Taproot
pub mod WasmSigner
pub mod Bounds
pub mod Accounts
pub mod Refused
pub mod Asked
use morpheum_signing.Common.{ℕ, Bool, String, Option, Bytes, Result, ok, map_err, ok_or}
use morpheum_signing.Error.{SigningError, wallet_adapter}
use morpheum_signing.Exec.{Exec, pure, lift, ◌>>=◌}

pub record Browser (W : Type 0) : Type 1 where
  pub Value : Type 0
  -- `{:?}`
  pub debug : Value → String
  pub from_str : String → Value
  pub from_number : ℕ → Value
  pub as_string : Value → Option String
  pub is_undefined : Value → Bool
  pub is_null : Value → Bool
  pub is_function : Value → Bool
  pub window : W → Option Value
  -- `Object::new`, `Array::new`, `Array::of2`, `Array::from`, `Array::push`, `Array::get`
  pub new_object : W → Value × W
  pub new_array : W → Value × W
  pub array_of2 : Value → Value → W → Value × W
  pub array_from : Value → W → Value × W
  pub push : Value → Value → W → W
  pub array_get : Value → ℕ → W → Value
  -- `Reflect::get`, `Reflect::set`, `Function::call0`, `JSON::stringify`
  pub get : Value → String → W → Result Value Value × W
  pub set : Value → String → Value → W → Result Value Bool × W
  pub call0 : Value → Value → W → Result Value Value × W
  pub stringify : Value → W → Result Value Value × W
  -- the bytes of a `Uint8Array`, if the value is one
  pub uint8_array : Value → W → Option Bytes
  -- the methods of the providers, awaited
  pub request : Value → Value → W → Result Value Value × W
  pub connect : Value → W → Result Value Value × W
  pub sign_bytes : Value → Bytes → W → Result Value Value × W
  pub request_accounts : Value → W → Result Value Value × W
  pub get_public_key : Value → W → Result Value Value × W
  pub sign_text : Value → String → Value → W → Result Value Value × W

-- `hex::decode` and `hex::decode_to_slice` for a slice of the given length
pub record Hex : Type 0 where
  pub decode : String → Result String Bytes
  pub decode_to_slice : ℕ → String → Result String Bytes

module _ {W V A : Type 0} where
  -- `map_err(f)?` on a call
  abbrev pub catching : (V → SigningError) → (W → Result V A × W) → Exec W A
  catching f call w = let (r, w') = call w in (map_err f r, w')

module _ {W A : Type 0} where
  abbrev pub make : (W → A × W) → Exec W A
  make call w = let (a, w') = call w in (ok a, w')

module _ {W : Type 0} where
  abbrev pub run : (W → W) → Exec W (Unit {0})
  run call w = (ok tt, call w)

module _ {W : Type 0} (b : Browser W) where
  unfoldable pub get_window : Exec W b.Value
  get_window w = (ok_or (b.window w) (wallet_adapter "no window object (not in a browser?)"), w)
