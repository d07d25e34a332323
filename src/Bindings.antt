-- ===== src/Bindings.antt =====
-- What the bindings for JavaScript (crates/wasm/src/bindings.rs) share: plain objects that are
-- built field by field. Errors are thrown as the text that they display.
pub mod Claims
pub mod TxBuilderWasm
pub mod SignDocBytes
use Prim.Native.String.{◌++◌ as str_append}
use mathlib.Core.List.{append-nil, append_assoc}
use morpheum_signing.Common.{
  ℕ, ◌≡◌, refl, ap, sym, ◌∙◌, ◌<◌, ◌^◌, String, Option, none, some, List, [], ◌∷◌, ◌++◌, Bytes,
  str_eq, if◌then◌else◌, Result, ok, map_err, ◌>>=◌, Bool, true, false, Option-cases, inl, inr,
  arith,
}

-- the values that the fields of an object hold: a `Uint8Array`, a text, a number
pub data JsField : Type 0 where
  bytes : Bytes → JsField
  text : String → JsField
  number : ℕ → JsField

-- a field with its name
pub record Entry : Type 0 where
  pub name : String
  pub value : JsField

-- the fields in the order in which they were set
abbrev pub JsObject : Type 0
JsObject = List Entry

-- `Reflect::get`
abbrev pub get_field : String → JsObject → Option JsField
get_field name [] = none
get_field name (e ∷ obj) = if str_eq e.name name then some e.value else get_field name obj

-- `Reflect::set` on an object, and `u64 as f64`
pub record Js : Type 0 where
  pub set : Entry → JsObject → Result String JsObject
  pub as_f64 : ℕ → ℕ

-- What JavaScript documents: a new field of a plain object is set, and numbers below 2^53 are exact.
pub record IsJs (js : Js) : Type 0 where
  pub sets :
      (e : Entry) (obj : JsObject) → get_field e.name obj ≡ none → js.set e obj ≡ ok (obj ++ e ∷ [])
  pub exact : (n : ℕ) → n < 2 ^ 53 → js.as_f64 n ≡ n

-- Whether an object has none of the fields, and their names differ.
abbrev pub are_new : List Entry → JsObject → Bool
are_new [] obj = true
are_new (e ∷ rest) obj = elim (get_field e.name obj) [
  | none ↦ are_new rest (obj ++ e ∷ [])
  | some old ↦ false
]

module _ (js : Js) where
  -- `Reflect::set(..).map_err(|_| "failed to set ..")?`, one after another
  unfoldable pub set_fields : List Entry → JsObject → Result String JsObject
  set_fields [] obj = ok obj
  set_fields (e ∷ rest) obj = do
    obj' ← map_err (λ thrown. str_append "failed to set " e.name) (js.set e obj)
    set_fields rest obj'

  -- New fields are set, in their order.
  pub set_fields-ok :
      IsJs js
      → (fields : List Entry) (obj : JsObject) → are_new fields obj ≡ true
      → set_fields fields obj ≡ ok (obj ++ fields)
  unfolding set_fields
  set_fields-ok law [] obj new = ap ok (sym (append-nil obj))
  set_fields-ok law (e ∷ rest) obj new = elim (Option-cases (get_field e.name obj)) [
    | inr (old, here) ↦ absurd (ground (arith, new, here))
    | inl absent ↦ rw (law.sets e obj absent) (
        set_fields-ok law rest (obj ++ e ∷ []) (ground (arith, new, absent))
        ∙ ap ok (append_assoc obj (e ∷ []) rest))
  ]
