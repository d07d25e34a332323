-- ===== src/Common/Text.antt =====
-- What the program uses of Rust's `String`: its UTF-8 bytes and the decimal print of an unsigned
-- number (`to_string`, and `{}` in a format string).
use Prim.Native.Nat.{ℕ, zero, suc, ◌+◌, ◌-◌, ◌*◌, ◌/◌, ◌%◌, ◌<◌}
use Prim.Native.Char.{Char, code}
use Prim.Native.String.{String}
use mathlib.Core.Path.{◌≡◌, refl, ◌∙◌, ap, subst}
use mathlib.Core.Logic.{dite, ite, if_pos, if_neg, ◌≢◌, inl, inr}
use mathlib.Core.List.{[], ◌∷◌, ◌++◌}
use mathlib.Core.Option.{Option, none, some}
use mathlib.Core.WellFounded as Wf
use mathlib.Core.WellFounded.{Acc, WellFounded, Acc-prop}
use native.Mathlib.Decide.{dec_lt}
use native.Mathlib.Omega.{arith}
use text.Mathlib.TextEquality.{eq_iff}
use morpheum_signing.Common.Tests.{ltb, ◌==◌, if◌then◌else◌, Bool-cases, ==_iff}
use morpheum_signing.Common.Lists.{Bytes}

utf8 : ℕ → Bytes
utf8 c =
    if ltb c 0x80
    then c ∷ []
    else if ltb c 0x800
    then (0xC0 + c / 64) ∷ (0x80 + c % 64) ∷ []
    else if ltb c 0x10000
    then (0xE0 + c / 4096) ∷ (0x80 + c / 64 % 64) ∷ (0x80 + c % 64) ∷ []
    else (0xF0 + c / 262144) ∷ (0x80 + c / 4096 % 64) ∷ (0x80 + c / 64 % 64) ∷ (0x80 + c % 64) ∷ []

-- `str::as_bytes`
unfoldable pub as_bytes : String → Bytes
unfolding utf8
as_bytes String.[] = []
as_bytes (String.◌∷◌ c s) = utf8 (code c) ++ as_bytes s

-- `str::strip_prefix`: the text behind the prefix
pub strip_prefix : String → String → Option String
strip_prefix String.[] s = some s
strip_prefix (String.◌∷◌ c prefix) String.[] = none
strip_prefix (String.◌∷◌ c prefix) (String.◌∷◌ d s) =
    if code c == code d then strip_prefix prefix s else none

-- `s.strip_prefix("0x").unwrap_or(s)`
pub strip_0x : String → String
unfolding strip_prefix
strip_0x s = elim (strip_prefix "0x" s) [ none ↦ s | some digits ↦ digits ]

digit : ℕ → Char
digit zero = "0"
digit (suc zero) = "1"
digit (suc (suc zero)) = "2"
digit (suc (suc (suc zero))) = "3"
digit (suc (suc (suc (suc zero)))) = "4"
digit (suc (suc (suc (suc (suc zero))))) = "5"
digit (suc (suc (suc (suc (suc (suc zero)))))) = "6"
digit (suc (suc (suc (suc (suc (suc (suc zero))))))) = "7"
digit (suc (suc (suc (suc (suc (suc (suc (suc zero)))))))) = "8"
digit _ = "9"

below_Acc : (k n : ℕ) → n < k → Acc ◌<◌ n
below_Acc zero n h = absurd (omega arith)
below_Acc (suc k) n h = Acc.intro n (λ m lt. below_Acc k m (omega arith))

lt_wf : WellFounded ◌<◌
unfolding below_Acc
lt_wf = record { apply = λ n. below_Acc (suc n) n (omega arith) }

div-ten-lt : (n : ℕ) → 0 < n → n / 10 < n
div-ten-lt n h = omega arith

put_digits : (n : ℕ) → Acc ◌<◌ n → String → String
unfolding digit
put_digits n (Acc.intro _ smaller) out =
    dite (dec_lt 0 n)
      (λ h.
        put_digits (n / 10) (smaller (n / 10) (div-ten-lt n h)) (String.◌∷◌ (digit (n % 10)) out))
      (λ _. out)

-- `n.to_string()`
pub to_string : ℕ → String
unfolding put_digits lt_wf dec_lt
to_string n = if n == 0 then "0" else put_digits n (lt_wf.apply n) ""

-- the number that a text of decimal digits spells, read from the left behind `acc`
abbrev pub spelled : ℕ → String → ℕ
spelled acc String.[] = acc
spelled acc (String.◌∷◌ c s) = spelled (acc * 10 + (code c - 48)) s

code-digit : (d : ℕ) → d < 10 → code (digit d) ≡ 48 + d
unfolding digit
code-digit zero h = refl
code-digit (suc zero) h = refl
code-digit (suc (suc zero)) h = refl
code-digit (suc (suc (suc zero))) h = refl
code-digit (suc (suc (suc (suc zero)))) h = refl
code-digit (suc (suc (suc (suc (suc zero))))) h = refl
code-digit (suc (suc (suc (suc (suc (suc zero)))))) h = refl
code-digit (suc (suc (suc (suc (suc (suc (suc zero))))))) h = refl
code-digit (suc (suc (suc (suc (suc (suc (suc (suc zero)))))))) h = refl
code-digit (suc (suc (suc (suc (suc (suc (suc (suc (suc zero))))))))) h = refl
code-digit (suc (suc (suc (suc (suc (suc (suc (suc (suc (suc n)))))))))) h = absurd (omega arith)

put_digits_step :
    (n : ℕ) (w : Acc ◌<◌ n) (w' : Acc ◌<◌ (n / 10)) (out : String)
    → put_digits n w out
      ≡ ite (dec_lt 0 n) (put_digits (n / 10) w' (String.◌∷◌ (digit (n % 10)) out)) out
unfolding put_digits
put_digits_step n (Acc.intro _ smaller) w' out = λ i.
    dite (dec_lt 0 n)
      (λ h.
        put_digits (n / 10) (Acc-prop (smaller (n / 10) (div-ten-lt n h)) w' i)
          (String.◌∷◌ (digit (n % 10)) out))
      (λ _. out)

printed : ℕ → String → String
printed n out = put_digits n (lt_wf.apply n) out

printed_step :
    (n : ℕ) (out : String)
    → printed n out ≡ ite (dec_lt 0 n) (printed (n / 10) (String.◌∷◌ (digit (n % 10)) out)) out
unfolding printed
printed_step n out = put_digits_step n _ _ out

spelled-printed : (n : ℕ) (out : String) → spelled 0 (printed n out) ≡ spelled n out
spelled-printed n =
    Wf.induction lt_wf {C = λ m. (out : String) → spelled 0 (printed m out) ≡ spelled m out} n
      λ m ih out. elim (dec_lt 0 m) [
        | yes p ↦
            rw (printed_step m out, if_pos _ p)
              (ih (m / 10) (omega arith) (String.◌∷◌ (digit (m % 10)) out)
                ∙ ap (λ a. spelled a out) (omega (arith, code-digit (m % 10))))
        | no p ↦ rw (printed_step m out, if_neg _ p) (ap (λ a. spelled a out) (omega arith))
      ]

-- The decimal print of a number spells that number.
pub spelled-to_string : (n : ℕ) → spelled 0 (to_string n) ≡ n
unfolding to_string printed
spelled-to_string n = elim (Bool-cases (n == 0)) [
  | inl zero_test ↦ rw zero_test (omega (arith, (==_iff n 0).0 zero_test))
  | inr other ↦ rw other (spelled-printed n "")
]

zero_print : to_string 0 ≢ ""
unfolding to_string
zero_print h = ground (arith, eq_iff "0" "")

-- A print is never the empty text.
pub to_string-ne-empty : (n : ℕ) → to_string n ≢ ""
to_string-ne-empty n e =
    let n_zero : n ≡ 0 = omega (arith, spelled-to_string n, ap (spelled 0) e) in
    zero_print (subst (λ k. to_string k ≡ "") n_zero e)

prints : to_string 1000000 ≡ "1000000"
unfolding to_string
prints = refl

bytes_of_text : as_bytes "aé" ≡ 0x61 ∷ 0xC3 ∷ 0xA9 ∷ []
unfolding as_bytes
bytes_of_text = refl

strips : (strip_0x "0xff") ≡ "ff"
unfolding strip_0x
strips = refl
