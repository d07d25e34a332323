-- ===== src/Tests/Documents.antt =====
-- An encoding of documents that determines what they are about.
use Prim.Native.Char.{code}
use text.Mathlib.TextEquality.{Char-path}
use morpheum_signing.Common.{
  ℕ, ◌≡◌, refl, String, Option, none, some, [], ◌∷◌, ◌++◌, Bytes, length, arith,
}
use morpheum_signing.Proto.{Nonce}

abbrev pub codes : String → Bytes
codes String.[] = []
codes (String.◌∷◌ c s) = code c ∷ codes s

codes_injective : (s t : String) → codes s ≡ codes t → s ≡ t
codes_injective String.[] String.[] e = refl
codes_injective String.[] (String.◌∷◌ d t) e = absurd (ground (arith, e))
codes_injective (String.◌∷◌ c s) String.[] e = absurd (ground (arith, e))
codes_injective (String.◌∷◌ c s) (String.◌∷◌ d t) e =
    let head : c ≡ d = Char-path c d (ground (arith, e)) in
    let tail : s ≡ t = codes_injective s t (ground (arith, e)) in rw head (rw tail refl)

-- Equal texts with first parts of one length are equal part by part.
parts_equal :
    (xs xs' ys ys' : Bytes)
    → length xs ≡ length xs'
    → xs ++ ys ≡ xs' ++ ys'
    → (xs ≡ xs') × (ys ≡ ys')
parts_equal [] [] ys ys' n e = (refl, e)
parts_equal [] (x ∷ xs') ys ys' n e = absurd (ground (arith, n))
parts_equal (x ∷ xs) [] ys ys' n e = absurd (ground (arith, n))
parts_equal (x ∷ xs) (x' ∷ xs') ys ys' n e =
    let (front, back) = parts_equal xs xs' ys ys' (ground (arith, n)) (ground (arith, e)) in
    let head : x ≡ x' = ground (arith, e) in (rw head (rw front refl), back)

abbrev pub put_nonce : Option Nonce → Bytes → Bytes
put_nonce none rest = 0 ∷ rest
put_nonce (some n) rest = 1 ∷ n.monotonic ∷ n.ts_ms ∷ n.sub ∷ rest

put_nonce_injective :
    (m n : Option Nonce) (xs ys : Bytes) → put_nonce m xs ≡ put_nonce n ys → (m ≡ n) × (xs ≡ ys)
put_nonce_injective none none xs ys e = (refl, ground (arith, e))
put_nonce_injective none (some n) xs ys e = absurd (ground (arith, e))
put_nonce_injective (some m) none xs ys e = absurd (ground (arith, e))
put_nonce_injective (some m) (some n) xs ys e =
    let a : m.monotonic ≡ n.monotonic = ground (arith, e) in
    let b : m.ts_ms ≡ n.ts_ms = ground (arith, e) in
    let c : m.sub ≡ n.sub = ground (arith, e) in (cc (a, b, c), ground (arith, e))

abbrev pub document : Bytes → Bytes → String → ℕ → Bytes → Option Nonce → Bytes
document body info chain_id account_number genesis nonce = put_nonce nonce (
    length body
    ∷ length info
    ∷ length (codes chain_id)
    ∷ account_number
    ∷ (body ++ (info ++ (codes chain_id ++ genesis))))

pub document_injective :
    (body body' info info' : Bytes) (chain_id chain_id' : String) (n n' : ℕ)
    (genesis genesis' : Bytes) (nonce nonce' : Option Nonce)
    → document body info chain_id n genesis nonce
      ≡ document body' info' chain_id' n' genesis' nonce'
    → (body ≡ body')
      × (info ≡ info')
      × (chain_id ≡ chain_id')
      × (n ≡ n')
      × (genesis ≡ genesis')
      × (nonce ≡ nonce')
document_injective body body' info info' c c' n n' genesis genesis' nonce nonce' e =
    let (nonces, rest) = put_nonce_injective nonce nonce' _ _ e in
    let bodies : length body ≡ length body' = ground (arith, rest) in
    let infos : length info ≡ length info' = ground (arith, rest) in
    let chains : length (codes c) ≡ length (codes c') = ground (arith, rest) in
    let all : body ++ (info ++ (codes c ++ genesis)) ≡ body' ++ (info' ++ (codes c' ++ genesis')) =
      ground (arith, rest) in
    let (b, after) = parts_equal body body' _ _ bodies all in
    let (i, end) = parts_equal info info' _ _ infos after in
    let (k, g) = parts_equal (codes c) (codes c') _ _ chains end in
    (b, i, codes_injective c c' k, ground (arith, rest), g, nonces)
