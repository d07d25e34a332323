-- ===== src/Claim/Validity.antt =====
-- When a claim is valid and verified, what `build` returns, and what its sub-range covers
-- (crates/core/src/claim.rs).
use morpheum_signing.Common.{
  ℕ, zero, suc, ◌+◌, ◌≤◌, ◌<◌, ◌≡◌, ◌↔◌, Bool, true, false, some, ok, err, arith, bytes_eq_iff, leb,
  if◌then◌else◌,
}
use morpheum_signing.Error.{invalid_claim}
use morpheum_signing.Primitives.{Primitives}
use morpheum_signing.Types.PublicKey.{PublicKey}
use morpheum_signing.Types.PublicKey
use morpheum_signing.Types.Signature.{is_zero}
use morpheum_signing.Claim.{TradingKeyClaim, validate, verify, covers, sub_range_size}
use morpheum_signing.Claim.VcClaimBuilder.{VcClaimBuilder, build}

pub record IsValid (c : TradingKeyClaim) (now : ℕ) : Type 0 where
  pub unexpired : now < c.expiry_timestamp
  pub nonempty : c.nonce_sub_range_start < c.nonce_sub_range_end
  pub signed : is_zero c.signature ≡ false

validate→IsValid : (c : TradingKeyClaim) (now : ℕ) → validate c now ≡ ok tt → IsValid c now
unfolding validate
validate→IsValid c now h = ground arith

IsValid→validate : (c : TradingKeyClaim) (now : ℕ) → IsValid c now → validate c now ≡ ok tt
unfolding validate
IsValid→validate c now v = ground arith

-- `validate` accepts exactly the claims that have not expired, have a sub-range that is not empty,
-- and have a signature that is not all zeros.
pub validate_iff : (c : TradingKeyClaim) (now : ℕ) → (validate c now ≡ ok tt) ↔ IsValid c now
validate_iff c now = (validate→IsValid c now, IsValid→validate c now)

-- Each refusal of `validate` names the first of its three conditions that fails.
pub validate_refusals :
    (c : TradingKeyClaim) (now : ℕ)
    → (c.expiry_timestamp ≤ now → validate c now ≡ err (invalid_claim "claim has expired"))
      × (now < c.expiry_timestamp
          → c.nonce_sub_range_end ≤ c.nonce_sub_range_start
          → validate c now ≡ err (invalid_claim "invalid nonce sub-range"))
      × (now < c.expiry_timestamp
          → c.nonce_sub_range_start < c.nonce_sub_range_end
          → is_zero c.signature ≡ true
          → validate c now ≡ err (invalid_claim "missing signature"))
unfolding validate
validate_refusals c now = (λ h. ground arith, λ h k. ground arith, λ h k z. ground arith)

-- A claim that is valid at a time was valid at every earlier time.
pub IsValid-earlier :
    (c : TradingKeyClaim) (now before : ℕ)
    → before ≤ now
    → validate c now ≡ ok tt
    → validate c before ≡ ok tt
IsValid-earlier c now before le h =
    let v = (validate_iff c now).0 h in
    (validate_iff c before).1
      (record { unexpired = omega arith; nonempty = v.nonempty; signed = v.signed })

module _ (p : Primitives) where
  verify→ :
      (c : TradingKeyClaim) (now : ℕ) (key : PublicKey)
      → verify p c now key ≡ ok tt
      → IsValid c now × (c.issuer ≡ PublicKey.to_account_id p key)
  unfolding verify
  verify→ c now key h =
      ground
        (arith, validate_iff c now, bytes_eq_iff c.issuer.id (PublicKey.to_account_id p key).id)

  →verify :
      (c : TradingKeyClaim) (now : ℕ) (key : PublicKey)
      → IsValid c now
      → c.issuer ≡ PublicKey.to_account_id p key
      → verify p c now key ≡ ok tt
  unfolding verify
  →verify c now key v e =
      ground
        (arith, validate_iff c now, bytes_eq_iff c.issuer.id (PublicKey.to_account_id p key).id)

  -- `verify` accepts exactly the valid claims whose issuer is the account of the key.
  pub verify_iff :
      (c : TradingKeyClaim) (now : ℕ) (key : PublicKey)
      → (verify p c now key ≡ ok tt) ↔ (IsValid c now × (c.issuer ≡ PublicKey.to_account_id p key))
  verify_iff c now key = (verify→ c now key, λ h. →verify c now key h.0 h.1)

-- The fields that a builder holds when it builds a claim.
pub record Holds (b : VcClaimBuilder) (c : TradingKeyClaim) : Type 0 where
  pub issuer : b.issuer ≡ some c.issuer
  pub subject : b.subject ≡ some c.subject
  pub permissions : b.permissions ≡ c.permissions
  pub max_daily_usd : b.max_daily_usd ≡ c.max_daily_usd
  pub expiry : b.expiry_timestamp ≡ some c.expiry_timestamp
  pub start : b.nonce_sub_range_start ≡ c.nonce_sub_range_start
  pub end : b.nonce_sub_range_end ≡ c.nonce_sub_range_end
  pub signature : b.signature ≡ some c.signature

build→ :
    (b : VcClaimBuilder) (now : ℕ) (c : TradingKeyClaim)
    → build b now ≡ ok c
    → Holds b c × IsValid c now
unfolding build validate
build→ b now c h = ground arith

→build :
    (b : VcClaimBuilder) (now : ℕ) (c : TradingKeyClaim)
    → Holds b c
    → IsValid c now
    → build b now ≡ ok c
unfolding build validate
→build b now c h v = ground arith

-- `build` returns a claim exactly when the builder holds every field of it and it is valid at the
-- given time.
pub build_iff :
    (b : VcClaimBuilder) (now : ℕ) (c : TradingKeyClaim)
    → (build b now ≡ ok c) ↔ (Holds b c × IsValid c now)
build_iff b now c = (build→ b now c, λ h. →build b now c h.0 h.1)

covers_iff :
    (c : TradingKeyClaim) (sub : ℕ)
    → (covers c sub ≡ true) ↔ ((c.nonce_sub_range_start ≤ sub) × (sub < c.nonce_sub_range_end))
covers_iff c sub = ground arith

-- how many of the numbers below `n` pass
abbrev pub count_below : (ℕ → Bool) → ℕ → ℕ
count_below test zero = 0
count_below test (suc n) = (if test n then 1 else 0) + count_below test n

count-covers :
    (c : TradingKeyClaim) (n : ℕ)
    → n ≤ c.nonce_sub_range_end
    → count_below (covers c) n + c.nonce_sub_range_start
      ≡ (if leb c.nonce_sub_range_start n then n else c.nonce_sub_range_start)
count-covers c zero h = ground arith
count-covers c (suc n) h = ground (arith, count-covers c n (omega arith))

-- `sub_range_size` is the number of nonce subs that the claim covers, and a claim covers none at
-- or past its end.
pub sub_range_size-count :
    (c : TradingKeyClaim)
    → (count_below (covers c) c.nonce_sub_range_end ≡ sub_range_size c)
      × ((sub : ℕ) → c.nonce_sub_range_end ≤ sub → covers c sub ≡ false)
unfolding sub_range_size
sub_range_size-count c =
    (ground (arith, count-covers c c.nonce_sub_range_end (omega arith)), λ sub h. ground arith)
