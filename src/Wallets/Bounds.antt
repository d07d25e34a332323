-- ===== src/Wallets/Bounds.antt =====
-- The lengths of the keys and signatures of the browser wallets (crates/wasm-lib).
use morpheum_signing.Common.{
  ℕ, suc, ◌≡◌, refl, ◌≤◌, String, Bytes, length, take, drop, ltb, ◌==◌, ==_iff, Bool-cases,
  length-take, length-drop, inl, inr, if◌then◌else◌, ok, err, map_err, strip_0x, false, arith,
}
use Prim.Native.String.{◌++◌ as str_append}
use morpheum_signing.Error.{SigningError, wallet_adapter}
use morpheum_signing.Primitives.{Primitives}
use morpheum_signing.Exec.{
  pure, lift, Ensures, bind-Ensures, bind-Ensures_both, lift-Ensures, pure-Ensures,
}
use morpheum_signing.Types.Signature.{Signature}
use morpheum_signing.Wallets.{Browser, Hex}
use morpheum_signing.Wallets.MetaMask.{
  MetaMask, first_account, typed_data_signature, metamask_connect, metamask_sign_impl,
  compact_signature,
}
use morpheum_signing.Wallets.Phantom.{
  Phantom, exact_bytes, connected_key, message_signature, phantom_connect, phantom_sign_impl,
}
use morpheum_signing.Wallets.Taproot.{
  Taproot, account_and_key, bip322_signature, x_only, taproot_connect, taproot_sign_impl,
  schnorr_signature,
}
use morpheum_signing.Wallets.WasmSigner.{WasmSigner, metamask, phantom, taproot, wasm_sign}

-- The lengths that a wallet's key has: 20 for an address, 32 for the other keys.
abbrev pub KeySized : WasmSigner → Type 0
KeySized (metamask a) = length a.cached_address ≡ 20
KeySized (phantom a) = length a.cached_pubkey ≡ 32
KeySized (taproot a) = length a.cached_pubkey ≡ 32

-- the wallets that a connection gives
pub data Connects {W : Type 0} (b : Browser W) (x : Hex) (w : W) : WasmSigner → W → Type 0 where
  by_metamask :
      {a : MetaMask} {w' : W} → metamask_connect b x w ≡ (ok a, w') → Connects b x w (metamask a) w'
  by_phantom :
      {a : Phantom} {w' : W} → phantom_connect b w ≡ (ok a, w') → Connects b x w (phantom a) w'
  by_taproot :
      {a : Taproot} {w' : W} → taproot_connect b x w ≡ (ok a, w') → Connects b x w (taproot a) w'

x_only_sized :
    (n : ℕ) (bytes out : Bytes) (e : SigningError)
    → (if length bytes == n
        then ok bytes
        else if length bytes == suc n
        then ok (drop 1 bytes)
        else err e)
      ≡ ok out
    → length out ≡ n
x_only_sized n bytes out e h = ground (arith, h, length-drop 1 bytes)

pub le_of_not_ltb : (a n : ℕ) → ltb a n ≡ false → n ≤ a
le_of_not_ltb a n h = ground (arith, h)

pub exact_sized :
    {W : Type 0} (b : Browser W) (what : String) (e : SigningError) (n : ℕ) (value : b.Value)
    → Ensures (λ (bytes : Bytes). length bytes ≡ n) (exact_bytes b what e n value)
unfolding exact_bytes
exact_sized b what e n value = record { holds = λ w out w' h. ground (arith, h) }

-- A signature is of the kind of its wallet, and has 64 bytes.
abbrev pub kind_of : WasmSigner → Bytes → Signature
kind_of (metamask a) bytes = Signature.secp256k1 bytes
kind_of (phantom a) bytes = Signature.ed25519 bytes
kind_of (taproot a) bytes = Signature.schnorr bytes

abbrev pub IsSized : WasmSigner → Signature → Type 0
IsSized s sig = (bytes : Bytes) × (length bytes ≡ 64) × (sig ≡ kind_of s bytes)

compact_signature-IsSized :
    (a : MetaMask) (bytes : Bytes) (sig : Signature)
    → compact_signature bytes ≡ ok sig
    → IsSized (metamask a) sig
unfolding compact_signature
compact_signature-IsSized a bytes sig h = elim (Bool-cases (ltb (length bytes) 64)) [
  | inl t ↦ absurd (ground (arith, h, t))
  | inr t ↦ (
    take 64 bytes,
    length-take 64 bytes (le_of_not_ltb (length bytes) 64 t),
    ground (arith, h, t),
  )
]

schnorr_signature-IsSized :
    (a : Taproot) (bytes : Bytes) (sig : Signature)
    → schnorr_signature bytes ≡ ok sig
    → IsSized (taproot a) sig
unfolding schnorr_signature
schnorr_signature-IsSized a bytes sig h = elim (Bool-cases (length bytes == 64)) [
  | inl t ↦ (bytes, (==_iff (length bytes) 64).0 t, ground (arith, h, t))
  | inr t ↦ absurd (ground (arith, h, t))
]

module _ (p : Primitives) {W : Type 0} (b : Browser W) (x : Hex) where
  sign-Ensures : (s : WasmSigner) (doc : p.SignDoc) → Ensures (IsSized s) (wasm_sign p b x s doc)
  unfolding wasm_sign metamask_sign_impl phantom_sign_impl taproot_sign_impl
  sign-Ensures (metamask a) doc =
      bind-Ensures (typed_data_signature p b x a doc) (λ bytes. lift (compact_signature bytes))
        (λ bytes. lift-Ensures (compact_signature bytes) (compact_signature-IsSized a bytes))
  sign-Ensures (phantom a) doc = bind-Ensures (message_signature p b doc) _ (λ value.
      bind-Ensures_both (exact_bytes b _ _ 64 value) (λ bytes. pure (Signature.ed25519 bytes))
        (exact_sized b _ _ 64 value)
        (λ bytes sized. pure-Ensures (Signature.ed25519 bytes) (bytes, sized, refl)))
  sign-Ensures (taproot a) doc =
      bind-Ensures (bip322_signature p b x doc) (λ bytes. lift (schnorr_signature bytes))
        (λ bytes. lift-Ensures (schnorr_signature bytes) (schnorr_signature-IsSized a bytes))

  -- Every signature that a browser wallet returns has 64 bytes and is of the kind of the wallet,
  -- whatever the wallet answered.
  pub wasm_sign-IsSized :
      (s : WasmSigner) (doc : p.SignDoc) (w : W) (sig : Signature) (w' : W)
      → wasm_sign p b x s doc w ≡ (ok sig, w')
      → IsSized s sig
  wasm_sign-IsSized s doc = (sign-Ensures s doc).holds

module _ {W : Type 0} (b : Browser W) (x : Hex) where
  metamask_connect-Ensures :
      ((n : ℕ) (s : String) (out : Bytes) → x.decode_to_slice n s ≡ ok out → length out ≡ n)
      → Ensures (λ a. length a.cached_address ≡ 20) (metamask_connect b x)
  unfolding metamask_connect
  metamask_connect-Ensures exact = bind-Ensures (first_account b) _ (λ first.
      bind-Ensures_both
        (lift (
          map_err (λ e. wallet_adapter (str_append "invalid EVM address from MetaMask: " e))
            (x.decode_to_slice 20 (strip_0x first))))
        (λ bytes. pure (record { cached_address = bytes; address_hex = first }))
        (lift-Ensures _ (λ bytes e. exact 20 (strip_0x first) bytes (ground (arith, e))))
        (λ bytes sized. pure-Ensures _ sized))

  phantom_connect-Ensures :
      Ensures (λ (a : Phantom). length a.cached_pubkey ≡ 32) (phantom_connect b)
  unfolding phantom_connect
  phantom_connect-Ensures = bind-Ensures (connected_key b) _ (λ value.
      bind-Ensures_both (exact_bytes b _ _ 32 value)
        (λ bytes. pure (record { cached_pubkey = bytes })) (exact_sized b _ _ 32 value)
        (λ bytes sized. pure-Ensures _ sized))

  taproot_connect-Ensures :
      Ensures (λ (a : Taproot). length a.cached_pubkey ≡ 32) (taproot_connect b x)
  unfolding taproot_connect x_only
  taproot_connect-Ensures = bind-Ensures (account_and_key b x) _ (λ answer.
      bind-Ensures_both (lift (x_only answer.1))
        (λ bytes. pure (record { cached_pubkey = bytes; cached_address = answer.0 }))
        (lift-Ensures _ (λ bytes e. x_only_sized 32 answer.1 bytes _ e))
        (λ bytes sized. pure-Ensures _ sized))

  -- Every wallet that a connection gives holds a key of its length, 20 bytes of MetaMask and 32 of
  -- the others, whatever the browser answered. Decoding hex to a slice fills the slice.
  pub Connects-KeySized :
      {w : W} {s : WasmSigner} {w' : W}
      → ((n : ℕ) (text : String) (out : Bytes) → x.decode_to_slice n text ≡ ok out → length out ≡ n)
      → Connects b x w s w'
      → KeySized s
  Connects-KeySized {w} exact (by_metamask {a} {w'} e) =
      (metamask_connect-Ensures exact).holds w a w' e
  Connects-KeySized {w} exact (by_phantom {a} {w'} e) = phantom_connect-Ensures.holds w a w' e
  Connects-KeySized {w} exact (by_taproot {a} {w'} e) = taproot_connect-Ensures.holds w a w' e
