-- ===== src/Adapters.antt =====
-- The wallet adapters of crates/native/src/adapters, which the native crate has for browsers. They
-- call the same wallets as crates/wasm-lib, over other imports: what a wallet is found under, and
-- base64, are parameters here. An adapter cannot change itself while it signs.
pub mod MetaMaskAdapter
pub mod PhantomAdapter
pub mod TaprootAdapter
pub mod Sized
use morpheum_signing.Common.{String, Option, Bytes, Result}
use morpheum_signing.Error.{wallet_adapter}
use morpheum_signing.Exec.{Exec, ◌>>=◌, pure}
use morpheum_signing.Wallets.{Browser, catching}

pub record Injected {W : Type 0} (b : Browser W) : Type 0 where
  -- the statics `window.ethereum`, `window.phantom` and `window.unisat`, and the getter `solana`
  pub ethereum : W → Option b.Value
  pub phantom : W → Option b.Value
  pub unisat : W → Option b.Value
  pub solana : b.Value → W → Option b.Value
  -- `Array::of1`
  pub array_of1 : b.Value → W → b.Value × W
  pub base64_decode : String → Result String Bytes

module _ {W : Type 0} (b : Browser W) where
  -- `Reflect::set(..).map_err(|_| message)?`
  unfoldable pub set_or : String → b.Value → String → b.Value → Exec W (Unit {0})
  set_or message obj key value = do
    done ← catching (λ e. wallet_adapter message) (b.set obj key value)
    pure tt
