-- ===== src/Types/WalletType.antt =====
-- `WalletType` of crates/core/src/types.rs, and the name that a wallet adapter has for it
-- (crates/core/src/wallet_adapter.rs).
use morpheum_signing.Common.{String}
use morpheum_signing.Proto.{ℤ, pos, SignMode}

pub data WalletType : Type 0 where
  native evm solana bitcoin agent hardware : WalletType

unfoldable pub default_sign_mode : WalletType → SignMode
default_sign_mode native = SignMode.ed25519
default_sign_mode solana = SignMode.ed25519
default_sign_mode agent = SignMode.ed25519
default_sign_mode evm = SignMode.secp256k1
default_sign_mode bitcoin = SignMode.schnorr_aggregate
default_sign_mode hardware = SignMode.ed25519

-- the discriminants of `repr(u8)`
unfoldable pub chain_type : WalletType → ℤ
chain_type native = pos 0
chain_type evm = pos 1
chain_type solana = pos 2
chain_type bitcoin = pos 3
chain_type agent = pos 4
chain_type hardware = pos 255

unfoldable pub display : WalletType → String
display native = "native"
display evm = "evm"
display solana = "solana"
display bitcoin = "bitcoin"
display agent = "agent"
display hardware = "hardware"

-- `WalletAdapter::name`
unfoldable pub adapter_name : WalletType → String
adapter_name evm = "EVM Wallet (MetaMask/Ledger)"
adapter_name solana = "Solana Wallet (Phantom)"
adapter_name bitcoin = "Bitcoin Wallet (Taproot)"
adapter_name agent = "Agent Wallet (TradingKey)"
adapter_name native = "Native Morpheum Keypair"
adapter_name hardware = "Hardware Wallet"
