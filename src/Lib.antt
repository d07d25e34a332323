-- ===== src/Lib.antt =====
-- The signing library of Morpheum: how a transaction is assembled and signed, and how a node
-- verifies it (the core crate, crates/core/src), with the local signers, the nonce providers and
-- the wallet adapters of the native crate, the browser wallets, and the bindings for JavaScript.
--
-- A caller sets up a `TxBuilder` with a `Signer`, messages and, for an agent, a `TradingKeyClaim`;
-- `sign` resolves a nonce, assembles body and signer info, embeds the claim, and has the signer
-- sign the canonical document. A node decodes the transaction and calls `verify_signed_tx`, which
-- rebuilds the accepted preimages and checks each signer. A caller that holds a key and no signer
-- gets the same preimage from `build_sign_doc`. The bindings offer all of this to JavaScript: the
-- builder over a browser wallet, the builder of claims, whose object `withClaim` reads back, and
-- the preimage for a raw key.
--
-- The parts, each file under the name of the source file:
--   Types           crates/core/src/types.rs: wallet types, addresses, keys and their wire form,
--                   signatures, signed transactions; the mapper of crates/core/src/mapper.rs
--   Error           crates/core/src/error.rs, the texts of its errors in Error.Display
--   Claim           crates/core/src/claim.rs: the claim, its checks, digest, embedding and builder
--   Signer          the traits of crates/core/src/signer.rs, nonce.rs and wallet_adapter.rs, as
--                   records of operations
--   Builder         crates/core/src/builder.rs: the builder's state, its setters, and `sign`, cut
--                   into functions at the numbered steps of the source
--   Verifier        crates/core/src/verifier.rs: `verify_signature` and what it dispatches to in
--                   Verifier.Dispatch, the loops and `verify_signed_tx` in Verifier
--   Preimage        crates/core/src/preimage.rs
--   Signers         the local signers of crates/native/src/signers, made from a seed or, in
--                   Signers.Derivation, from a recovery phrase: slip0010_derive of solana.rs and
--                   bip32_derive of evm.rs, with the descriptions of SLIP-10 and BIP-32;
--                   Signers.Builders: the builders over them of crates/native/src/lib.rs
--   Wallets         the browser wallets of crates/wasm-lib/src (metamask.rs, phantom.rs,
--                   taproot.rs) and the signer over them (signer.rs)
--   Providers       crates/native/src/providers/sentry.rs and portal.rs: next_nonce, and the
--                   constructors in Providers.Constructors
--   Adapters        the wallet adapters of crates/native/src/adapters (metamask.rs, phantom.rs,
--                   taproot.rs), over the same browser as Wallets
--   Bindings        crates/wasm/src/bindings.rs: Bindings.Claims (the claim of JavaScript and its
--                   builder), Bindings.TxBuilderWasm, and Bindings.SignDocBytes
--   CryptogramBridge  crates/core/src/cryptogram_bridge.rs
--   EndToEnd        the builder against the verifier; EndToEnd.Replay: a signature that is carried
--                   over to another transaction or chain; EndToEnd.Broadcast: what the node reads
--                   from the two encodings of a signed transaction; EndToEnd.Delegated: a
--                   transaction with the claim of another account
--   Proto           the messages of crate morpheum-primitives, with the fields that the program
--                   writes or reads
--   Primitives      what the program calls and does not implement (prost, hashes, curves, the
--                   preimage policy of morpheum-primitives), as one record of parameters
--   Exec            asynchronous code, as functions on the state of the world
--   Common          lists, text, results and tests that the parts share
--   Tests           a concrete instance of the parameters, and the theorems on it
--
-- Correspondence. Functions keep the names of the source. `Result` is a data type with `?` as the
-- bind of a do block. Signers, nonce providers and the clock act on a state `W` of the world, that
-- comes back beside the result, so that a theorem can say that nothing was called. Numbers are
-- natural numbers; a cast that wraps is written out (`as_i64`), and where a width matters to a
-- round trip it is a hypothesis (`InRange`). Arrays are lists, with their lengths as hypotheses
-- (`IsWellFormed`). Indexing in the verifier returns `panicked` out of bounds. All loops are
-- recursion on the list that is walked, so there is no fuel.
--
-- An object of JavaScript is the list of its fields; that `Reflect::set` adds a field, that `as f64`
-- is exact below 2^53, and that serde reads back the fields of a claim are hypotheses.
--
-- Not modelled: the roots of the crates, which are module lists and re-exports (with the panic
-- hook, the version and the TypeScript text of crates/wasm/src/lib.rs), the derived serde formats,
-- the examples and the tests, and what the program only calls: the cryptography, cryptogram, the
-- HTTP client, the wallets and the JavaScript runtime, which are parameters. The text of an error
-- of another crate is carried along as it is displayed there.
pub mod Common
pub mod Proto
pub mod Error
pub mod Primitives
pub mod Types
pub mod Exec
pub mod Claim
pub mod Signer
pub mod Builder
pub mod Verifier
pub mod Preimage
pub mod EndToEnd
pub mod Tests
pub mod Providers
pub mod Signers
pub mod Wallets
pub mod Bindings
pub mod Adapters
pub mod CryptogramBridge
