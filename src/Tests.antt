-- ===== src/Tests.antt =====
-- Runs of the program on concrete data, and the theorems at concrete data.
mod Documents
mod Toy
mod Accounts
mod Claiming
mod Signing
mod Verifying
mod Providing
mod LocalSigners
mod Deriving
mod Connecting
mod Returning
mod Replaying
mod Broadcasting
mod Delegating
mod InJavaScript
mod Adapting
