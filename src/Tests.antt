-- ===== src/Tests.antt =====
-- Examples on small concrete crates.
mod Samples
mod Token
mod Dispatch
mod Tasks
mod ClientSamples
mod Client
mod Exchange
mod SetupSamples
mod Setup
mod ClientApi
mod Programs
