-- ===== src/Tests.antt =====
-- Runs of the definitions at concrete inputs, and the theorems applied there. `Fixtures` and
-- `Platforms` have the inputs and an instance of each parameter.
mod Fixtures
mod Platforms
mod Filters
mod Registries
mod Decoders
mod Tasks
mod System
mod Requests
mod Gridlock
mod Subscriptions
mod Paths
mod Starts
mod Connections
mod Certificates
mod Readings
mod Reads
mod Units
