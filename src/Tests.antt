-- ===== src/Tests.antt =====
-- The theorems at concrete inputs, and runs of the definitions.
mod Delta
mod Client
mod Upgrade
mod Release
mod Fedora
mod Upstream
mod Collect
mod Snapshot
mod SourceRpms
mod Workloads
mod Campaign
mod Packaged
mod Sdk
mod Sources
mod Proot
mod Attribution
mod Staging
mod Rpms
mod Crates
mod Cargo
mod Checkout
mod Build
