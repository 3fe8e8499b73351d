-- ===== src/Tests.antt =====
-- Runs at concrete inputs, and the theorems applied there.
mod Numbers
mod Objects
mod Expiry
mod Stores
mod Buffers
mod Protocol
mod Commands
mod Cluster
mod Settings
mod Links
mod Snapshots
