-- ===== src/Examples.antt =====
-- The theorems at concrete inputs, with float64 as the native numbers.
mod Storage
mod Repeat
mod Requests
mod Observers
mod Reports
mod Quiet
mod Database
mod Transfer
mod Streams
mod Snapshots
mod Restarts
mod Process
mod Commands
mod Encoders
mod Generator
mod Lint
mod Package
mod Receivers
