-- ===== src/Examples.antt =====
-- Concrete worlds, tests and the instances of the theorems.
pub mod Lab
pub mod Drive
pub mod Heartbeats
mod Rounds
mod Waiting
mod Instances
mod Votes
mod Outputs
mod Programs
mod Commands
mod Disks
mod Reports
