-- ===== src/Tests.antt =====
-- Runs of the theorems on a small broker, whose tables are in memory.
mod Scene
mod Fields
mod Terraform
mod Provider
mod Database
mod Shell
mod Calls
mod Polls
mod Jobs
mod Values
mod Offers
mod Plans
