-- ===== src/Tests.antt =====
-- Runs of the router on small requests, and the theorems at concrete values.
mod Tiers
mod Keys
mod Scans
mod Stores
mod Requests
mod Settings
mod Race
mod Logs
mod Services
mod Migrations
mod Environments
mod Overlaps
mod Reports
