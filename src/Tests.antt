-- ===== src/Tests.antt =====
-- The code at concrete inputs, and each theorem that has hypotheses at an instance of them.
mod Tokens
mod Data
mod Presence
mod Attendance
mod Nightly
mod Accounts
mod Rosters
mod Review
mod Offices
mod Links
mod Reports
mod Seed
mod Debug
mod Devices
mod Api
