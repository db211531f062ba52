-- ===== src/Tests.antt =====
-- Runs of the models on fixed inputs, and the theorems at inputs that meet their conditions.
mod Entries
mod Blocks
mod Days
mod Log
mod Stores
mod Merges
mod Openings
mod Requests
