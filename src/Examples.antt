-- ===== src/Examples.antt =====
-- The theorems at concrete inputs.
mod Batches
mod Runs
mod Stores
mod Site
mod Confirms
mod Catalogs
mod Archive
