-- ===== src/Tests.antt =====
-- Runs on small inputs, and each theorem at an input that meets its hypotheses.
mod Bitmaps
mod Replacers
mod Locks
mod Pages
mod Disks
mod Pools
mod Logs
mod Tables
mod Files
mod Indexes
mod Scans
mod Managers
mod Transactions
