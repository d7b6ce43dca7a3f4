-- ===== src/Tests.antt =====
-- The theorems at concrete inputs.
mod Tables
mod Columns
mod Threads
mod Joins
mod Outputs
mod Scans
mod Filters
mod Parsers
mod Strings
