-- ===== src/Tests.antt =====
-- Runs at concrete inputs, and the theorems at inputs that meet their hypotheses.
mod Parsing
mod Trees
mod Pages
mod Logs
mod Stores
mod Tables
mod Sessions
