-- ===== src/Tests.antt =====
-- The theorems at concrete inputs.
mod Data
mod Arith
mod Tables
mod Editor
mod Lines
mod Words
mod Globs
mod Lists
mod Replace
