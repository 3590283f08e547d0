-- ===== src/Tests.antt =====
-- Runs of the definitions on concrete inputs, and the theorems applied to them.
mod Strings
mod Numbers
mod Blocks
mod Areas
mod Early
mod Reports
mod Regions
mod Draws
mod Arguments
mod Prints
mod Pages
mod Virtual
mod Cpus
