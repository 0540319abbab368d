-- ===== src/Tests.antt =====
-- Runs of the definitions and the theorems at concrete data.
mod Opened
mod Fixtures
mod Registry
mod Imports
mod DryRuns
mod Checkouts
mod Transactions
mod Remotes
mod Hydrations
mod Applying
mod Executions
mod Records
mod Exports
