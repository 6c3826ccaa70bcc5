-- ===== src/Tests.antt =====
-- Concrete inputs: tests of the definitions, and each theorem applied where its conditions hold.
mod Shared
mod Source
mod Types
mod Defaults
mod Copying
mod Syncing
mod Translating
mod Applying
mod Resuming
mod Mining
mod Keys
mod Prefixes
mod Columns
mod Comparing
mod Reporting
mod Checking
