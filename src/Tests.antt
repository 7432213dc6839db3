-- ===== src/Tests.antt =====
-- Concrete runs: a sorter, and each theorem of the results at an input.
mod Sorting
mod FieldAccess
mod Records
mod Requests
mod Schemas
mod Workers
mod Store
mod Saving
mod Deleting
mod Channels
mod Migrations
