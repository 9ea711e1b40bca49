-- ===== src/Tests.antt =====
-- Runs of the models on concrete inputs, and instances of the theorems.
mod Scheduler
mod Hasher
mod Pool
mod Ref
mod Index
mod Reuse
mod Planner
mod Table
mod Paged
mod Buffered
mod Experts
mod Half
