-- ===== src/Tests.antt =====
-- Runs of the program's operations at concrete inputs, over times that are natural numbers.
pub mod Client
mod Benches
mod Conditions
mod Coroutines
mod Names
mod Processes
mod Programs
pub mod Samples
mod Queue
mod Clock
mod Sorted
mod Resources
mod Priority
mod Preemptive
mod Stores
mod Callbacks
mod Filters
mod Ranked
