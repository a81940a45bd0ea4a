-- ===== src/Examples.antt =====
-- The theorems at concrete inputs, by component.
mod Leases
mod Mocking
mod Hooking
mod Statuses
mod Files
mod Clients
mod Demuxers
mod Requests
mod Watching
mod Filters
