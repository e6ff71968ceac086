-- ===== src/Tests.antt =====
-- The theorems at concrete inputs.
mod Files
mod Processes
mod Servers
mod Scheduling
mod Network
mod Samples
mod Background
mod Numbers
mod Pools
mod Listing
mod Program
mod Whole
