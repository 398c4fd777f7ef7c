-- ===== src/Tests.antt =====
-- Runs of the model at concrete inputs, and the theorems applied to them.
mod Fixtures
mod Devices
mod Stores
mod Ioctls
mod Jobs
mod Hosts
mod Processes
mod Startup
mod Engine
mod Clients
mod Life
