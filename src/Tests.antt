-- ===== src/Tests.antt =====
-- Runs of the program's functions and of its theorems at fixed inputs.
mod Endpoints
mod Observers
mod Clients
mod Links
mod Routes
mod Servers
mod Builders
mod Transports
mod Exchanges
mod Extractors
mod Observations
mod Listeners
