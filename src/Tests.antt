-- ===== src/Tests.antt =====
-- Runs of the theorems at concrete inputs.
mod Dicts
mod Sockets
mod Page
mod Uploads
mod Processes
mod Managers
mod Connections
mod Served
mod Ports
mod Connected
