-- ===== src/Examples.antt =====
-- Concrete storages, files and requests, and the theorems at them.
mod Storage
mod Gets
mod Uploads
mod Files
mod Downloads
mod Requests
mod Restarts
mod Readers
mod Services
mod Locks
mod Exchanges
mod Closes
mod Programs
mod Disks
mod Interleavings
