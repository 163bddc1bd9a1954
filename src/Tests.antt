-- ===== src/Tests.antt =====
-- Runs of the model, and the theorems at concrete data.
mod Documents
mod User
mod Instance
mod Device
mod Commands
mod State
mod Readings
mod Tree
mod Mesh
mod Network
mod Requests
mod Resources
