-- ===== src/Tests.antt =====
-- Concrete runs of the model, and the properties at concrete inputs.
mod Samples
mod Rooms
mod Rights
mod Histories
mod Servers
mod Joining
mod Masters
mod Faults
