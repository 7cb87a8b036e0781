-- ===== src/Blaster/Rights.antt =====
-- Who may do what, and who hears of it, in server/src/blaster/eventloop.rs.
pub mod Master
pub mod Isolation
pub mod Heard
pub mod Recv
