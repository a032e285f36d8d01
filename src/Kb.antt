-- ===== src/Kb.antt =====
-- The knowledge bases of ospd_openvas/db.py: Redis databases that the daemon shares with the
-- scanner. Redis is a library and a server, and stands here as an interface.
pub mod Redis
pub mod OpenvasDb
pub mod BaseKbDb
pub mod KbDb
pub mod MainDb
pub mod First
pub mod Delivery
pub mod Allocation
pub mod Status
pub mod Server
mod Tests
