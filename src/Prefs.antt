-- ===== src/Prefs.antt =====
-- The preferences that the daemon writes for the scanner (ospd_openvas/preferencehandler.py).
pub mod Credentials
pub mod AliveTest
pub mod Prepare
pub mod VtParams
mod Tests
