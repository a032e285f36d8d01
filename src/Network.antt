-- ===== src/Network.antt =====
-- ospd/network.py: port lists and target lists.
pub mod Ports
pub mod Targets
