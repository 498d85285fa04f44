-- ===== src/Slots.antt =====
-- src/storage/slots.cpp: the PIN checks and PIN files of a slot, and the discovery of slots.
pub mod Pin
pub mod Discovery
