-- ===== src/Voice.antt =====
-- capabilities/voice/src: the rooms of the voice capability.
pub mod Rooms
