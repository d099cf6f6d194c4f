-- ===== src/Mission.antt =====
-- operator_mission_runtime.py: the missions, their attachments and their lifecycle.
pub mod Defs
pub mod Stores
pub mod Observe
pub mod Guards
pub mod Lifecycle
pub mod Attach
