-- ===== src/State.antt =====
-- agent/internal/state: the folder that the agent keeps and the list of paired devices.
pub mod Dir
pub mod Open
pub mod Names
pub mod Sort
pub mod Tokens
pub mod Devices
