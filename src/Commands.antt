-- ===== src/Commands.antt =====
-- The programs under cmd: the agent of a device in cmd/agent/main.go.
pub mod Paths
pub mod EdgeAgent
pub mod Manager
pub mod FirmwareServer
