-- ===== src/Agent.antt =====
-- internal/agent: the edge agent.
pub mod Text
pub mod Disk
pub mod Fsm
pub mod Slots
pub mod Download
pub mod Kube
pub mod Kubeconfig
pub mod Act
pub mod Transaction
pub mod Guard
pub mod Loop
pub mod Upgrade
