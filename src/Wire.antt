-- ===== src/Wire.antt =====
-- Devices as JSON: what encoding/json makes of the struct tags in internal/agent/kube.go and in
-- api/v1alpha1/edgedevice_types.go. The agent and the controllers meet only in this form.
pub mod Json
pub mod Kube
pub mod Resource
pub mod Agree
pub mod Exchange
pub mod Mutations
pub mod Reports
