-- ===== src/Spec.antt =====
-- pkg/spec/topology.go: preparing a Containerlab topology for an isolated session.
pub mod Yaml
pub mod Name
pub mod Native
pub mod Links
pub mod Nodes
pub mod Prepare
pub mod Isolation
