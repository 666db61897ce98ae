-- ===== src/Provision.antt =====
-- Helpers that prepare a guest: pkg/windows, pkg/network and pkg/containerd.
pub mod Windows
pub mod Interfaces
pub mod Containerd
