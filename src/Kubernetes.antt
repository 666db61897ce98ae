-- ===== src/Kubernetes.antt =====
-- pkg/kubernetes: the tuples of artifacts that a test suite may ask for.
pub mod Matrix
pub mod K0s
pub mod Kube
