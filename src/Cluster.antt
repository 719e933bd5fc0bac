-- ===== src/Cluster.antt =====
-- What the containers do with the Kubernetes API.
pub mod Api
pub mod Names
pub mod Sidecar
