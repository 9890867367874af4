-- ===== src/Containment.antt =====
-- internal/containment/containment.go: which file a call may read, and which it may create.
pub mod Types
pub mod Policy
pub mod Upload
pub mod Download
