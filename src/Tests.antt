-- ===== src/Tests.antt =====
-- Runs of the model: the theorems at concrete inputs, over a small host.
pub mod World
pub mod Pods
pub mod Tables
pub mod Services
pub mod Nodes
pub mod Builders
pub mod Descriptors
pub mod Tools
pub mod Settings
pub mod Cleanup
