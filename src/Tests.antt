-- ===== src/Tests.antt =====
-- Concrete servers, pods and environments, and the theorems at them.
pub mod Cluster
pub mod Data
pub mod RecoveryRuns
pub mod Statuses
pub mod Objects
pub mod Rounds
pub mod Remote
pub mod Scaling
