-- ===== src/Controller.antt =====
-- controllers/wildflyserver_controller.go.
pub mod PodStatuses
pub mod Scale
pub mod Labels
pub mod Pods
pub mod Reconcile
