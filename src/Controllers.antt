-- ===== src/Controllers.antt =====
-- The controllers (controllers/hcloudcluster_controller.go, hcloudmachine_controller.go,
-- hcloudvolume_controller.go, baremetalmachine_controller.go), from the scope on: what each does to a deleted and to a live object.
-- The result is none for `reconcile.Result{}`, else the seconds after which to come back.
pub mod Finalizers
pub mod Machine
pub mod Volume
pub mod BareMetal
pub mod Cluster
mod Tests
