-- ===== src/Api.antt =====
-- api/v1alpha: the DoltDB object, its conditions, and the Pods that the operator reads.
pub mod Condition
pub mod DoltDb
pub mod Pod
pub mod Status
